-- ===== src/Requests/Remaining.antt =====
-- requests-v2.controller.ts: which exception codes a correction leaves, `remainingCodes`.
use employee_attendance.Prelude.{
  ℕ, ◌≡◌, ◌≢◌, ◌⊎◌, ◌&&◌, ◌||◌, Bool, Option, none, some, filter, Bool-cases, not, ◌++◌,
  if◌then◌else◌, is_some, ap, sym, ◌==◌, ==_iff, inl, inr, ◌↔◌, refl, ◌∙◌, true, false, List, [],
  ◌∷◌, arith,
}
use mathlib.Core.Path.{}
use employee_attendance.CodeSet.{has_code, has_code-append, add_code, set_of}
use employee_attendance.Timesheet.{}
use employee_attendance.Timesheet.Codes.{
  exception_code, ExceptionCode, code_rank, gps_clock_request_pending, gps_accuracy_rejected,
  correction_incomplete,
}
use employee_attendance.Requests.{TimesheetDay}
use employee_attendance.Requests.Corrections.{
  CorrectionValues, outlasts_correction, remaining_codes, has_both,
}

-- A code of the timesheet that a correction does not settle, or that of one which leaves an instant out.
abbrev pub IsLeft : CorrectionValues → TimesheetDay → ExceptionCode → Type 0
IsLeft q t c =
    ((has_code c t.exception_codes ≡ true)
      × (c ≢ gps_clock_request_pending)
      × (c ≢ gps_accuracy_rejected)
      × (c ≢ correction_incomplete))
    ⊎ ((c ≡ correction_incomplete)
        × (q.is_gps_exception ≡ false)
        × ((q.first_clock_in_at ≡ none) ⊎ (q.last_clock_out_at ≡ none)))

rank_iff : (c d : ExceptionCode) → (code_rank c ≡ code_rank d) ↔ (c ≡ d)
unfolding code_rank
rank_iff c d = ground (arith)

pub has_code-set_of :
    (c : ExceptionCode) (set codes : List ExceptionCode)
    → has_code c (set_of set codes) ≡ (has_code c set || has_code c codes)
unfolding add_code
has_code-set_of c set [] = ground (arith)
has_code-set_of c set (d ∷ codes) =
    let rest = has_code-set_of c (add_code d set) codes in
    let one = has_code-append c d set in
    elim (Bool-cases (has_code d set)) [
      | inl known ↦ elim (Bool-cases (code_rank d == code_rank c)) [
        | inl same ↦
            let at = (rank_iff d c).0 ((==_iff (code_rank d) (code_rank c)).0 same) in
            let also = sym (ap (λ x. has_code x set) at) ∙ known in ground (arith)
        | inr other ↦ ground (arith)
      ]
      | inr new ↦ ground (arith)
    ]

has_code-filter :
    (c : ExceptionCode) (p : ExceptionCode → Bool) (codes : List ExceptionCode)
    → has_code c (filter p codes) ≡ (has_code c codes && p c)
has_code-filter c p [] = refl
has_code-filter c p (d ∷ codes) =
    let rest = has_code-filter c p codes in
    elim (Bool-cases (code_rank d == code_rank c)) [
      | inl same ↦
          let at = ap p ((rank_iff d c).0 ((==_iff (code_rank d) (code_rank c)).0 same)) in
          ground (arith)
      | inr other ↦ ground (arith)
    ]

pub missing_iff : (o : Option ℕ) → (is_some o ≡ false) ↔ (o ≡ none)
missing_iff none = ground (arith)
missing_iff (some n) = ground (arith)

outlasts_iff :
    (c : ExceptionCode)
    → (outlasts_correction c ≡ true) ↔ (
        (c ≢ gps_clock_request_pending) × (c ≢ gps_accuracy_rejected) × (c ≢ correction_incomplete))
outlasts_iff c = ground (arith)

kept_iff :
    (c : ExceptionCode) (codes : List ExceptionCode)
    → (has_code c (filter outlasts_correction codes) ≡ true) ↔ (
        (has_code c codes ≡ true)
        × (c ≢ gps_clock_request_pending)
        × (c ≢ gps_accuracy_rejected)
        × (c ≢ correction_incomplete))
kept_iff c codes =
    let kept = has_code-filter c outlasts_correction codes in
    let lasting = outlasts_iff c in
    (
      λ h. let (a, b, d) = lasting.0 (ground (arith)) in (ground (arith), a, b, d),
      λ (h, a, b, d). let lasts = lasting.1 (a, b, d) in ground (arith),
    )

abbrev adds_incomplete : CorrectionValues → Bool
adds_incomplete q = not (has_both q) && not q.is_gps_exception

adds_incomplete_iff :
    (q : CorrectionValues)
    → (adds_incomplete q ≡ true) ↔ (
        (q.is_gps_exception ≡ false)
        × ((q.first_clock_in_at ≡ none) ⊎ (q.last_clock_out_at ≡ none)))
adds_incomplete_iff q =
    let first = missing_iff q.first_clock_in_at in
    let last = missing_iff q.last_clock_out_at in ground (arith)

pub remaining_codes_iff :
    (q : CorrectionValues) (t : TimesheetDay) (c : ExceptionCode)
    → (has_code c (remaining_codes q t) ≡ true) ↔ IsLeft q t c
unfolding remaining_codes
remaining_codes_iff q t c =
    let codes = filter outlasts_correction t.exception_codes in
    let kept = kept_iff c t.exception_codes in
    let adds = adds_incomplete_iff q in
    let more = has_code-append c correction_incomplete codes in
    let same = rank_iff correction_incomplete c in
    let equal = ==_iff (code_rank correction_incomplete) (code_rank c) in
    elim (Bool-cases (adds_incomplete q)) [
      | inl with_it ↦
          let all =
            ap (λ b. has_code c (if b then codes ++ correction_incomplete ∷ [] else codes))
              with_it in
          (
            λ h. elim (Bool-cases (has_code c codes)) [
              | inl old ↦ inl (kept.0 old)
              | inr new ↦
                  let (gps, missing) = adds.0 with_it in
                  inr (sym (same.0 (equal.0 (ground (arith)))), gps, missing)
            ],
            λ h. elim h [
              | inl old ↦ let there = kept.1 old in ground (arith)
              | inr (at, _, _) ↦ let there = equal.1 (same.1 (sym at)) in ground (arith)
            ],
          )
      | inr without_it ↦
          let all =
            ap (λ b. has_code c (if b then codes ++ correction_incomplete ∷ [] else codes))
              without_it in
          (
            λ h. inl (kept.0 (sym all ∙ h)),
            λ h. elim h [
              | inl old ↦ all ∙ kept.1 old
              | inr (_, gps, missing) ↦
                  let with_it = adds.1 (gps, missing) in absurd (ground (arith))
            ],
          )
    ]
