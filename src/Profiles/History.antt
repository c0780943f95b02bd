-- ===== src/Profiles/History.antt =====
-- payroll-foundation.controller.ts: a profile that is created takes effect on its date and leaves the
-- time before it as it was.
use employee_attendance.Prelude.{
  suc, ◌≤◌, ◌≡◌, refl, sym, ap, ◌∙◌, true, false, ◌&&◌, Option, none, some, List, [], ◌∷◌, All,
  All-imp, arith, ◌⊎◌, if◌then◌else◌, update_where, Bool-cases, Option-cases, inl, inr,
}
use mathlib.Core.Path.{subst}
use employee_attendance.Prelude.Result.{ok, throw_if-eq-ok, ok-injective}
use employee_attendance.Calendar.{
  Day, day_le, day_eq, is_leap, month_length, next_day, ordinal, ends_after,
}
use employee_attendance.Calendar.Ordinals.{IsDate, ordinal-next_day, day_le_iff}
use employee_attendance.Profiles.{
  previous_day, Profile, profile_date_conflict, latest_profile, later_profile, starts_after,
  end_profile, end_latest, create_profile, is_in_effect, content_on,
}

previous_day-IsDate : (d : Day) → IsDate d → suc 1 ≤ d.year → IsDate (previous_day d)
unfolding previous_day month_length is_leap
previous_day-IsDate d v later = ground (arith)

next_day-previous_day : (d : Day) → IsDate d → next_day (previous_day d) ≡ d
unfolding previous_day next_day month_length is_leap
next_day-previous_day d v = ground (arith)

-- A date is before another one exactly if it is not after the day before that.
before_day :
    (a b : Day)
    → IsDate a
    → IsDate b
    → suc 1 ≤ b.year
    → day_le b a ≡ false
    → day_le a (previous_day b) ≡ true
before_day a b v w later h =
    let u = previous_day-IsDate b w later in
    let step = ordinal-next_day (previous_day b) u in
    let same = ap ordinal (next_day-previous_day b w) in
    ground (arith, day_le_iff b a w v, day_le_iff a (previous_day b) v u)

pub previous_day_before : (b : Day) → IsDate b → suc 1 ≤ b.year → day_le b (previous_day b) ≡ false
previous_day_before b w later =
    let u = previous_day-IsDate b w later in
    let step = ordinal-next_day (previous_day b) u in
    let same = ap ordinal (next_day-previous_day b w) in
    ground (arith, day_le_iff b (previous_day b) w u)

pub day_le_total : (a b : Day) → day_le a b ≡ false → day_le b a ≡ true
unfolding day_le
day_le_total a b h = ground (arith)

before_same : (a b : Day) → day_le a b ≡ false → day_eq b a ≡ false
unfolding day_le day_eq
before_same a b h = ground (arith)

pub day_eq_self : (a : Day) → day_eq a a ≡ true
unfolding day_eq
day_eq_self a = ground (arith)

before_later :
    (from start e : Day)
    → day_le from start ≡ false
    → day_le start e ≡ false
    → day_le from e ≡ false
unfolding day_le
before_later from start e h k = ground (arith)

before_end :
    (from date e : Day) → day_le from date ≡ false → day_le from e ≡ true → day_le date e ≡ true
unfolding day_le
before_end from date e b h = ground (arith)

module _ {A : Type 0} where
  -- A profile that starts earlier and ends before the day.
  abbrev IsBefore : Day → Profile A → Type 0
  IsBefore from q =
      (ends_after q.effective_to from ≡ false) × (day_le from q.effective_from ≡ false)

  -- The profiles, the latest one first, each of which ends before the next one starts.
  abbrev pub IsHistory : List (Profile A) → Type 0
  IsHistory [] = Unit
  IsHistory (p ∷ ps) = All (IsBefore p.effective_from) ps × IsHistory ps

  latest_profile-All :
      (P : Profile A → Type 0) (ps : List (Profile A)) (p : Profile A)
      → All P ps
      → latest_profile ps ≡ some p
      → P p
  unfolding latest_profile
  latest_profile-All P [] p h e = cc
  latest_profile-All P (q ∷ ps) p (hq, h) e = elim (Option-cases (latest_profile ps)) [
    | inl missing ↦ let same : q ≡ p = ground (arith) in subst P same hq
    | inr (l, found) ↦
        let ih = latest_profile-All P ps l h found in
        elim (Bool-cases (day_le l.effective_from q.effective_from)) [
          | inl newer ↦ let same : q ≡ p = ground (arith) in subst P same hq
          | inr older ↦ let same : l ≡ p = ground (arith) in subst P same ih
        ]
  ]

  latest_first :
      (p : Profile A) (ps : List (Profile A))
      → All (IsBefore p.effective_from) ps
      → latest_profile (p ∷ ps) ≡ some p
  unfolding latest_profile
  latest_first p ps h = elim (Option-cases (latest_profile ps)) [
    | inl missing ↦ ap (later_profile p) missing
    | inr (l, found) ↦
        let (_, starts) = latest_profile-All (IsBefore p.effective_from) ps l h found in
        let older = day_le_total p.effective_from l.effective_from starts in
        ap (later_profile p) found ∙ ap (λ b. if b then some p else some l) older
  ]

  update_where-before :
      (f : Profile A → Profile A) (from : Day) (ps : List (Profile A))
      → All (IsBefore from) ps
      → update_where (λ q. day_eq q.effective_from from) f ps ≡ ps
  update_where-before f from [] h = refl
  update_where-before f from (q ∷ ps) ((_, starts), h) =
      let other = before_same from q.effective_from starts in
      ground (arith, update_where-before f from ps h)

  -- What becomes of the profile that was the latest one.
  abbrev ended : Day → Profile A → Profile A
  ended from p = if ends_after p.effective_to from then end_profile from p else p

  end_latest-first :
      (from : Day) (p : Profile A) (ps : List (Profile A))
      → All (IsBefore p.effective_from) ps
      → end_latest (some p) from (p ∷ ps) ≡ ended from p ∷ ps
  unfolding end_latest
  end_latest-first from p ps h =
      let rest = update_where-before (end_profile from) p.effective_from ps h in
      let self = day_eq_self p.effective_from in
      elim (Bool-cases (ends_after p.effective_to from)) [
        | inl lasting ↦ ground (arith)
        | inr over ↦ ground (arith)
      ]

  IsBefore-later :
      (from start : Day)
      → day_le from start ≡ false
      → (q : Profile A) → IsBefore start q
      → IsBefore from q
  IsBefore-later from start h q (over, starts) =
      (ends_before q.effective_to over, before_later from start q.effective_from h starts)
    where
      ends_before : (o : Option Day) → ends_after o start ≡ false → ends_after o from ≡ false
      ends_before none k = cc
      ends_before (some e) k = before_later from start e h k

  ended_before :
      (from : Day)
      → IsDate from
      → suc 1 ≤ from.year
      → (p : Profile A) → ends_after (ended from p).effective_to from ≡ false
  ended_before from w later p = elim (Bool-cases (ends_after p.effective_to from)) [
    | inl lasting ↦
        ap (λ b. ends_after (if b then end_profile from p else p).effective_to from) lasting
        ∙ previous_day_before from w later
    | inr over ↦
        ap (λ b. ends_after (if b then end_profile from p else p).effective_to from) over ∙ over
  ]

  ended_start : (from : Day) (p : Profile A) → (ended from p).effective_from ≡ p.effective_from
  ended_start from p = ground (arith)

  new_profile : Day → A → Profile A
  new_profile from content = record {
    effective_from = from;
    effective_to = none;
    content = content;
  }

  -- A created profile stands before the former ones, the latest of which has been ended.
  create_profile-cases :
      (from : Day) (content : A) (ps ps' : List (Profile A))
      → IsHistory ps
      → create_profile from content ps ≡ ok ps'
      → ((ps ≡ []) × (ps' ≡ new_profile from content ∷ []))
        ⊎ ((p : Profile A) × (rest : List (Profile A)) × (ps ≡ p ∷ rest)
            × (day_le from p.effective_from ≡ false)
            × (ps' ≡ new_profile from content ∷ ended from p ∷ rest))
  unfolding create_profile end_latest latest_profile new_profile
  create_profile-cases from content [] ps' h done = inl (refl, sym (ok-injective _ _ done))
  create_profile-cases from content (p ∷ rest) ps' (older, h) done =
      let latest = latest_first p rest older in
      let (starts, written) =
        throw_if-eq-ok (starts_after (latest_profile (p ∷ rest)) from) profile_date_conflict _
          done in
      inr (
        p,
        rest,
        refl,
        ap (λ o. starts_after o from) (sym latest) ∙ starts,
        sym (ok-injective _ _ written)
            ∙ ap (λ o. new_profile from content ∷ end_latest o from (p ∷ rest)) latest
            ∙ ap (λ qs. new_profile from content ∷ qs) (end_latest-first from p rest older),
      )

  same_in_effect :
      (from date : Day)
      → IsDate from
      → IsDate date
      → suc 1 ≤ from.year
      → day_le from date ≡ false
      → (p : Profile A) → is_in_effect date (ended from p) ≡ is_in_effect date p
  same_in_effect from date w v later before p =
      let last = before_day date from v w later before in
      elim (Bool-cases (ends_after p.effective_to from)) [
        | inl lasting ↦
            ap (λ b. is_in_effect date (if b then end_profile from p else p)) lasting
            ∙ ap (λ b. day_le p.effective_from date && b)
                (last ∙ sym (lasts p.effective_to before lasting))
        | inr over ↦ ap (λ b. is_in_effect date (if b then end_profile from p else p)) over
      ]
    where
      lasts :
          (o : Option Day)
          → day_le from date ≡ false
          → ends_after o from ≡ true
          → ends_after o date ≡ true
      lasts none b h = refl
      lasts (some e) b h = before_end from date e b h

  -- If each profile of an employee ends before the next one starts, then so it is after one has been
  -- created from a date after year 1; from its date on the created one is in effect, and on every
  -- earlier date the profile that was in effect before, if any, still is.
  pub create_profile_lem :
      (from : Day) (content : A) (ps ps' : List (Profile A))
      → IsDate from
      → suc 1 ≤ from.year
      → IsHistory ps
      → create_profile from content ps ≡ ok ps'
      → IsHistory ps'
        × ((date : Day)
            → IsDate date
            → content_on date ps' ≡ (if day_le from date then some content else content_on date ps))
  unfolding new_profile
  create_profile_lem from content ps ps' w later h done =
      elim (create_profile-cases from content ps ps' h done) [
        | inl (empty, at) ↦
            subst
              (λ qs.
                IsHistory qs
                × ((date : Day)
                    → IsDate date
                    → content_on date qs
                      ≡ (if day_le from date then some content else content_on date ps)))
              (sym at) ((tt, tt), λ date v. let was = ap (content_on date) empty in ground (arith))
        | inr (p, rest, shape, starts, at) ↦
            let (older, others) = subst IsHistory shape h in
            subst
              (λ qs.
                IsHistory qs
                × ((date : Day)
                    → IsDate date
                    → content_on date qs
                      ≡ (if day_le from date then some content else content_on date ps)))
              (sym at)
              (
                (
                  (
                    (ended_before from w later p, ap (day_le from) (ended_start from p) ∙ starts),
                    All-imp rest (IsBefore-later from p.effective_from starts) older,
                  ),
                  (subst (λ d. All (IsBefore d) rest) (sym (ended_start from p)) older, others),
                ),
                λ date v. elim (Bool-cases (day_le from date)) [
                  | inl on ↦ ground (arith)
                  | inr before ↦
                      let same = same_in_effect from date w v later before p in
                      let was = ap (content_on date) shape in
                      let kept : (ended from p).content ≡ p.content = ground (arith) in
                      ground (arith)
                ],
              )
      ]
