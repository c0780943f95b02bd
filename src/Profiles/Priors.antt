-- ===== src/Profiles/Priors.antt =====
-- workforce-v2.controller.ts: the search and the update of the assignment before, after which none lasts
-- until the first day of the new one.
use employee_attendance.Prelude.{
  ℕ, suc, ◌≤◌, ◌≡◌, refl, sym, ap, ◌∙◌, Bool, true, false, ◌&&◌, none, some, List, [], ◌∷◌, any,
  filter, sum_by, arith, if◌then◌else◌, update_where, Bool-cases, Option-cases, inl, inr,
}
use employee_attendance.Calendar.{Day, day_le, day_eq}
use employee_attendance.Profiles.{previous_day, Profile, latest_profile, end_profile}
use employee_attendance.Profiles.History.{day_eq_self}
use employee_attendance.Profiles.Assignments.{is_prior, end_prior}

module _ {A : Type 0} where
  abbrev pub counted : (Profile A → Bool) → List (Profile A) → ℕ
  counted c ps = sum_by (λ p. if c p then 1 else 0) ps

  latest-any :
      (from : Day) (ps : List (Profile A)) (p : Profile A)
      → latest_profile (filter (is_prior from) ps) ≡ some p
      → any (λ q. is_prior from q && day_eq q.effective_from p.effective_from) ps ≡ true
  unfolding latest_profile
  latest-any from [] p h = cc
  latest-any from (q ∷ ps) p h =
      let ih = latest-any from ps in
      let self = day_eq_self q.effective_from in
      elim (Bool-cases (is_prior from q)) [
        | inl prior ↦ elim (Option-cases (latest_profile (filter (is_prior from) ps))) [
          | inl missing ↦
              let same : q ≡ p = ground (arith) in
              let mine = ap (λ x. day_eq q.effective_from x.effective_from) (sym same) ∙ self in
              ground (arith)
          | inr (l, found) ↦ elim (Bool-cases (day_le l.effective_from q.effective_from)) [
            | inl newer ↦
                let same : q ≡ p = ground (arith) in
                let mine = ap (λ x. day_eq q.effective_from x.effective_from) (sym same) ∙ self in
                ground (arith)
            | inr older ↦
                let same : l ≡ p = ground (arith) in
                let rest = ih p (found ∙ ap some same) in ground (arith)
          ]
        ]
        | inr other ↦ let rest = ih p (ground (arith)) in ground (arith)
      ]

  latest_none :
      (from : Day) (ps : List (Profile A))
      → latest_profile (filter (is_prior from) ps) ≡ none
      → counted (is_prior from) ps ≡ 0
  unfolding latest_profile
  latest_none from [] h = refl
  latest_none from (q ∷ ps) h = elim (Bool-cases (is_prior from q)) [
    | inl prior ↦ elim (Option-cases (latest_profile (filter (is_prior from) ps))) [
      | inl missing ↦ absurd (ground (arith))
      | inr (l, found) ↦ elim (Bool-cases (day_le l.effective_from q.effective_from)) [
        | inl newer ↦ absurd (ground (arith))
        | inr older ↦ absurd (ground (arith))
      ]
    ]
    | inr other ↦ ground (arith, latest_none from ps)
  ]

  -- The update leaves fewer assignments that last until the day.
  fewer_prior :
      (from start : Day)
      → day_le from (previous_day from) ≡ false
      → (ps : List (Profile A))
      → (counted (is_prior from) (
            update_where
              (λ q. is_prior from q && day_eq q.effective_from start)
              (end_profile from)
              ps)
          ≤ counted (is_prior from) ps)
        × (any (λ q. is_prior from q && day_eq q.effective_from start) ps ≡ true
            → suc (
                counted (is_prior from) (
                  update_where
                    (λ q. is_prior from q && day_eq q.effective_from start)
                    (end_profile from)
                    ps))
              ≤ counted (is_prior from) ps)
  fewer_prior from start before [] = (omega arith, λ h. cc)
  fewer_prior from start before (q ∷ ps) =
      let (a, b) = fewer_prior from start before ps in
      elim (Bool-cases (is_prior from q)) [
        | inl prior ↦ elim (Bool-cases (day_eq q.effective_from start)) [
          | inl same ↦ (ground (arith), λ h. ground (arith))
          | inr other ↦ (ground (arith), λ h. ground (arith))
        ]
        | inr other ↦ (ground (arith), λ h. ground (arith))
      ]

  pub none_prior :
      (from : Day)
      → day_le from (previous_day from) ≡ false
      → (ps : List (Profile A)) → counted (is_prior from) ps ≤ 1
      → counted (is_prior from) (end_prior (latest_profile (filter (is_prior from) ps)) from ps) ≡ 0
  unfolding end_prior
  none_prior from before ps one = elim (Option-cases (latest_profile (filter (is_prior from) ps))) [
    | inl missing ↦
        ap (λ o. counted (is_prior from) (end_prior o from ps)) missing
        ∙ latest_none from ps missing
    | inr (p, found) ↦
        ap (λ o. counted (is_prior from) (end_prior o from ps)) found
        ∙ (let less =
              (fewer_prior from p.effective_from before ps).1 (latest-any from ps p found) in
            omega arith)
  ]
