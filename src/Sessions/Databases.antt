-- ===== src/Sessions/Databases.antt =====
-- auth-sessions.ts: a rotation on D1 gives what the transaction gives.
use employee_attendance.Prelude.{
  ◌≡◌, refl, sym, ap, ◌∙◌, String, true, false, some, List, [], ◌∷◌, any, is_some, same_text,
  eq_iff, arith, Option-cases, Bool-cases, inl, inr,
}
use mathlib.Core.Path.{subst}
use employee_attendance.Sessions.{
  AuthSession, SessionUser, Fresh, find_session, revoked_count, rotate, rotate_found,
  rotate_auth_session, rotate_on_d1, rotate_found_on_d1, rotate_auth_session_on_d1,
}

-- No two sessions have one id.
abbrev pub AreUnique : List AuthSession → Type 0
AreUnique [] = Unit
AreUnique (s ∷ ss) = (any (λ t. same_text t.id s.id) ss ≡ false) × AreUnique ss

revoked_count_none :
    (ss : List AuthSession) (id : String)
    → any (λ t. same_text t.id id) ss ≡ false
    → revoked_count (λ t. same_text t.id id) ss ≡ 0
unfolding revoked_count
revoked_count_none [] id h = refl
revoked_count_none (s ∷ ss) id h = let ih = revoked_count_none ss id in ground arith

find_session-any :
    (ss : List AuthSession) (hash : String) (c : AuthSession)
    → find_session ss hash ≡ some c
    → any (λ t. same_text t.id c.id) ss ≡ true
unfolding find_session
find_session-any [] hash c h = ground arith
find_session-any (s ∷ ss) hash c h =
    let ih = find_session-any ss hash c in
    elim (Bool-cases (same_text s.refresh_token_hash hash)) [
      | inl here ↦
          let same : s ≡ c = ground arith in
          let same_id : same_text s.id c.id ≡ true = (eq_iff _ _).1 (ap (λ x. x.id) same) in
          ground arith
      | inr there ↦ ground arith
    ]

revoked_count_one :
    (ss : List AuthSession) (hash : String) (c : AuthSession)
    → AreUnique ss
    → find_session ss hash ≡ some c
    → is_some c.revoked_at ≡ false
    → revoked_count (λ t. same_text t.id c.id) ss ≡ 1
unfolding revoked_count find_session
revoked_count_one [] hash c u h r = ground arith
revoked_count_one (s ∷ ss) hash c (alone, u) h r =
    let ih = revoked_count_one ss hash c u in
    elim (Bool-cases (same_text s.refresh_token_hash hash)) [
      | inl here ↦
          let same : s ≡ c = ground arith in
          let same_id : same_text s.id c.id ≡ true = (eq_iff _ _).1 (ap (λ x. x.id) same) in
          let active = ap (λ x. is_some x.revoked_at) same ∙ r in
          let others =
            revoked_count_none ss c.id
              (subst (λ x. any (λ t. same_text t.id x.id) ss ≡ false) same alone) in
          ground arith
      | inr there ↦
          let later = find_session-any ss hash c (ground arith) in
          elim (Bool-cases (same_text s.id c.id)) [
            | inl same_id ↦
                let found =
                  subst (λ x. any (λ t. same_text t.id x) ss ≡ true)
                    (sym ((eq_iff s.id c.id).0 same_id)) later in
                ground arith
            | inr other ↦ ground arith
          ]
    ]

module _ (user_of : String → SessionUser) where
  -- If no two sessions have one id, presenting a refresh token on D1 leaves the same sessions and
  -- gives the same new session as the transaction.
  pub rotate_auth_session_on_d1_agrees :
      (f : Fresh) (hash : String) (ss : List AuthSession)
      → AreUnique ss
      → rotate_auth_session_on_d1 user_of f hash ss ≡ rotate_auth_session user_of f hash ss
  unfolding rotate_auth_session_on_d1 rotate_auth_session rotate_on_d1 rotate
  rotate_auth_session_on_d1_agrees f hash ss unique = elim (Option-cases (find_session ss hash)) [
    | inl absent ↦
        ap (λ o. rotate_found_on_d1 user_of o f ss) absent
        ∙ sym (ap (λ o. rotate_found user_of o f ss) absent)
    | inr (c, found) ↦
        ap (λ o. rotate_found_on_d1 user_of o f ss) found
        ∙ (elim (Bool-cases (is_some c.revoked_at)) [
          | inl revoked ↦ ground arith
          | inr active ↦ let one = revoked_count_one ss hash c unique found active in ground arith
        ]
            ∙ sym (ap (λ o. rotate_found user_of o f ss) found))
  ]
