-- ===== src/Sessions/Families.antt =====
-- auth-sessions.ts: a family of sessions has one that is not revoked at most, a token that is used
-- again ends its family, and a session that has been rotated is refused.
use employee_attendance.Prelude.{
  ℕ, ◌+◌, ◌≤◌, ◌≡◌, ◌==◌, ◌⊎◌, refl, sym, ap, ◌∙◌, String, Bool, true, false, not, ◌&&◌, ◌||◌,
  Option, none, some, List, [], ◌∷◌, ◌++◌, is_some, same_text, eq_iff, sum_by, sum_by-append,
  if◌then◌else◌, arith, Option-cases, Bool-cases, inl, inr,
}
use mathlib.Core.Path.{subst}
use employee_attendance.Sessions.{
  AuthSession, SessionUser, Fresh, find_session, find_by_id, revoke_where, revoked_count, used_at,
  is_refused, rotate, rotate_found, new_session, rotate_auth_session,
}

-- How many sessions of a family are not revoked.
abbrev pub active_in : String → List AuthSession → ℕ
active_in family ss =
    sum_by (λ s. if same_text s.family_id family && not (is_some s.revoked_at) then 1 else 0) ss

abbrev pub IsSingle : List AuthSession → Type 0
IsSingle ss = (family : String) → active_in family ss ≤ 1

revoke_where-le :
    (p : AuthSession → Bool) (now : ℕ) (ss : List AuthSession) (family : String)
    → active_in family (revoke_where p now ss) ≤ active_in family ss
unfolding revoke_where
revoke_where-le p now [] family = omega arith
revoke_where-le p now (s ∷ ss) family = ground (arith, revoke_where-le p now ss family)

used_at-le :
    (p : AuthSession → Bool) (now : ℕ) (ss : List AuthSession) (family : String)
    → active_in family (used_at p now ss) ≤ active_in family ss
unfolding used_at
used_at-le p now [] family = omega arith
used_at-le p now (s ∷ ss) family = ground (arith, used_at-le p now ss family)

used_at_first :
    (now : ℕ) (s : AuthSession) (ss : List AuthSession)
    → is_some s.revoked_at ≡ false
    → active_in s.family_id (used_at (λ t. same_text t.id s.id) now (s ∷ ss)) + 1
      ≤ active_in s.family_id (s ∷ ss)
unfolding used_at
used_at_first now s ss r =
    let le = used_at-le (λ t. same_text t.id s.id) now ss s.family_id in
    let same_id : same_text s.id s.id ≡ true = (eq_iff _ _).1 refl in
    let same_family : same_text s.family_id s.family_id ≡ true = (eq_iff _ _).1 refl in ground arith

-- The rotated session is counted before and not after.
used_at-found :
    (now : ℕ) (ss : List AuthSession) (hash : String) (c : AuthSession)
    → find_session ss hash ≡ some c
    → is_some c.revoked_at ≡ false
    → active_in c.family_id (used_at (λ s. same_text s.id c.id) now ss) + 1
      ≤ active_in c.family_id ss
unfolding used_at find_session
used_at-found now [] hash c h r = ground arith
used_at-found now (s ∷ ss) hash c h r =
    let ih = used_at-found now ss hash c in
    elim (Bool-cases (same_text s.refresh_token_hash hash)) [
      | inl here ↦
          let same : s ≡ c = ground arith in
          subst
            (λ d.
              active_in d.family_id (used_at (λ t. same_text t.id d.id) now (s ∷ ss)) + 1
              ≤ active_in d.family_id (s ∷ ss))
            same (used_at_first now s ss (ap (λ d. is_some d.revoked_at) same ∙ r))
      | inr there ↦ ground arith
    ]

revoke_family_none :
    (now : ℕ) (ss : List AuthSession) (family : String)
    → active_in family (revoke_where (λ s. same_text s.family_id family) now ss) ≡ 0
unfolding revoke_where
revoke_family_none now [] family = refl
revoke_family_none now (s ∷ ss) family = ground (arith, revoke_family_none now ss family)

used_at-revokes :
    (now : ℕ) (ss : List AuthSession) (id : String)
    → (s : AuthSession) → find_by_id (used_at (λ s. same_text s.id id) now ss) id ≡ some s
    → is_some s.revoked_at ≡ true
unfolding used_at find_by_id
used_at-revokes now [] id s h = ground arith
used_at-revokes now (t ∷ ss) id s h =
    let ih = used_at-revokes now ss id s in
    elim (Bool-cases (same_text t.id id)) [
      | inl here ↦ elim (Bool-cases (is_some t.revoked_at)) [
        | inl was ↦ ground arith
        | inr now_is ↦ ground arith
      ]
      | inr there ↦ ground arith
    ]

active_in-append :
    (ss : List AuthSession) (s : AuthSession) (family : String)
    → active_in family (ss ++ s ∷ []) ≤ active_in family ss + 1
active_in-append ss s family =
    let total =
      sum_by-append
        (λ t. if same_text t.family_id family && not (is_some t.revoked_at) then 1 else 0) ss
        (s ∷ []) in
    ground arith

active_in-other :
    (ss : List AuthSession) (s : AuthSession) (family : String)
    → same_text s.family_id family ≡ false
    → active_in family (ss ++ s ∷ []) ≡ active_in family ss
active_in-other ss s family other =
    let total =
      sum_by-append
        (λ t. if same_text t.family_id family && not (is_some t.revoked_at) then 1 else 0) ss
        (s ∷ []) in
    ground arith

module _ (user_of : String → SessionUser) where
  abbrev rotated : Fresh → AuthSession → List AuthSession → Bool → List AuthSession
  rotated f c ss one =
      let used = used_at (λ t. same_text t.id c.id) f.now ss in
      let n = new_session f c.user_id c.family_id (some c.id) in
      (if◌then◌else◌ {A = List AuthSession × Option AuthSession} one (used ++ n ∷ [], some n)
        (used, none)).0

  abbrev outcome :
      Fresh → AuthSession → List AuthSession → Bool → List AuthSession × Option AuthSession
  outcome f c ss refused =
      if refused
      then (revoke_where (λ s. same_text s.family_id c.family_id) f.now ss, none)
      else rotate user_of f c ss

  abbrev after : Fresh → AuthSession → List AuthSession → Bool → List AuthSession
  after f c ss refused = (outcome f c ss refused).0

  rotate_cases :
      (f : Fresh) (c : AuthSession) (ss : List AuthSession)
      → ((n : AuthSession) × (n.family_id ≡ c.family_id)
          × ((rotate user_of f c ss).0 ≡ used_at (λ t. same_text t.id c.id) f.now ss ++ n ∷ []))
        ⊎ ((rotate user_of f c ss).0 ≡ used_at (λ t. same_text t.id c.id) f.now ss)
  unfolding rotate
  rotate_cases f c ss = elim (Bool-cases (revoked_count (λ t. same_text t.id c.id) ss == 1)) [
    | inl one ↦
        let taken = ap (rotated f c ss) one in
        inl (new_session f c.user_id c.family_id (some c.id), refl, taken)
    | inr other ↦ inr (ap (rotated f c ss) other)
  ]

  rotate-IsSingle :
      (f : Fresh) (c : AuthSession) (ss : List AuthSession) (hash : String)
      → find_session ss hash ≡ some c
      → is_some c.revoked_at ≡ false
      → IsSingle ss
      → IsSingle (rotate user_of f c ss).0
  rotate-IsSingle f c ss hash found active single family =
      let before = single family in
      let here_before = single c.family_id in
      let le = used_at-le (λ t. same_text t.id c.id) f.now ss family in
      let lt = used_at-found f.now ss hash c found active in
      let used = used_at (λ t. same_text t.id c.id) f.now ss in
      elim (rotate_cases f c ss) [
        | inl (n, same_family, taken) ↦
            let more = active_in-append used n family in
            subst (λ xs. active_in family xs ≤ 1) (sym taken)
              (elim (Bool-cases (same_text c.family_id family)) [
                | inl here ↦
                    let same = (eq_iff c.family_id family).0 here in
                    let lt_here = subst (λ x. active_in x used + 1 ≤ active_in x ss) same lt in
                    omega (arith, more, lt_here, before)
                | inr there ↦
                    let kept =
                      active_in-other used n family
                        (ap (λ x. same_text x family) same_family ∙ there) in
                    omega (arith, kept, le, before)
              ])
        | inr kept ↦ subst (λ xs. active_in family xs ≤ 1) (sym kept) (omega (arith, le, before))
      ]

  -- Presenting a refresh token, whichever one it is, keeps it true that no family has more than one
  -- session that is not revoked.
  pub rotate_auth_session-IsSingle :
      (f : Fresh) (hash : String) (ss : List AuthSession)
      → IsSingle ss
      → IsSingle (rotate_auth_session user_of f hash ss).0
  unfolding rotate_auth_session
  rotate_auth_session-IsSingle f hash ss single = elim (Option-cases (find_session ss hash)) [
    | inl absent ↦ subst (λ o. IsSingle (rotate_found user_of o f ss).0) (sym absent) single
    | inr (c, found) ↦
        subst (λ o. IsSingle (rotate_found user_of o f ss).0) (sym found)
          (elim (Bool-cases (is_some c.revoked_at || is_refused user_of f.now c)) [
            | inl refused ↦
                subst (λ xs. IsSingle xs) (sym (ap (after f c ss) refused))
                  λ family.
                    let le =
                      revoke_where-le (λ s. same_text s.family_id c.family_id) f.now ss family in
                    let before = single family in omega (arith, le, before)
            | inr allowed ↦
                subst (λ xs. IsSingle xs) (sym (ap (after f c ss) allowed))
                  (rotate-IsSingle f c ss hash found (ground arith) single)
          ])
  ]

  -- A token whose session is revoked already, or is expired, or is of a user who may not hold a
  -- session, is refused, and then no session of its family is left that is not revoked.
  pub reuse_ends_family :
      (f : Fresh) (hash : String) (ss : List AuthSession) (c : AuthSession)
      → find_session ss hash ≡ some c
      → (is_some c.revoked_at || is_refused user_of f.now c) ≡ true
      → ((rotate_auth_session user_of f hash ss).1 ≡ none)
        × (active_in c.family_id (rotate_auth_session user_of f hash ss).0 ≡ 0)
  unfolding rotate_auth_session
  reuse_ends_family f hash ss c found refused =
      let ended = ap (λ o. rotate_found user_of o f ss) found ∙ ap (outcome f c ss) refused in
      (
        ap (λ r. r.1) ended,
        ap (λ r. active_in c.family_id r.0) ended ∙ revoke_family_none f.now ss c.family_id,
      )
