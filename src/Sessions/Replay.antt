-- ===== src/Sessions/Replay.antt =====
-- auth-sessions.ts: a refresh token that is presented a second time, whatever requests came between.
use employee_attendance.Prelude.{
  ℕ, ◌≡◌, refl, sym, ap, ◌∙◌, String, Bool, true, false, not, ◌&&◌, ◌||◌, ◌==◌, Option, none, some,
  List, [], ◌∷◌, ◌++◌, is_some, same_text, eq_iff, if◌then◌else◌, arith, Bool-cases, inl, inr,
}
use mathlib.Core.Path.{subst}
use employee_attendance.Sessions.{
  AuthSession, SessionUser, Fresh, find_session, revoke_where, revoked_count, used_at, is_refused,
  rotate, rotate_found, new_session, create_auth_session, rotate_auth_session, revoke_refresh_token,
  revoke_found,
}
use employee_attendance.Sessions.Families.{active_in, reuse_ends_family}

-- What requests do with the sessions: a refresh, a login and a logout.
pub data SessionRequest : Type 0 where
  refresh : Fresh → String → SessionRequest
  log_in : Fresh → String → SessionRequest
  log_out : ℕ → String → SessionRequest

find_session-append :
    (ss xs : List AuthSession) (hash : String) (c : AuthSession)
    → find_session ss hash ≡ some c
    → find_session (ss ++ xs) hash ≡ some c
unfolding find_session
find_session-append [] xs hash c h = cc
find_session-append (s ∷ ss) xs hash c h = ground (arith, find_session-append ss xs hash c)

find_session-used_at :
    (p : AuthSession → Bool) (now : ℕ) (ss : List AuthSession) (hash : String) (c : AuthSession)
    → find_session ss hash ≡ some c
    → is_some c.revoked_at ≡ true
    → find_session (used_at p now ss) hash ≡ some c
unfolding find_session used_at
find_session-used_at p now [] hash c h r = cc
find_session-used_at p now (s ∷ ss) hash c h r =
    let rest = find_session-used_at p now ss hash c in
    elim (Bool-cases (same_text s.refresh_token_hash hash)) [
      | inl here ↦
          let same : s ≡ c = ground arith in
          let was = ap (λ x. is_some x.revoked_at) same ∙ r in ground arith
      | inr there ↦ ground arith
    ]

find_session-revoke_where :
    (p : AuthSession → Bool) (now : ℕ) (ss : List AuthSession) (hash : String) (c : AuthSession)
    → find_session ss hash ≡ some c
    → is_some c.revoked_at ≡ true
    → find_session (revoke_where p now ss) hash ≡ some c
unfolding find_session revoke_where
find_session-revoke_where p now [] hash c h r = cc
find_session-revoke_where p now (s ∷ ss) hash c h r =
    let rest = find_session-revoke_where p now ss hash c in
    elim (Bool-cases (same_text s.refresh_token_hash hash)) [
      | inl here ↦
          let same : s ≡ c = ground arith in
          let was = ap (λ x. is_some x.revoked_at) same ∙ r in ground arith
      | inr there ↦ ground arith
    ]

abbrev used : ℕ → AuthSession → AuthSession
used now s = record s { revoked_at = some now; last_used_at = some now }

-- The session that a rotation has taken the place of is revoked.
find_session-rotated :
    (now : ℕ) (ss : List AuthSession) (hash : String) (c : AuthSession)
    → find_session ss hash ≡ some c
    → is_some c.revoked_at ≡ false
    → find_session (used_at (λ s. same_text s.id c.id) now ss) hash ≡ some (used now c)
unfolding find_session used_at
find_session-rotated now [] hash c h r = cc
find_session-rotated now (s ∷ ss) hash c h r =
    let rest = find_session-rotated now ss hash c in
    elim (Bool-cases (same_text s.refresh_token_hash hash)) [
      | inl here ↦
          let same : s ≡ c = ground arith in
          let was = ap (λ x. is_some x.revoked_at) same ∙ r in
          let id : same_text s.id c.id ≡ true = (eq_iff s.id c.id).1 (ap (λ x. x.id) same) in
          let mine = ap (λ x. same_text x.refresh_token_hash hash) (sym same) ∙ here in
          let both : (same_text s.id c.id && not (is_some s.revoked_at)) ≡ true = ground arith in
          let taken = ap (λ b. if b then used now s else s) both ∙ ap (used now) same in
          let found = ap (λ x. same_text x.refresh_token_hash hash) taken ∙ mine in
          ap
            (λ b.
              if b
              then some
                  (if same_text s.id c.id && not (is_some s.revoked_at) then used now s else s)
              else find_session (used_at (λ t. same_text t.id c.id) now ss) hash)
            found
          ∙ ap some taken
      | inr there ↦ ground arith
    ]

module _ (user_of : String → SessionUser) where
  abbrev pub run_requests : List SessionRequest → List AuthSession → List AuthSession
  run_requests [] ss = ss
  run_requests (refresh f hash ∷ rs) ss = run_requests rs (rotate_auth_session user_of f hash ss).0
  run_requests (log_in f user ∷ rs) ss = run_requests rs (create_auth_session f user ss)
  run_requests (log_out now hash ∷ rs) ss =
      run_requests rs (revoke_refresh_token user_of now hash ss)

  -- The session of a hash that is revoked.
  abbrev IsSpent : String → AuthSession → List AuthSession → Type 0
  IsSpent hash c ss = (find_session ss hash ≡ some c) × (is_some c.revoked_at ≡ true)

  rotate-IsSpent :
      (f : Fresh) (d : AuthSession) (hash : String) (c : AuthSession) (ss : List AuthSession)
      → IsSpent hash c ss
      → IsSpent hash c (rotate user_of f d ss).0
  unfolding rotate
  rotate-IsSpent f d hash c ss (found, revoked) =
      let n = new_session f d.user_id d.family_id (some d.id) in
      let still = find_session-used_at (λ t. same_text t.id d.id) f.now ss hash c found revoked in
      let longer =
        find_session-append (used_at (λ t. same_text t.id d.id) f.now ss) (n ∷ []) hash c still in
      elim (Bool-cases (revoked_count (λ t. same_text t.id d.id) ss == 1)) [
        | inl one ↦ (ground arith, revoked)
        | inr other ↦ (ground arith, revoked)
      ]

  revoke-IsSpent :
      (p : AuthSession → Bool) (now : ℕ) (hash : String) (c : AuthSession) (ss : List AuthSession)
      → IsSpent hash c ss
      → IsSpent hash c (revoke_where p now ss)
  revoke-IsSpent p now hash c ss (found, revoked) =
      (find_session-revoke_where p now ss hash c found revoked, revoked)

  refresh-IsSpent :
      (f : Fresh) (presented : String) (hash : String) (c : AuthSession) (ss : List AuthSession)
      → IsSpent hash c ss
      → IsSpent hash c (rotate_auth_session user_of f presented ss).0
  unfolding rotate_auth_session
  refresh-IsSpent f presented hash c ss spent = go (find_session ss presented)
    where
      go : (o : Option AuthSession) → IsSpent hash c (rotate_found user_of o f ss).0
      go none = spent
      go (some d) =
          let ended =
            revoke-IsSpent (λ s. same_text s.family_id d.family_id) f.now hash c ss spent in
          let taken = rotate-IsSpent f d hash c ss spent in
          elim (Bool-cases (is_some d.revoked_at || is_refused user_of f.now d)) [
            | inl refused ↦ ground arith
            | inr allowed ↦ ground arith
          ]

  log_out-IsSpent :
      (now : ℕ) (presented hash : String) (c : AuthSession) (ss : List AuthSession)
      → IsSpent hash c ss
      → IsSpent hash c (revoke_refresh_token user_of now presented ss)
  unfolding revoke_refresh_token
  log_out-IsSpent now presented hash c ss spent = go (find_session ss presented)
    where
      go : (o : Option AuthSession) → IsSpent hash c (revoke_found user_of o now ss)
      go none = spent
      go (some d) = revoke-IsSpent (λ s. same_text s.id d.id) now hash c ss spent

  run_requests-IsSpent :
      (rs : List SessionRequest) (hash : String) (c : AuthSession) (ss : List AuthSession)
      → IsSpent hash c ss
      → IsSpent hash c (run_requests rs ss)
  unfolding create_auth_session
  run_requests-IsSpent [] hash c ss spent = spent
  run_requests-IsSpent (refresh f presented ∷ rs) hash c ss spent =
      run_requests-IsSpent rs hash c _ (refresh-IsSpent f presented hash c ss spent)
  run_requests-IsSpent (log_in f user ∷ rs) hash c ss (found, revoked) =
      run_requests-IsSpent rs hash c _ (find_session-append ss _ hash c found, revoked)
  run_requests-IsSpent (log_out now presented ∷ rs) hash c ss spent =
      run_requests-IsSpent rs hash c _ (log_out-IsSpent now presented hash c ss spent)

  -- A refresh that succeeds has found a session that is not revoked, and has taken its place.
  rotate_auth_session-some :
      (f : Fresh) (hash : String) (ss : List AuthSession) (n : AuthSession)
      → (rotate_auth_session user_of f hash ss).1 ≡ some n
      → (c : AuthSession) × (n.family_id ≡ c.family_id)
        × IsSpent hash (used f.now c) (rotate_auth_session user_of f hash ss).0
  unfolding rotate_auth_session rotate
  rotate_auth_session-some f hash ss n done = go (find_session ss hash) refl done
    where
      go :
          (o : Option AuthSession)
          → find_session ss hash ≡ o
          → (rotate_found user_of o f ss).1 ≡ some n
          → (c : AuthSession) × (n.family_id ≡ c.family_id)
            × IsSpent hash (used f.now c) (rotate_found user_of o f ss).0
      go none e h = cc
      go (some c) e h = elim (Bool-cases (is_some c.revoked_at || is_refused user_of f.now c)) [
        | inl refused ↦ cc
        | inr allowed ↦
            let kept = find_session-rotated f.now ss hash c e (ground arith) in
            let m = new_session f c.user_id c.family_id (some c.id) in
            let longer =
              find_session-append (used_at (λ t. same_text t.id c.id) f.now ss) (m ∷ []) hash
                (used f.now c) kept in
            elim (Bool-cases (revoked_count (λ t. same_text t.id c.id) ss == 1)) [
              | inl one ↦ (c, ground arith, ground arith)
              | inr other ↦ cc
            ]
      ]

  -- After a refresh token has been rotated, and whatever refreshes, logins and logouts follow, presenting
  -- it again gives no session, and then no session of its family is left that is not revoked.
  pub replay_ends_family :
      (f : Fresh) (hash : String) (ss : List AuthSession) (n : AuthSession)
      (rs : List SessionRequest) (g : Fresh)
      → (rotate_auth_session user_of f hash ss).1 ≡ some n
      → let later = run_requests rs (rotate_auth_session user_of f hash ss).0 in
        ((rotate_auth_session user_of g hash later).1 ≡ none)
        × (active_in n.family_id (rotate_auth_session user_of g hash later).0 ≡ 0)
  replay_ends_family f hash ss n rs g done =
      let (c, family, spent) = rotate_auth_session-some f hash ss n done in
      let later = run_requests rs (rotate_auth_session user_of f hash ss).0 in
      let (found, revoked) = run_requests-IsSpent rs hash (used f.now c) _ spent in
      let (refused, ended) = reuse_ends_family user_of g hash later (used f.now c) found refl in
      (
        refused,
        subst (λ x. active_in x (rotate_auth_session user_of g hash later).0 ≡ 0) (sym family)
            ended,
      )
