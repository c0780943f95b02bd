-- ===== src/Sessions.antt =====
-- apps/api/src/services/auth-sessions.ts: the sessions that refresh tokens carry, and the check of a
-- session in apps/api/src/middleware/auth.ts. Each operation is one transaction; the random ids and
-- tokens, the instant and the SHA-256 hash are arguments.
pub mod Families
pub mod Databases
pub mod Replay
use employee_attendance.Prelude.{
  ℕ, ◌+◌, String, Bool, true, false, not, ◌&&◌, ◌||◌, Option, none, some, List, [], ◌∷◌, ◌++◌, map,
  any, find, is_some, same_text, ◌==◌, leb, sum_by, if◌then◌else◌,
}

-- `Role`, `AppRole` and `MembershipRole`
pub data Role : Type 0 where
  employee manager admin dev_admin : Role

pub data AppRole : Type 0 where
  app_employee app_manager app_admin app_global_admin app_dev_admin : AppRole

pub data MembershipRole : Type 0 where
  member_employee member_manager member_admin : MembershipRole

pub record Membership : Type 0 where
  pub client_id : String
  pub role : MembershipRole

-- A user with the active memberships.
pub record SessionUser : Type 0 where
  pub role : Role
  pub is_global_admin : Bool
  pub client_id : Option String
  pub memberships : List Membership
  pub is_active : Bool
  pub password_version : ℕ

pub record AuthSession : Type 0 where
  pub id : String
  pub user_id : String
  pub refresh_token_hash : String
  pub family_id : String
  pub rotated_from_id : Option String
  pub expires_at : ℕ
  pub revoked_at : Option ℕ
  pub last_used_at : Option ℕ

abbrev is_dev_admin : Role → Bool
is_dev_admin dev_admin = true
is_dev_admin _ = false

unfoldable pub membership_role : Role → MembershipRole
membership_role admin = member_admin
membership_role manager = member_manager
membership_role _ = member_employee

abbrev same_role : MembershipRole → MembershipRole → Bool
same_role member_employee member_employee = true
same_role member_manager member_manager = true
same_role member_admin member_admin = true
same_role _ _ = false

abbrev has_membership : Option String → Role → List Membership → Bool
has_membership none role ms = false
has_membership (some client) role ms =
    any (λ m. same_text m.client_id client && same_role m.role (membership_role role)) ms

-- `hasActiveSessionAccess`; a client's id is never the empty text.
unfoldable pub has_active_session_access : SessionUser → Bool
has_active_session_access u =
    is_dev_admin u.role || (u.is_global_admin || has_membership u.client_id u.role u.memberships)

unfoldable pub refresh_token_lifetime : ℕ
refresh_token_lifetime = 2592000000

-- `findUnique` by the hash of the token.
unfoldable pub find_session : List AuthSession → String → Option AuthSession
find_session sessions hash = find (λ s. same_text s.refresh_token_hash hash) sessions

unfoldable pub find_by_id : List AuthSession → String → Option AuthSession
find_by_id sessions id = find (λ s. same_text s.id id) sessions

-- `updateMany({ where: { ..., revokedAt: null }, data: { revokedAt } })` and the number of rows.
unfoldable pub revoke_where : (AuthSession → Bool) → ℕ → List AuthSession → List AuthSession
revoke_where p now [] = []
revoke_where p now (s ∷ ss) =
    (if p s && not (is_some s.revoked_at) then record s { revoked_at = some now } else s)
    ∷ revoke_where p now ss

unfoldable pub revoked_count : (AuthSession → Bool) → List AuthSession → ℕ
revoked_count p ss = sum_by (λ s. if p s && not (is_some s.revoked_at) then 1 else 0) ss

-- What the server brings to a request: the instant, a new token's hash, and new ids.
pub record Fresh : Type 0 where
  pub now : ℕ
  pub token_hash : String
  pub session_id : String
  pub new_family_id : String

abbrev pub new_session : Fresh → String → String → Option String → AuthSession
new_session f user family rotated_from = record {
  id = f.session_id;
  user_id = user;
  refresh_token_hash = f.token_hash;
  family_id = family;
  rotated_from_id = rotated_from;
  expires_at = f.now + refresh_token_lifetime;
  revoked_at = none;
  last_used_at = none;
}

-- `createAuthSession`
unfoldable pub create_auth_session : Fresh → String → List AuthSession → List AuthSession
create_auth_session f user ss = ss ++ new_session f user f.new_family_id none ∷ []

abbrev in_family : String → AuthSession → Bool
in_family family s = same_text s.family_id family

abbrev has_id : String → AuthSession → Bool
has_id id s = same_text s.id id

-- `updateMany` on the rotated session also sets when it was last used.
unfoldable pub used_at : (AuthSession → Bool) → ℕ → List AuthSession → List AuthSession
used_at p now [] = []
used_at p now (s ∷ ss) =
    (if p s && not (is_some s.revoked_at)
      then record s { revoked_at = some now; last_used_at = some now }
      else s)
    ∷ used_at p now ss

module _ (user_of : String → SessionUser) where
  -- Expired, or of a user who may not hold a session.
  unfoldable pub is_refused : ℕ → AuthSession → Bool
  is_refused now s =
      leb s.expires_at now
      || (not (user_of s.user_id).is_active || not (has_active_session_access (user_of s.user_id)))

  -- The transaction that takes the session's place; `revoked.count !== 1` gives null.
  unfoldable pub rotate :
      Fresh → AuthSession → List AuthSession → List AuthSession × Option AuthSession
  rotate f current ss =
      let revoked = used_at (has_id current.id) f.now ss in
      let next = new_session f current.user_id current.family_id (some current.id) in
      if revoked_count (has_id current.id) ss == 1
      then (revoked ++ next ∷ [], some next)
      else (revoked, none)

  abbrev pub rotate_found :
      Option AuthSession → Fresh → List AuthSession → List AuthSession × Option AuthSession
  rotate_found none f ss = (ss, none)
  rotate_found (some current) f ss =
      if is_some current.revoked_at || is_refused f.now current
      then (revoke_where (in_family current.family_id) f.now ss, none)
      else rotate f current ss

  -- `rotateAuthSession`, of the hash of the presented token.
  unfoldable pub rotate_auth_session :
      Fresh → String → List AuthSession → List AuthSession × Option AuthSession
  rotate_auth_session f hash ss = rotate_found (find_session ss hash) f ss

  -- The batch on D1, which revokes the new session again if `revoked.count !== 1`.
  unfoldable pub rotate_on_d1 :
      Fresh → AuthSession → List AuthSession → List AuthSession × Option AuthSession
  rotate_on_d1 f current ss =
      let next = new_session f current.user_id current.family_id (some current.id) in
      let rows = used_at (has_id current.id) f.now ss ++ next ∷ [] in
      if revoked_count (has_id current.id) ss == 1
      then (rows, some next)
      else (revoke_where (has_id next.id) f.now rows, none)

  abbrev pub rotate_found_on_d1 :
      Option AuthSession → Fresh → List AuthSession → List AuthSession × Option AuthSession
  rotate_found_on_d1 none f ss = (ss, none)
  rotate_found_on_d1 (some current) f ss =
      if is_some current.revoked_at || is_refused f.now current
      then (revoke_where (in_family current.family_id) f.now ss, none)
      else rotate_on_d1 f current ss

  -- `rotateAuthSession` on D1.
  unfoldable pub rotate_auth_session_on_d1 :
      Fresh → String → List AuthSession → List AuthSession × Option AuthSession
  rotate_auth_session_on_d1 f hash ss = rotate_found_on_d1 (find_session ss hash) f ss

  abbrev pub revoke_found : Option AuthSession → ℕ → List AuthSession → List AuthSession
  revoke_found none now ss = ss
  revoke_found (some s) now ss = revoke_where (has_id s.id) now ss

  -- `revokeRefreshToken`
  unfoldable pub revoke_refresh_token : ℕ → String → List AuthSession → List AuthSession
  revoke_refresh_token now hash ss = revoke_found (find_session ss hash) now ss

-- `effectiveRole`
unfoldable pub effective_role : SessionUser → AppRole
effective_role u = if u.is_global_admin then app_global_admin else elim u.role [
  | employee ↦ app_employee
  | manager ↦ app_manager
  | admin ↦ app_admin
  | dev_admin ↦ app_dev_admin
]

abbrev same_app_role : AppRole → AppRole → Bool
same_app_role app_employee app_employee = true
same_app_role app_manager app_manager = true
same_app_role app_admin app_admin = true
same_app_role app_global_admin app_global_admin = true
same_app_role app_dev_admin app_dev_admin = true
same_app_role _ _ = false

-- The claims of an access token.
pub record AccessToken : Type 0 where
  pub sub : String
  pub sid : Option String
  pub password_version : ℕ
  pub role : AppRole

abbrev is_current : Option AuthSession → String → ℕ → Bool
is_current none sub now = false
is_current (some s) sub now =
    same_text s.user_id sub && (not (is_some s.revoked_at) && not (leb s.expires_at now))

abbrev user_accepted : Option SessionUser → AccessToken → Bool
user_accepted none t = false
user_accepted (some u) t =
    u.is_active
    && (u.password_version == t.password_version
        && (same_app_role (effective_role u) t.role && has_active_session_access u))

abbrev session_accepted : Option String → List AuthSession → String → ℕ → Bool
session_accepted none ss sub now = false
session_accepted (some sid) ss sub now = is_current (find_by_id ss sid) sub now

-- `requireCurrentSession`: whether the request goes on.
unfoldable pub require_current_session :
    Option SessionUser → List AuthSession → AccessToken → ℕ → Bool
require_current_session user ss t now = session_accepted t.sid ss t.sub now && user_accepted user t
