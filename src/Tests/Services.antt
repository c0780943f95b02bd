-- ===== src/Tests/Services.antt =====
-- A session that is rotated and used again, a leave request, a delivery of a webhook, and a secret.
use employee_attendance.Prelude.{
  suc, ◌≤◌, ◌≡◌, ◌⊎◌, refl, none, some, List, [], ◌∷◌, true, false, arith,
}
use employee_attendance.Prelude.Result.{ok, err}
use employee_attendance.Sessions.{
  employee, member_employee, SessionUser, AuthSession, Fresh, find_session, rotate_auth_session,
  new_session, rotate, is_refused, used_at, revoked_count, has_active_session_access,
  refresh_token_lifetime, membership_role,
}
use employee_attendance.Sessions.Families.{IsSingle, rotate_auth_session-IsSingle}
use employee_attendance.Sessions.{rotate_auth_session_on_d1}
use employee_attendance.Sessions.Replay.{run_requests, log_in, replay_ends_family}
use employee_attendance.Sessions.Databases.{rotate_auth_session_on_d1_agrees}
use employee_attendance.Leave.{
  LeaveInput, insufficient_scheduled_minutes, plan_leave_allocations, capacities,
}
use employee_attendance.Leave.Allocations.{
  plan_leave_allocations_lem, allocated, capacity, IsSpread,
}
use employee_attendance.Leave.{LeaveDayAllocation}
use employee_attendance.Webhook.{new_delivery, sent, http_error, process, give_up, run}
use employee_attendance.Webhook.Lifecycle.{run-new_delivery, IsSound, is_delivered}
use employee_attendance.Mfa.{base32_encode, base32_decode}
use employee_attendance.Mfa.Secrets.{base32_decode-base32_encode}

abbrev aminah : SessionUser
aminah = record {
  role = employee;
  is_global_admin = false;
  client_id = some "client";
  memberships = record { client_id = "client"; role = member_employee } ∷ [];
  is_active = true;
  password_version = 1;
}

abbrev used : AuthSession
used = record {
  id = "s1";
  user_id = "aminah";
  refresh_token_hash = "h1";
  family_id = "family";
  rotated_from_id = none;
  expires_at = 5_000;
  revoked_at = some 1_000;
  last_used_at = none;
}

abbrev current : AuthSession
current = record used {
  id = "s2";
  refresh_token_hash = "h2";
  rotated_from_id = some "s1";
  revoked_at = none;
}

abbrev fresh : Fresh
fresh = record { now = 2_000; token_hash = "h3"; session_id = "s3"; new_family_id = "other" }

only_current : IsSingle (used ∷ current ∷ [])
only_current family = ground arith

rotate_auth_session-IsSingle_example :
    IsSingle (rotate_auth_session (λ _. aminah) fresh "h2" (used ∷ current ∷ [])).0
rotate_auth_session-IsSingle_example =
    rotate_auth_session-IsSingle (λ _. aminah) fresh "h2" (used ∷ current ∷ []) only_current

abbrev later : Fresh
later = record fresh { now = 9; token_hash = "h9"; session_id = "s9" }

abbrev refreshed : AuthSession
refreshed = new_session fresh "aminah" "family" (some "s2")

refreshing_succeeds :
    (rotate_auth_session (λ _. aminah) fresh "h2" (used ∷ current ∷ [])).1 ≡ some refreshed
unfolding find_session rotate_auth_session rotate is_refused used_at revoked_count
    has_active_session_access refresh_token_lifetime membership_role
refreshing_succeeds = refl

replay_ends_family_example :
    (rotate_auth_session
      (λ _. aminah)
      later
      "h2"
      (run_requests
        (λ _. aminah)
        (log_in later "aminah" ∷ [])
        (rotate_auth_session (λ _. aminah) fresh "h2" (used ∷ current ∷ [])).0)).1
    ≡ none
replay_ends_family_example =
    (replay_ends_family (λ _. aminah) fresh "h2" (used ∷ current ∷ []) refreshed
      (log_in later "aminah" ∷ []) later refreshing_succeeds).0

rotate_auth_session_on_d1_agrees_example :
    rotate_auth_session_on_d1 (λ _. aminah) fresh "h2" (used ∷ current ∷ [])
    ≡ rotate_auth_session (λ _. aminah) fresh "h2" (used ∷ current ∷ [])
rotate_auth_session_on_d1_agrees_example =
    rotate_auth_session_on_d1_agrees (λ _. aminah) fresh "h2" (used ∷ current ∷ [])
      (refl, (refl, tt))

abbrev two_days : LeaveInput
two_days = record {
  start_date = record { year = 2026; month = 11; day = 2 };
  end_date = record { year = 2026; month = 11; day = 3 };
  requested_minutes = 600;
  assignments = [];
  legacy_schedule = none;
  holidays = [];
  default_day_minutes = 480;
  default_break_minutes = 60;
}

plan_leave_allocations_lem_example :
    ((xs : List LeaveDayAllocation) × (plan_leave_allocations two_days ≡ ok xs)
      × (allocated xs ≡ 600)
      × IsSpread (capacities two_days) xs
      × (600 ≤ capacity (capacities two_days)))
    ⊎ ((plan_leave_allocations two_days ≡ err insufficient_scheduled_minutes)
        × (suc (capacity (capacities two_days)) ≤ 600))
plan_leave_allocations_lem_example = plan_leave_allocations_lem two_days

run-new_delivery_example :
    (run
      (process 8 (http_error 500 []) ∷ process 10 (sent 200) ∷ give_up ∷ [])
      new_delivery).attempts
    ≡ 2
run-new_delivery_example =
    (run-new_delivery (process 8 (http_error 500 []) ∷ process 10 (sent 200) ∷ give_up ∷ [])).1

new_delivery-IsSound : IsSound new_delivery
unfolding is_delivered
new_delivery-IsSound = ground arith

base32_decode-base32_encode_example :
    base32_decode (λ cs. cs) (base32_encode (72 ∷ 255 ∷ 0 ∷ [])) ≡ some (72 ∷ 255 ∷ 0 ∷ [])
base32_decode-base32_encode_example =
    base32_decode-base32_encode (λ cs. cs) (72 ∷ 255 ∷ 0 ∷ []) (λ cs h. refl)
      (omega arith, (omega arith, (omega arith, tt)))
