-- ===== src/Attendance/History.antt =====
-- What the transactions of attendance-v2.controller.ts keep: the order of the events, the locked
-- timesheets, and that a key is used once.
use employee_attendance.Prelude.{
  ℕ, ◌≤◌, ◌≡◌, ◌⊎◌, refl, sym, ap, ◌∙◌, String, Bool, true, false, not, Option, none, some, List,
  [], ◌∷◌, ◌++◌, arith, All, Option-cases, Bool-cases, inl, inr, same_text, eq_iff,
}
use mathlib.Core.Path.{subst}
use employee_attendance.Prelude.Result.{ok, throw_if-eq-ok, ok-injective}
use employee_attendance.Calendar.{Day, day_eq}
use employee_attendance.Schedule.{LocalParts}
use employee_attendance.Attendance.{transition_allowed}
use employee_attendance.Attendance.Store.{
  AttendanceEvent, TimesheetRow, Store, find_duplicate, event_le, latest_event, find_timesheet,
  upsert_timesheet,
}
use employee_attendance.Attendance.Action.{
  WorkPolicy, Action, ActionResult, calculated_row, timesheet_locked, invalid_attendance_transition,
  is_locked, kind_of, work_date_of, new_event, write_action, replay, new_action, act_on,
  perform_action,
}

module _ {G : Type 0} where
  -- Each event comes no earlier than the one before it and is allowed after it.
  abbrev follows : Option (AttendanceEvent G) → AttendanceEvent G → Bool
  follows none e = true
  follows (some f) e = event_le f e

  abbrev pub IsChain : Option (AttendanceEvent G) → List (AttendanceEvent G) → Type 0
  IsChain last [] = Unit
  IsChain last (e ∷ es) =
      (transition_allowed (kind_of last) e.kind ≡ true)
      × (follows last e ≡ true)
      × IsChain (some e) es

  abbrev pub last_of :
      Option (AttendanceEvent G) → List (AttendanceEvent G) → Option (AttendanceEvent G)
  last_of last [] = last
  last_of last (e ∷ es) = last_of (some e) es

  event_le_trans :
      (d e f : AttendanceEvent G) → event_le d e ≡ true → event_le e f ≡ true → event_le d f ≡ true
  unfolding event_le
  event_le_trans d e f p q = ground arith

  -- The latest event of a chain is its last.
  latest_event_chain :
      (e : AttendanceEvent G) (es : List (AttendanceEvent G))
      → IsChain (some e) es
      → (f : AttendanceEvent G) × (latest_event (e ∷ es) ≡ some f)
        × (last_of (some e) es ≡ some f)
        × (event_le e f ≡ true)
  unfolding latest_event event_le
  latest_event_chain e [] c = (e, refl, refl, ground arith)
  latest_event_chain e (d ∷ es) (_, le, c) =
      let (f, latest, last, before) = latest_event_chain d es c in
      let first = event_le_trans e d f le before in (f, ground arith, last, first)

  latest-last_of :
      (es : List (AttendanceEvent G)) → IsChain none es → latest_event es ≡ last_of none es
  unfolding latest_event
  latest-last_of [] c = refl
  latest-last_of (e ∷ es) (_, _, c) =
      let (f, latest, last, _) = latest_event_chain e es c in latest ∙ sym last

  IsChain-append :
      (last : Option (AttendanceEvent G)) (es : List (AttendanceEvent G)) (e : AttendanceEvent G)
      → IsChain last es
      → transition_allowed (kind_of (last_of last es)) e.kind ≡ true
      → follows (last_of last es) e ≡ true
      → IsChain last (es ++ e ∷ [])
  IsChain-append last [] e c t f = (t, f, tt)
  IsChain-append last (d ∷ es) e (a, b, c) t f = (a, b, IsChain-append (some d) es e c t f)

  -- No stored event is later than an instant.
  abbrev pub ArePast : ℕ → List (AttendanceEvent G) → Type 0
  ArePast now es = All (λ e. (e.occurred_at ≤ now) × (e.created_at ≤ now)) es

  follows_past :
      (last : Option (AttendanceEvent G)) (es : List (AttendanceEvent G)) (a : Action G)
      (date : Day)
      → ArePast a.now es
      → follows last (new_event a date) ≡ true
      → follows (last_of last es) (new_event a date) ≡ true
  unfolding event_le
  follows_past last [] a date p h = h
  follows_past last (e ∷ es) a date (p, ps) h = follows_past (some e) es a date ps (ground arith)

find_timesheet-upsert :
    (rows : List TimesheetRow) (date d : Day) (change : TimesheetRow → TimesheetRow)
    (new : TimesheetRow)
    → ((t : TimesheetRow) → (change t).work_date ≡ date)
    → new.work_date ≡ date
    → is_locked (find_timesheet rows d) ≡ true
    → is_locked (find_timesheet rows date) ≡ false
    → find_timesheet (upsert_timesheet rows date change new) d ≡ find_timesheet rows d
unfolding find_timesheet upsert_timesheet day_eq
find_timesheet-upsert [] date d change new c n l u = cc
find_timesheet-upsert (t ∷ rows) date d change new c n l u =
    let ih = find_timesheet-upsert rows date d change new c n in let dated = c t in ground arith

module _ {G : Type 0} where
  find_duplicate_key :
      (es : List (AttendanceEvent G)) (k : String) (e : AttendanceEvent G)
      → find_duplicate es k ≡ some e
      → e.idempotency_key ≡ k
  unfolding find_duplicate
  find_duplicate_key [] k e h = ground arith
  find_duplicate_key (d ∷ es) k e h =
      let ih = find_duplicate_key es k e in
      elim (Bool-cases (same_text d.idempotency_key k)) [
        | inl same ↦ let equal = (eq_iff d.idempotency_key k).0 same in ground arith
        | inr other ↦ ground arith
      ]

  find_duplicate-append :
      (es : List (AttendanceEvent G)) (e : AttendanceEvent G)
      → find_duplicate es e.idempotency_key ≡ none
      → find_duplicate (es ++ e ∷ []) e.idempotency_key ≡ some e
  unfolding find_duplicate
  find_duplicate-append [] e h =
      let same : same_text e.idempotency_key e.idempotency_key ≡ true = (eq_iff _ _).1 refl in
      ground arith
  find_duplicate-append (d ∷ es) e h = let ih = find_duplicate-append es e in ground arith

module _ {G : Type 0} (local_parts : LocalParts) (webhooks : Bool) where
  -- The two ways in which a request succeeds.
  abbrev IsReplay : Store G → Action G → Store G → ActionResult G → Type 0
  IsReplay s a s' r =
      (e : AttendanceEvent G) × (find_duplicate s.events a.idempotency_key ≡ some e)
      × (s' ≡ s)
      × (r ≡ replay local_parts webhooks s e)

  abbrev IsNew : Store G → Option WorkPolicy → Action G → Store G → ActionResult G → Type 0
  IsNew s policy a s' r =
      let latest = latest_event s.events in
      let date = work_date_of a.requested a.today latest in
      (find_duplicate s.events a.idempotency_key ≡ none)
      × (transition_allowed (kind_of latest) a.requested ≡ true)
      × (is_locked (find_timesheet s.timesheets date) ≡ false)
      × (write_action local_parts webhooks s policy a date ≡ (s', r))

  new_action_parts :
      (s s' : Store G) (policy : Option WorkPolicy) (a : Action G) (r : ActionResult G)
      → new_action local_parts webhooks s policy a ≡ ok (s', r)
      → let latest = latest_event s.events in
        let date = work_date_of a.requested a.today latest in
        (transition_allowed (kind_of latest) a.requested ≡ true)
        × (is_locked (find_timesheet s.timesheets date) ≡ false)
        × (write_action local_parts webhooks s policy a date ≡ (s', r))
  unfolding new_action
  new_action_parts s s' policy a r h =
      let latest = latest_event s.events in
      let date = work_date_of a.requested a.today latest in
      let refused = not (transition_allowed (kind_of latest) a.requested) in
      let (allowed, rest) =
        throw_if-eq-ok refused (invalid_attendance_transition a.requested) _ h in
      let (unlocked, done) =
        throw_if-eq-ok (is_locked (find_timesheet s.timesheets date)) timesheet_locked _ rest in
      (ground arith, unlocked, ok-injective _ _ done)

  success_cases :
      (s s' : Store G) (policy : Option WorkPolicy) (a : Action G) (r : ActionResult G)
      → perform_action local_parts webhooks s policy a ≡ ok (s', r)
      → IsReplay s a s' r ⊎ IsNew s policy a s' r
  unfolding perform_action
  success_cases s s' policy a r h =
      elim (Option-cases (find_duplicate s.events a.idempotency_key)) [
        | inl unused ↦
            let (allowed, unlocked, written) =
              new_action_parts s s' policy a r
                (subst (λ o. act_on local_parts webhooks o s policy a ≡ ok (s', r)) unused h) in
            inr (unused, allowed, unlocked, written)
        | inr (e, found) ↦
            let same =
              ok-injective _ _
                (subst (λ o. act_on local_parts webhooks o s policy a ≡ ok (s', r)) found h) in
            inl (e, found, sym (ap (λ p. p.0) same), sym (ap (λ p. p.1) same))
      ]

  -- If each stored event was allowed after the one before it and came no earlier, and no stored event
  -- is later than the action, then after an action that succeeds each event still is allowed after
  -- the one before it and comes no earlier.
  pub perform_action-IsChain :
      (s s' : Store G) (policy : Option WorkPolicy) (a : Action G) (r : ActionResult G)
      → IsChain none s.events
      → ArePast a.now s.events
      → perform_action local_parts webhooks s policy a ≡ ok (s', r)
      → IsChain none s'.events
  unfolding write_action
  perform_action-IsChain s s' policy a r c p h = elim (success_cases s s' policy a r h) [
    | inl (e, found, same, _) ↦ subst (λ x. IsChain none x.events) (sym same) c
    | inr (_, allowed, _, written) ↦
        let date = work_date_of a.requested a.today (latest_event s.events) in
        let event = new_event a date in
        let allowed' =
          subst (λ l. transition_allowed (kind_of l) a.requested ≡ true) (latest-last_of s.events c)
            allowed in
        subst (λ x. IsChain none x.events) (ap (λ x. x.0) written)
          (IsChain-append none s.events event c allowed' (follows_past none s.events a date p refl))
  ]

  write_action_locked :
      (s : Store G) (policy : Option WorkPolicy) (a : Action G) (date d : Day)
      → is_locked (find_timesheet s.timesheets d) ≡ true
      → is_locked (find_timesheet s.timesheets date) ≡ false
      → find_timesheet (write_action local_parts webhooks s policy a date).0.timesheets d
        ≡ find_timesheet s.timesheets d
  unfolding write_action calculated_row
  write_action_locked s policy a date d l u =
      find_timesheet-upsert s.timesheets date d _ _ (λ t. refl) refl l u

  write_action_found :
      (s : Store G) (policy : Option WorkPolicy) (a : Action G) (date : Day)
      → find_duplicate s.events a.idempotency_key ≡ none
      → find_duplicate
          (write_action local_parts webhooks s policy a date).0.events
          a.idempotency_key
        ≡ some (new_event a date)
  unfolding write_action
  write_action_found s policy a date h = find_duplicate-append s.events (new_event a date) h

  -- An action that succeeds leaves the timesheet of every date on which it is locked as it was.
  pub perform_action_locked :
      (s s' : Store G) (policy : Option WorkPolicy) (a : Action G) (r : ActionResult G) (d : Day)
      → perform_action local_parts webhooks s policy a ≡ ok (s', r)
      → is_locked (find_timesheet s.timesheets d) ≡ true
      → find_timesheet s'.timesheets d ≡ find_timesheet s.timesheets d
  perform_action_locked s s' policy a r d h l = elim (success_cases s s' policy a r h) [
    | inl (e, found, same, _) ↦ ap (λ x. find_timesheet x.timesheets d) same
    | inr (_, _, unlocked, written) ↦
        let date = work_date_of a.requested a.today (latest_event s.events) in
        ap (λ x. find_timesheet x.0.timesheets d) (sym written)
        ∙ write_action_locked s policy a date d l unlocked
  ]

  found_after :
      (s s' : Store G) (policy : Option WorkPolicy) (a : Action G) (r : ActionResult G)
      → perform_action local_parts webhooks s policy a ≡ ok (s', r)
      → (e : AttendanceEvent G) × (find_duplicate s'.events a.idempotency_key ≡ some e)
  found_after s s' policy a r h = elim (success_cases s s' policy a r h) [
    | inl (e, found, same, _) ↦
        (e, ap (λ x. find_duplicate x.events a.idempotency_key) same ∙ found)
    | inr (unused, _, _, written) ↦
        let date = work_date_of a.requested a.today (latest_event s.events) in
        (
          new_event a date,
          ap (λ x. find_duplicate x.0.events a.idempotency_key) (sym written)
              ∙ write_action_found s policy a date unused,
        )
  ]

  -- An action that has succeeded is not made again: a later action with its key, whatever else it
  -- asks for, is answered with an event of that key and changes nothing.
  pub perform_action_once :
      (s s' : Store G) (policy later_policy : Option WorkPolicy) (a b : Action G)
      (r : ActionResult G)
      → b.idempotency_key ≡ a.idempotency_key
      → perform_action local_parts webhooks s policy a ≡ ok (s', r)
      → (e : AttendanceEvent G) × (e.idempotency_key ≡ a.idempotency_key)
        × (perform_action local_parts webhooks s' later_policy b
            ≡ ok (s', replay local_parts webhooks s' e))
  unfolding perform_action
  perform_action_once s s' policy later_policy a b r k h =
      let (e, found) = found_after s s' policy a r h in
      (
        e,
        find_duplicate_key s'.events a.idempotency_key e found,
        ap (λ o. act_on local_parts webhooks o s' later_policy b)
            (ap (find_duplicate s'.events) k ∙ found),
      )
