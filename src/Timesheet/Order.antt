-- ===== src/Timesheet/Order.antt =====
-- The sort of the events: in order of the instants, and the same events.
use mathlib.Core.List.{Perm}
use mathlib.Core.List.Perm
use employee_attendance.Prelude.{
  ℕ, ◌≤◌, ◌≡◌, refl, List, [], ◌∷◌, arith, All, Bool-cases, inl, inr, leb,
}
use employee_attendance.Timesheet.{TimesheetEvent, insert_event, sort_events}

-- No event is earlier than the one before it, and the first not earlier than `from`.
abbrev pub IsOrderedFrom : ℕ → List TimesheetEvent → Type 0
IsOrderedFrom from [] = Unit
IsOrderedFrom from (e ∷ es) = (from ≤ e.occurred_at) × IsOrderedFrom e.occurred_at es

insert_event-IsOrderedFrom :
    (from : ℕ) (e : TimesheetEvent) (es : List TimesheetEvent)
    → from ≤ e.occurred_at
    → IsOrderedFrom from es
    → IsOrderedFrom from (insert_event e es)
unfolding insert_event
insert_event-IsOrderedFrom from e [] p q = (p, tt)
insert_event-IsOrderedFrom from e (f ∷ fs) p (q, qs) =
    ground (arith, insert_event-IsOrderedFrom f.occurred_at e fs)

pub sort_events-IsOrderedFrom :
    (from : ℕ) (es : List TimesheetEvent)
    → All (λ e. from ≤ e.occurred_at) es
    → IsOrderedFrom from (sort_events es)
unfolding sort_events
sort_events-IsOrderedFrom from [] h = tt
sort_events-IsOrderedFrom from (e ∷ es) (h, hs) =
    insert_event-IsOrderedFrom from e (sort_events es) h (sort_events-IsOrderedFrom from es hs)

insert_event-All {ℓ} :
    (P : TimesheetEvent → Type ℓ) (e : TimesheetEvent) (es : List TimesheetEvent)
    → P e
    → All P es
    → All P (insert_event e es)
unfolding insert_event
insert_event-All P e [] p q = (p, tt)
insert_event-All P e (f ∷ fs) p (q, qs) = ground (arith, insert_event-All P e fs p qs)

pub sort_events-All {ℓ} :
    (P : TimesheetEvent → Type ℓ) (es : List TimesheetEvent) → All P es → All P (sort_events es)
unfolding sort_events
sort_events-All P [] h = tt
sort_events-All P (e ∷ es) (h, hs) =
    insert_event-All P e (sort_events es) h (sort_events-All P es hs)

insert_event-perm :
    (e : TimesheetEvent) (es : List TimesheetEvent) → Perm (insert_event e es) (e ∷ es)
unfolding insert_event
insert_event-perm e [] = Perm.refl _
insert_event-perm e (f ∷ fs) = elim (Bool-cases (leb e.occurred_at f.occurred_at)) [
  | inl first ↦ rw first (Perm.refl _)
  | inr later ↦ rw later (Perm.trans (Perm.cons f (insert_event-perm e fs)) (Perm.swap e f fs))
]

pub sort_events-perm : (es : List TimesheetEvent) → Perm (sort_events es) es
unfolding sort_events
sort_events-perm [] = Perm.refl _
sort_events-perm (e ∷ es) =
    Perm.trans (insert_event-perm e (sort_events es)) (Perm.cons e (sort_events-perm es))

-- Events that are in order already stay as they are.
insert_event_first :
    (e : TimesheetEvent) (es : List TimesheetEvent)
    → IsOrderedFrom e.occurred_at es
    → insert_event e es ≡ e ∷ es
unfolding insert_event
insert_event_first e [] h = refl
insert_event_first e (f ∷ fs) h = ground arith

pub sort_events_of_IsOrderedFrom :
    (from : ℕ) (es : List TimesheetEvent) → IsOrderedFrom from es → sort_events es ≡ es
unfolding sort_events
sort_events_of_IsOrderedFrom from [] h = refl
sort_events_of_IsOrderedFrom from (e ∷ es) (p, h) =
    rw (sort_events_of_IsOrderedFrom e.occurred_at es h) (insert_event_first e es h)
