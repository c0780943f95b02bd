-- ===== src/Webhook/Lifecycle.antt =====
-- webhook-queue.ts: a delivery that has ended is left alone, and what holds of a delivery at any time.
use employee_attendance.Prelude.{
  ℕ, zero, suc, ◌+◌, ◌≤◌, ◌≡◌, refl, sym, ap, ◌∙◌, Bool, true, false, Option, none, some, List, [],
  ◌∷◌, length, is_some, arith,
}
use mathlib.Core.Path.{subst}
use employee_attendance.Webhook.{
  SendOutcome, started, process_if, new_delivery, WebhookDeliveryStatus, pending, retrying,
  delivered, dead_letter, Message, Delivery, sent, http_error, other_error, slice, settled,
  dead_lettered, is_settled, process_webhook_delivery, mark_webhook_dead_letter, QueueEvent,
  process, give_up, on_event, run,
}

dead_lettered_settled :
    (s : WebhookDeliveryStatus) (d : Delivery)
    → d.status ≡ s
    → is_settled s ≡ true
    → dead_lettered s d ≡ d
unfolding is_settled
dead_lettered_settled delivered d e h = refl
dead_lettered_settled dead_letter d e h = ap (λ x. record d { status = x }) (sym e)
dead_lettered_settled pending d e h = ground arith
dead_lettered_settled retrying d e h = ground arith

on_event_settled : (e : QueueEvent) (d : Delivery) → is_settled d.status ≡ true → on_event e d ≡ d
unfolding on_event process_webhook_delivery mark_webhook_dead_letter is_settled
on_event_settled (process now outcome) d h = ground arith
on_event_settled give_up d h = dead_lettered_settled d.status d refl h

-- A delivery that has been delivered or given up is never attempted or changed again, whatever the
-- queue calls for it.
pub settled_is_final :
    (es : List QueueEvent) (d : Delivery) → is_settled d.status ≡ true → run es d ≡ d
unfolding run
settled_is_final [] d h = refl
settled_is_final (e ∷ es) d h = ap (run es) (on_event_settled e d h) ∙ settled_is_final es d h

-- What becomes of a delivery by the events alone: a message that is sent or given up ends it, and the
-- events after that do not count.
abbrev pub status_after : WebhookDeliveryStatus → List QueueEvent → WebhookDeliveryStatus
status_after s [] = s
status_after s (process now (sent code) ∷ es) = delivered
status_after s (process now (http_error code m) ∷ es) = status_after retrying es
status_after s (process now (other_error m) ∷ es) = status_after retrying es
status_after s (give_up ∷ es) = dead_letter

abbrev pub attempts_in : List QueueEvent → ℕ
attempts_in [] = 0
attempts_in (process now (sent code) ∷ es) = 1
attempts_in (process now (http_error code m) ∷ es) = suc (attempts_in es)
attempts_in (process now (other_error m) ∷ es) = suc (attempts_in es)
attempts_in (give_up ∷ es) = 0

abbrev pub delivery_in : List QueueEvent → Option ℕ
delivery_in [] = none
delivery_in (process now (sent code) ∷ es) = some now
delivery_in (process now (http_error code m) ∷ es) = delivery_in es
delivery_in (process now (other_error m) ∷ es) = delivery_in es
delivery_in (give_up ∷ es) = none

-- A delivery that has not ended.
abbrev IsRunning : Delivery → Type 0
IsRunning d = (is_settled d.status ≡ false) × (d.delivered_at ≡ none)

abbrev IsAfter : List QueueEvent → Delivery → Delivery → Type 0
IsAfter es d d' =
    (d'.status ≡ status_after d.status es)
    × (d'.attempts ≡ d.attempts + attempts_in es)
    × (d'.delivered_at ≡ delivery_in es)

on_running :
    (now : ℕ) (outcome : SendOutcome) (d : Delivery)
    → is_settled d.status ≡ false
    → on_event (process now outcome) d ≡ settled now outcome (started now d)
unfolding on_event process_webhook_delivery
on_running now outcome d running = ap (λ b. process_if b now outcome d) running

given_up :
    (s : WebhookDeliveryStatus) (d : Delivery)
    → is_settled s ≡ false
    → dead_lettered s d ≡ record d { status = dead_letter }
unfolding is_settled
given_up s d running = ground arith

run-IsAfter : (es : List QueueEvent) (d : Delivery) → IsRunning d → IsAfter es d (run es d)
unfolding run is_settled settled on_event mark_webhook_dead_letter
run-IsAfter [] d (running, none_yet) = (refl, omega arith, none_yet)
run-IsAfter (process now (sent code) ∷ es) d (running, none_yet) =
    let at = on_running now (sent code) d running in
    let stays = settled_is_final es (settled now (sent code) (started now d)) refl in
    subst (IsAfter (process now (sent code) ∷ es) d) (sym (ap (run es) at ∙ stays))
      (refl, omega arith, refl)
run-IsAfter (process now (http_error code m) ∷ es) d (running, none_yet) =
    let (s, a, t) =
      run-IsAfter es (settled now (http_error code m) (started now d)) (refl, none_yet) in
    subst (IsAfter (process now (http_error code m) ∷ es) d)
      (sym (ap (run es) (on_running now (http_error code m) d running))) (s, omega arith, t)
run-IsAfter (process now (other_error m) ∷ es) d (running, none_yet) =
    let (s, a, t) = run-IsAfter es (settled now (other_error m) (started now d)) (refl, none_yet) in
    subst (IsAfter (process now (other_error m) ∷ es) d)
      (sym (ap (run es) (on_running now (other_error m) d running))) (s, omega arith, t)
run-IsAfter (give_up ∷ es) d (running, none_yet) =
    let at : on_event give_up d ≡ record d { status = dead_letter } = given_up d.status d running in
    let stays = settled_is_final es (record d { status = dead_letter }) refl in
    subst (IsAfter (give_up ∷ es) d) (sym (ap (run es) at ∙ stays)) (refl, omega arith, none_yet)

-- Whatever the queue calls for a new delivery, it is attempted once for each message up to the first that is
-- sent, or until it is given up, and never after; it is delivered, at the instant of that message, exactly
-- if one is sent before it is given up, is a dead letter if it is given up first, and is left to be retried
-- or, before any message, pending otherwise.
pub run-new_delivery :
    (es : List QueueEvent)
    → ((run es new_delivery).status ≡ status_after pending es)
      × ((run es new_delivery).attempts ≡ attempts_in es)
      × ((run es new_delivery).delivered_at ≡ delivery_in es)
unfolding is_settled
run-new_delivery es =
    let (s, a, t) = run-IsAfter es new_delivery (refl, refl) in (s, omega arith, t)

abbrev pub error_length : Option Message → ℕ
error_length none = 0
error_length (some m) = length m

unfoldable pub is_delivered : WebhookDeliveryStatus → Bool
is_delivered delivered = true
is_delivered _ = false

-- Delivered exactly if there is an instant of delivery, then with no error; a delivery that is
-- pending has not been attempted; an error is at most 1000 code units long.
abbrev pub IsSound : Delivery → Type 0
IsSound d =
    (is_delivered d.status ≡ is_some d.delivered_at)
    × (d.status ≡ delivered → (d.last_error ≡ none) × (is_some d.response_status ≡ true))
    × (d.status ≡ pending → d.attempts ≡ 0)
    × (error_length d.last_error ≤ 1000)

length-slice : (n : ℕ) (m : Message) → length (slice n m) ≤ n
unfolding slice
length-slice zero m = omega arith
length-slice (suc n) [] = omega arith
length-slice (suc n) (c ∷ m) = omega (arith, length-slice n m)

on_event-IsSound : (e : QueueEvent) (d : Delivery) → IsSound d → IsSound (on_event e d)
unfolding on_event process_webhook_delivery mark_webhook_dead_letter is_settled settled is_delivered
on_event-IsSound (process now (sent code)) d h = ground arith
on_event-IsSound (process now (http_error code m)) d h = ground (arith, length-slice 1000 m)
on_event-IsSound (process now (other_error m)) d h = ground (arith, length-slice 1000 m)
on_event-IsSound give_up d h = ground arith

-- Whatever the queue calls for a delivery that is sound, it stays sound: it is delivered exactly if
-- there is an instant of delivery, and then has a response status and no error; if it is pending, it
-- has not been attempted; and a stored error is at most 1000 code units long.
pub run-IsSound : (es : List QueueEvent) (d : Delivery) → IsSound d → IsSound (run es d)
unfolding run
run-IsSound [] d h = h
run-IsSound (e ∷ es) d h = run-IsSound es (on_event e d) (on_event-IsSound e d h)
