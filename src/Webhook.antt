-- ===== src/Webhook.antt =====
-- apps/api/src/services/webhook-queue.ts: the processing of a webhook delivery that the queue hands
-- over, one message at a time. Sending it over HTTP is not modelled: how it ended is an argument.
pub mod Lifecycle
use employee_attendance.Prelude.{
  ℕ, zero, suc, ◌+◌, Bool, true, false, Option, none, some, List, [], ◌∷◌,
}

pub data WebhookDeliveryStatus : Type 0 where
  pending retrying delivered dead_letter : WebhookDeliveryStatus

-- A text as the list of its code units.
abbrev pub Message : Type 0
Message = List ℕ

pub record Delivery : Type 0 where
  pub status : WebhookDeliveryStatus
  pub attempts : ℕ
  pub last_attempt_at : Option ℕ
  pub last_error : Option Message
  pub delivered_at : Option ℕ
  pub response_status : Option ℕ

-- How `sendAttendanceWebhook` ended: with a status, by `WebhookHttpError`, or by another error.
pub data SendOutcome : Type 0 where
  sent : ℕ → SendOutcome
  http_error : ℕ → Message → SendOutcome
  other_error : Message → SendOutcome

-- A delivery when it is created.
abbrev pub new_delivery : Delivery
new_delivery = record {
  status = pending;
  attempts = 0;
  last_attempt_at = none;
  last_error = none;
  delivered_at = none;
  response_status = none;
}

-- `message.slice(0, n)`
unfoldable pub slice : ℕ → Message → Message
slice zero m = []
slice (suc n) [] = []
slice (suc n) (c ∷ m) = c ∷ slice n m

abbrev pub started : ℕ → Delivery → Delivery
started now d = record d {
  status = retrying;
  attempts = d.attempts + 1;
  last_attempt_at = some now;
  last_error = none;
}

unfoldable pub settled : ℕ → SendOutcome → Delivery → Delivery
settled now (sent code) d = record d {
  status = delivered;
  delivered_at = some now;
  response_status = some code;
  last_error = none;
}
settled now (http_error code m) d = record d {
  status = retrying;
  response_status = some code;
  last_error = some (slice 1000 m);
}
settled now (other_error m) d = record d {
  status = retrying;
  response_status = none;
  last_error = some (slice 1000 m);
}

unfoldable pub is_settled : WebhookDeliveryStatus → Bool
is_settled delivered = true
is_settled dead_letter = true
is_settled _ = false

abbrev pub process_if : Bool → ℕ → SendOutcome → Delivery → Delivery
process_if true now outcome d = d
process_if false now outcome d = settled now outcome (started now d)

-- `processWebhookDelivery`, of a delivery that exists.
unfoldable pub process_webhook_delivery : ℕ → SendOutcome → Delivery → Delivery
process_webhook_delivery now outcome d = process_if (is_settled d.status) now outcome d

abbrev pub dead_lettered : WebhookDeliveryStatus → Delivery → Delivery
dead_lettered delivered d = d
dead_lettered _ d = record d { status = dead_letter }

-- `markWebhookDeadLetter`
unfoldable pub mark_webhook_dead_letter : Delivery → Delivery
mark_webhook_dead_letter d = dead_lettered d.status d

-- What the queue calls for a message, and for one that it has given up.
pub data QueueEvent : Type 0 where
  process : ℕ → SendOutcome → QueueEvent
  give_up : QueueEvent

unfoldable pub on_event : QueueEvent → Delivery → Delivery
on_event (process now outcome) d = process_webhook_delivery now outcome d
on_event give_up d = mark_webhook_dead_letter d

unfoldable pub run : List QueueEvent → Delivery → Delivery
run [] d = d
run (e ∷ es) d = run es (on_event e d)
