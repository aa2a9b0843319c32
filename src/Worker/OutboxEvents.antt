-- ===== src/Worker/OutboxEvents.antt =====
-- app/worker/outbox_events.py: `NotificationOutboxEvents`.
pub mod Payloads
use notification_test.Base.{
  ℕ, ◌+◌, String, Bool, false, not, Option, none, some, ◌==◌, str_eq, if◌then◌else◌,
}
use mathlib.Core.Option
use notification_test.Exec.{Exec, ◌>>=◌}
use notification_test.Models.{Notification, OutboxEvent, Json, null, text, number, Payload}
use notification_test.Platform.{Env}
use notification_test.World.{World, utcnow, draw_uuid}
use notification_test.Services.OutboxService.{
  dict_get, dict_set, set_some, routing_key_for_notification_type, notification_payload,
  add_outbox_event,
}

-- `if value:`
abbrev pub truthy : Json → Bool
truthy null = false
truthy (text s) = not (str_eq s "")
truthy (number n) = not (n == 0)

-- The copy of the source's payload with the fields of the next attempt.
unfoldable pub retry_payload :
    Notification
    → Payload
    → (delay_seconds : ℕ) (error_message deferred_reason : Option String) → Payload
unfolding set_some dict_set
retry_payload n source_payload delay_seconds error_message deferred_reason =
    set_some "deferred_reason" (Option.map text deferred_reason) (
      set_some "error_message" (Option.map text error_message) (
        dict_set "retry_delay_seconds" (number delay_seconds) (
          dict_set "routing_key" (text (routing_key_for_notification_type n.type))
            (dict_set "attempt" (number (n.attempts + 1)) source_payload))))

module _ (E : Env) where
  -- `str(value)`
  abbrev pub str : Json → String
  str null = "None"
  str (text s) = s
  str (number n) = E.int_str n

  -- The key of the payload if it has one that is true, or else the key of the type.
  abbrev pub key_or : Option Json → String → String
  key_or none default = default
  key_or (some v) default = if truthy v then str v else default

  -- `_routing_key`
  unfoldable pub routing_key : Notification → Option Payload → String
  unfolding dict_get routing_key_for_notification_type
  routing_key n none = routing_key_for_notification_type n.type
  routing_key n (some payload) =
      key_or (dict_get "routing_key" payload) (routing_key_for_notification_type n.type)

module _ {E : Env} where
  unfoldable pub add_failed :
      Notification → Option Payload → Option String → Exec (World E) OutboxEvent
  unfolding add_outbox_event
  add_failed n source_payload error_message = do
    event_id ← draw_uuid
    created_at ← utcnow
    add_outbox_event n.id "notification.failed"
        (notification_payload E event_id n.id n.batch_id n.subscriber_id n.channel n.type n.attempts
          created_at (routing_key E n source_payload) none (Option.map text error_message))
        none

  unfoldable pub add_retry :
      Notification
      → Payload
      → (delay_seconds : ℕ) (available_at : Option ℕ)
        (error_message deferred_reason : Option String)
      → Exec (World E) OutboxEvent
  unfolding add_outbox_event
  add_retry n source_payload delay_seconds available_at error_message deferred_reason =
      add_outbox_event n.id "notification.retry_scheduled"
        (retry_payload n source_payload delay_seconds error_message deferred_reason) available_at
