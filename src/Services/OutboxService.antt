-- ===== src/Services/OutboxService.antt =====
-- app/services/outbox_service.py, the dict of a payload, and the routing key of
-- app/services/notification_service.py.
use notification_test.Base.{ℕ, String, Option, none, some, [], ◌∷◌, str_eq, if◌then◌else◌}
use notification_test.Exec.{Exec, ◌>>=◌, ◌>>◌, pure, modify}
use notification_test.Models.{OutboxEvent, pending, Json, text, number, Payload}
use notification_test.Platform.{Env}
use notification_test.World.{World, utcnow, draw_uuid, put_event}

-- `d.get(k)`
unfoldable pub dict_get : String → Payload → Option Json
dict_get k [] = none
dict_get k ((j, v) ∷ d) = if str_eq k j then some v else dict_get k d

-- `d[k] = v`: a known key keeps its place.
unfoldable pub dict_set : String → Json → Payload → Payload
dict_set k v [] = (k, v) ∷ []
dict_set k v ((j, u) ∷ d) = if str_eq k j then (j, v) ∷ d else (j, u) ∷ dict_set k v d

-- `if value is not None: d[k] = value`
unfoldable pub set_some : String → Option Json → Payload → Payload
unfolding dict_set
set_some k none d = d
set_some k (some v) d = dict_set k v d

unfoldable pub routing_key_for_notification_type : String → String
routing_key_for_notification_type notification_type =
    if str_eq notification_type "transactional" then "notification.high" else "notification.low"

module _ (E : Env) where
  unfoldable pub notification_payload :
      (event_id notification_id batch_id subscriber_id : ℕ) (channel notification_type : String)
      (attempt created_at : ℕ) (routing_key : String)
      (retry_delay_seconds error_message : Option Json)
      → Payload
  unfolding set_some
  notification_payload event_id notification_id batch_id subscriber_id channel notification_type
        attempt created_at routing_key retry_delay_seconds error_message =
      set_some "error_message" error_message (
        set_some "retry_delay_seconds" retry_delay_seconds (
          ("event_id", text (E.uuid_str event_id))
          ∷ ("notification_id", text (E.uuid_str notification_id))
          ∷ ("batch_id", text (E.uuid_str batch_id))
          ∷ ("subscriber_id", number subscriber_id)
          ∷ ("channel", text channel)
          ∷ ("type", text notification_type)
          ∷ ("attempt", number attempt)
          ∷ ("created_at", text (E.isoformat created_at))
          ∷ ("routing_key", text routing_key)
          ∷ []))

module _ {E : Env} where
  -- `aggregate_type` has the default of the source, which every caller leaves; the columns that the
  -- constructor does not name take theirs from the model.
  unfoldable pub add_outbox_event :
      (aggregate_id : ℕ) (event_type : String) (payload : Payload) (available_at : Option ℕ)
      → Exec (World E) OutboxEvent
  add_outbox_event aggregate_id event_type payload available_at = do
    id ← draw_uuid
    now ← utcnow
    let event : OutboxEvent = record {
      id = id;
      aggregate_type = "notification";
      aggregate_id = aggregate_id;
      event_type = event_type;
      payload = payload;
      status = pending;
      attempts = 0;
      last_error = none;
      created_at = now;
      available_at = available_at;
      locked_at = none;
      published_at = none;
    }
    modify (put_event event)
    pure event
