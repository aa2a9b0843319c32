-- ===== src/Messaging/Topology/Destinations.antt =====
-- app/messaging/publisher.py with app/services/notification_service.py and
-- app/worker/outbox_events.py: where the events that the services write to the outbox go.
use notification_test.Base.{ℕ, ◌≡◌, ◌⊎◌, inl, inr, refl, ap, ◌∙◌, String, Option, none, some, arith}
use mathlib.Core.Path.{subst}
use notification_test.Exec.{Result, ok}
use notification_test.Models.{
  Notification, OutboxEvent, BulkNotificationRequest, NotificationType, type_value, channel_value,
  Payload, text,
}
use notification_test.Platform.{Env}
use notification_test.World.{World}
use notification_test.Services.OutboxService.{dict_get, routing_key_for_notification_type}
use notification_test.Services.Notifications.{add_created_event}
use notification_test.Worker.OutboxEvents.{add_retry}
use notification_test.Worker.OutboxEvents.Payloads.{routing-retry_payload}
use notification_test.Messaging.Topology.{Names}
use notification_test.Messaging.Topology.Routes.{
  Apart, Sends, queue_of, notification_route, key_of-notification_payload,
}
use notification_test.Messaging.Publisher.{
  Broker, publish, publish_notification, publish_outbox_event,
}

-- An event that the services write for a notification of that type, with what they write.
pub data IsAdded (E : Env) (type : NotificationType) (e : OutboxEvent) : Type 0 where
  -- `create_bulk`, for each recipient
  created :
      (request : BulkNotificationRequest) (batch_id recipient_id notification_id : ℕ) (w : World E)
      → request.type ≡ type
      → (add_created_event request batch_id recipient_id notification_id w).0 ≡ ok e
      → IsAdded E type e
  -- `NotificationOutboxEvents.add_retry`, from any payload
  retried :
      (n : Notification) (payload : Payload) (delay : ℕ) (at : Option ℕ)
      (error reason : Option String) (w : World E)
      → n.type ≡ type_value type
      → (add_retry n payload delay at error reason w).0 ≡ ok e
      → IsAdded E type e

-- The key of the type, and one of the two kinds that are routed by it.
abbrev Says : NotificationType → OutboxEvent → Type 0
Says type x =
    (dict_get "routing_key" x.payload
      ≡ some (text (routing_key_for_notification_type (type_value type))))
    × ((x.event_type ≡ "notification.created") ⊎ (x.event_type ≡ "notification.retry_scheduled"))

ok_inj : {x y : OutboxEvent} → ◌≡◌ {A = Result OutboxEvent} (ok x) (ok y) → x ≡ y
ok_inj h = ground (arith, h)

-- What such an event says.
added_lem : {E : Env} (type : NotificationType) (e : OutboxEvent) → IsAdded E type e → Says type e
unfolding add_created_event add_retry
added_lem {E} type e (created request b r id w typed h) = subst (Says type) (ok_inj h) (
  key_of-notification_payload E (E.uuid4 w.draws) id b r (channel_value request.channel)
        (type_value request.type) 1 (E.clock w.reads)
        (routing_key_for_notification_type (type_value request.type)) none none
      ∙ ap (λ t. some (text (routing_key_for_notification_type (type_value t)))) typed,
  inl refl,
)
added_lem type e (retried n payload delay at error reason w typed h) =
    subst (Says type) (ok_inj h) (
      routing-retry_payload n payload delay error reason
          ∙ ap (λ t. some (text (routing_key_for_notification_type t))) typed,
      inr refl,
    )

module _ {E : Env} {S : Type 0} (broker : Broker S) (n : Names) (apart : Apart n) where
  -- The message of an event that `create_bulk` writes for a notification, or that the worker writes to
  -- bring one back, whatever the payload it starts from, goes to the queue of the type of the
  -- notification and to no other queue.
  pub added-Sends :
      (type : NotificationType) (e : OutboxEvent)
      → IsAdded E type e
      → Sends broker n
          (queue_of n type)
          e.payload
          (publish_outbox_event broker n e.event_type e.payload)
  unfolding publish_outbox_event publish_notification publish
  added-Sends type e added =
      let (read, is) = added_lem type e added in
      record {
        key = routing_key_for_notification_type (type_value type);
        exchange = n.rabbitmq_exchange;
        message = elim is [ inl h ↦ rw (h, read) refl | inr h ↦ rw (h, read) refl ];
        queues = notification_route broker n apart type;
      }
