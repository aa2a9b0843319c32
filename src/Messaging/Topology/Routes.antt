-- ===== src/Messaging/Topology/Routes.antt =====
-- app/messaging/rabbitmq.py with app/messaging/publisher.py: which queues get the message of an
-- event of the outbox.
use notification_test.Base.{
  ℕ, String, Option, none, some, [], ◌∷◌, ◌≡◌, ◌≢◌, ◌⊎◌, inl, inr, refl, arith, eq_iff,
}
use notification_test.Exec.{Exec}
use notification_test.Models.{
  Payload, NotificationType, transactional, marketing, type_value, Json, text,
}
use notification_test.Platform.{Env}
use notification_test.Services.OutboxService.{
  notification_payload, set_some, dict_set, dict_get, routing_key_for_notification_type,
}
use notification_test.Messaging.Topology.{Names, bindings, dead_letter, exchange_of, queues_of}
use notification_test.Messaging.Publisher.{
  Broker, publish, publish_notification, publish_failed, publish_outbox_event,
}

-- The two exchanges have different names, neither of them empty.
pub record Apart (n : Names) : Type 0 where
  pub exchanges : n.rabbitmq_exchange ≢ n.rabbitmq_dlx
  pub named : n.rabbitmq_dlx ≢ ""

-- The queue of a type.
abbrev pub queue_of : Names → NotificationType → String
queue_of n transactional = n.rabbitmq_high_queue
queue_of n marketing = n.rabbitmq_low_queue

-- A message for the queue `queue` and no other, with the payload as its body.
pub record Sends {S : Type 0} (broker : Broker S) (n : Names) (queue : String) (payload : Payload)
    (publication : Exec S (Unit {0})) : Type 0 where
  pub key : String
  pub exchange : String
  pub message :
      publication ≡ broker (record { exchange = exchange; routing_key = text key; body = payload })
  pub queues : queues_of (bindings n) exchange key ≡ queue ∷ []

pub key_of-notification_payload :
    (E : Env) (event id batch subscriber : ℕ) (channel type : String) (attempt created : ℕ)
    (key : String) (delay error : Option Json)
    → dict_get "routing_key" (
        notification_payload E event id batch subscriber channel type attempt created key delay
          error)
      ≡ some (text key)
unfolding dict_get notification_payload set_some dict_set
key_of-notification_payload E event id batch subscriber channel type attempt created key none none =
    refl
key_of-notification_payload E event id batch subscriber channel type attempt created key none
      (some e) =
    refl
key_of-notification_payload E event id batch subscriber channel type attempt created key (some d)
      none =
    refl
key_of-notification_payload E event id batch subscriber channel type attempt created key (some d)
      (some e) =
    refl

module _ {S : Type 0} (broker : Broker S) (n : Names) (apart : Apart n) where
  pub notification_route :
      (type : NotificationType)
      → queues_of
          (bindings n)
          n.rabbitmq_exchange
          (routing_key_for_notification_type (type_value type))
        ≡ queue_of n type ∷ []
  unfolding queues_of bindings routing_key_for_notification_type
  notification_route transactional = ground (
    arith,
    apart.exchanges,
    eq_iff n.rabbitmq_exchange n.rabbitmq_exchange,
    eq_iff n.rabbitmq_dlx n.rabbitmq_exchange,
  )
  notification_route marketing = ground (
    arith,
    apart.exchanges,
    eq_iff n.rabbitmq_exchange n.rabbitmq_exchange,
    eq_iff n.rabbitmq_dlx n.rabbitmq_exchange,
  )

  failed_queues : queues_of (bindings n) n.rabbitmq_dlx "notification.failed" ≡ n.rabbitmq_dlq ∷ []
  unfolding queues_of bindings
  failed_queues = ground (
    arith,
    apart.exchanges,
    eq_iff n.rabbitmq_exchange n.rabbitmq_dlx,
    eq_iff n.rabbitmq_dlx n.rabbitmq_dlx,
  )

  -- The message of an event "notification.created" or "notification.retry_scheduled" whose payload
  -- `notification_payload` built with the routing key of the type of the notification goes to the
  -- queue of that type and to no other queue.
  pub publish_outbox_event-Sends :
      (event_type : String)
      → (event_type ≡ "notification.created") ⊎ (event_type ≡ "notification.retry_scheduled")
      → (E : Env) (event id batch subscriber : ℕ) (channel : String) (type : NotificationType)
        (attempt created : ℕ) (delay error : Option Json)
      → let payload =
          notification_payload E event id batch subscriber channel
            (type_value type)
            attempt
            created
            (routing_key_for_notification_type (type_value type))
            delay
            error in
        Sends broker n (queue_of n type) payload (publish_outbox_event broker n event_type payload)
  unfolding publish_outbox_event publish_notification publish exchange_of
  publish_outbox_event-Sends event_type is E event id batch subscriber channel type attempt created
        delay error =
      let key = routing_key_for_notification_type (type_value type) in
      let read =
        key_of-notification_payload E event id batch subscriber channel (type_value type) attempt
          created key delay error in
      record {
        key = key;
        exchange = n.rabbitmq_exchange;
        message = elim is [ inl e ↦ rw (e, read) refl | inr e ↦ rw (e, read) refl ];
        queues = notification_route type;
      }

  -- The message of an event "notification.failed" goes to the dead-letter queue and to no other.
  pub publish_failed-Sends :
      (payload : Payload)
      → Sends broker n n.rabbitmq_dlq payload
          (publish_outbox_event broker n "notification.failed" payload)
  unfolding publish_outbox_event publish_failed publish exchange_of
  publish_failed-Sends payload = record {
    key = "notification.failed";
    exchange = n.rabbitmq_dlx;
    message = ground (arith, apart.named, eq_iff n.rabbitmq_dlx "");
    queues = failed_queues;
  }

  -- A message that the queue of a type gives up, because it was rejected or delivered too often,
  -- goes to the dead-letter queue and to no other.
  dead_letter_route :
      (type : NotificationType)
      → (exchange key : String) × (dead_letter n (queue_of n type) ≡ some (exchange, key))
        × (queues_of (bindings n) exchange key ≡ n.rabbitmq_dlq ∷ [])
  unfolding dead_letter
  dead_letter_route transactional = (
    n.rabbitmq_dlx,
    "notification.failed",
    ground (arith, eq_iff n.rabbitmq_high_queue n.rabbitmq_high_queue),
    failed_queues,
  )
  dead_letter_route marketing = (
    n.rabbitmq_dlx,
    "notification.failed",
    ground (arith, eq_iff n.rabbitmq_low_queue n.rabbitmq_low_queue),
    failed_queues,
  )
