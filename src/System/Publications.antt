-- ===== src/System/Publications.antt =====
-- What the publication of an event leaves with the broker.
use notification_test.Base.{
  ◌≡◌, ◌⊎◌, inl, inr, refl, String, true, Option, none, some, arith, str_eq, Has, Bool-cases,
}
use notification_test.Exec.{ok}
use notification_test.Models.{OutboxEvent, Payload, Json, text, transactional, marketing}
use notification_test.Platform.{Env}
use notification_test.Services.OutboxService.{dict_get, routing_key_for_notification_type}
use notification_test.Messaging.Topology.{Names, bindings, queues_of, exchange_of}
use notification_test.Messaging.Topology.Routes.{Apart, notification_route}
use notification_test.Messaging.Publisher.{
  Message, Broker, publish, publish_notification, publish_failed, publish_outbox_event,
}
use notification_test.System.Growth.{is_notice, IsRoutable}
use notification_test.System.Rabbit.{Rabbit}
use notification_test.System.Carried.{Travels}

module _ {S : Type 0} (broker : Broker S) (names : Names) where
  -- A publication is one call of the broker, or raises before it.
  publication_lem :
      (type : String) (payload : Payload) (b : S)
      → ((publish_outbox_event broker names type payload b).1 ≡ b)
        ⊎ ((m : Message) × (publish_outbox_event broker names type payload b ≡ broker m b))
  unfolding publish_outbox_event publish_notification publish_failed publish exchange_of
  publication_lem type payload b = elim (Bool-cases (is_notice type)) [
    | inl notice ↦ by_key (dict_get "routing_key" payload) refl notice
    | inr other ↦ elim (Bool-cases (str_eq type "notification.failed")) [
      | inl failed ↦ inr (dead, ground (arith, other, failed))
      | inr unknown ↦ inl (ground (arith, other, unknown))
    ]
  ]
    where
      dead : Message
      dead = record {
        exchange = exchange_of names (some names.rabbitmq_dlx);
        routing_key = text "notification.failed";
        body = payload;
      }

      work : Json → Message
      work key = record { exchange = names.rabbitmq_exchange; routing_key = key; body = payload }

      by_key :
          (key : Option Json)
          → dict_get "routing_key" payload ≡ key
          → is_notice type ≡ true
          → ((publish_outbox_event broker names type payload b).1 ≡ b)
            ⊎ ((m : Message) × (publish_outbox_event broker names type payload b ≡ broker m b))
      by_key none missing notice = inl (ground (arith, notice, missing))
      by_key (some key) there notice = inr (work key, ground (arith, notice, there))

  -- An event for the workers goes to the queue of its routing key.
  notice_lem :
      {E : Env} (e : OutboxEvent) (r : IsRoutable E e) (b : S)
      → is_notice e.event_type ≡ true
      → publish_outbox_event broker names e.event_type e.payload b
        ≡ broker
            (record {
              exchange = names.rabbitmq_exchange;
              routing_key = text r.key;
              body = e.payload;
            })
            b
  unfolding publish_outbox_event publish_notification publish exchange_of
  notice_lem e r b notice = ground (arith, notice, r.routing)

module _ {B M : Type 0} {names : Names} (rabbit : Rabbit B M names) (apart : Apart names) where
  pub publication_keeps :
      (type : String) (payload p : Payload) (b : B)
      → rabbit.Holds p b
      → rabbit.Holds p (publish_outbox_event rabbit.publish names type payload b).1
  publication_keeps type payload p b held =
      elim (publication_lem rabbit.publish names type payload b) [
        | inl same ↦ rw same held
        | inr (m, sent) ↦ rw sent (rabbit.publish_keeps m p b held)
      ]

  key_routed :
      (key : String)
      → (key ≡ "notification.high") ⊎ (key ≡ "notification.low")
      → (queue : String) × Has queue (queues_of (bindings names) names.rabbitmq_exchange key)
  unfolding routing_key_for_notification_type
  key_routed key (inl high) = (
    names.rabbitmq_high_queue,
    rw high (rw (notification_route rabbit.publish names apart transactional) (inl refl)),
  )
  key_routed key (inr low) = (
    names.rabbitmq_low_queue,
    rw low (rw (notification_route rabbit.publish names apart marketing) (inl refl)),
  )

  -- An event for the workers whose publication returns is with the broker.
  pub publication-Travels :
      {E : Env} (type : String) (payload : Payload) (e : OutboxEvent) (b : B)
      → type ≡ e.event_type
      → payload ≡ e.payload
      → IsRoutable E e
      → is_notice e.event_type ≡ true
      → (publish_outbox_event rabbit.publish names type payload b).0 ≡ ok tt
      → Travels E rabbit e.aggregate_id (publish_outbox_event rabbit.publish names type payload b).1
  publication-Travels type payload e b same body r notice returned =
      let message : Message = record {
        exchange = names.rabbitmq_exchange;
        routing_key = text r.key;
        body = e.payload;
      } in
      let sends : publish_outbox_event rabbit.publish names type payload b
          ≡ rabbit.publish message b =
        rw same (rw body (notice_lem rabbit.publish names e r b notice)) in
      let (queue, here) = key_routed r.key r.known in
      (
        e.payload,
        r.named,
        rw sends (rabbit.publish_holds message r.key queue b refl here (rw sends at returned)),
      )
