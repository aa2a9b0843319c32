-- ===== src/Messaging/Publisher.antt =====
-- app/messaging/publisher.py: `NotificationPublisher`. A payload is published as JSON; here it is the
-- dict itself that the exchange gets.
use notification_test.Base.{String, Option, none, some, str_eq, if◌then◌else◌}
use notification_test.Exec.{Exec, raise, key_error, value_error}
use notification_test.Models.{Json, text, Payload}
use notification_test.Services.OutboxService.{dict_get}
use notification_test.Messaging.Topology.{Names, exchange_of}

-- A message on its way: the exchange, the routing key and the body.
pub record Message : Type 0 where
  pub exchange : String
  pub routing_key : Json
  pub body : Payload

-- `exchange.publish(message)`: the broker takes the message, or the call raises.
abbrev pub Broker : Type 0 → Type 0
Broker S = Message → Exec S (Unit {0})

module _ {S : Type 0} (broker : Broker S) (names : Names) where
  unfoldable pub publish : Payload → Json → Option String → Exec S (Unit {0})
  unfolding exchange_of
  publish payload routing_key exchange_name = broker (record {
    exchange = exchange_of names exchange_name;
    routing_key = routing_key;
    body = payload;
  })

  -- `payload["routing_key"]`
  abbrev pub publish_by : Payload → Option Json → Exec S (Unit {0})
  publish_by payload none = raise key_error
  publish_by payload (some key) = publish payload key none

  unfoldable pub publish_notification : Payload → Exec S (Unit {0})
  unfolding publish dict_get
  publish_notification payload = publish_by payload (dict_get "routing_key" payload)

  unfoldable pub publish_failed : Payload → Exec S (Unit {0})
  unfolding publish
  publish_failed payload = publish payload (text "notification.failed") (some names.rabbitmq_dlx)

  unfoldable pub publish_outbox_event : String → Payload → Exec S (Unit {0})
  publish_outbox_event event_type payload =
      if str_eq event_type "notification.created"
      then publish_notification payload
      else if str_eq event_type "notification.retry_scheduled"
      then publish_notification payload
      else if str_eq event_type "notification.failed"
      then publish_failed payload
      else raise value_error
