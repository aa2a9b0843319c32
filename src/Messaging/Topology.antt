-- ===== src/Messaging/Topology.antt =====
-- app/messaging/rabbitmq.py: the exchanges, the queues and where a message goes. The broker delivers
-- a message of a direct exchange to the queues that are bound to it by the message's routing key.
pub mod Routes
pub mod Destinations
use notification_test.Base.{
  String, Bool, true, false, ◌&&◌, Option, none, some, List, [], ◌∷◌, str_eq, if◌then◌else◌,
}

-- The names, of app/core/config.py.
pub record Names : Type 0 where
  pub rabbitmq_exchange : String
  pub rabbitmq_dlx : String
  pub rabbitmq_high_queue : String
  pub rabbitmq_low_queue : String
  pub rabbitmq_dlq : String

pub record Binding : Type 0 where
  pub queue : String
  pub exchange : String
  pub routing_key : String

-- The `bind` calls of `declare`.
unfoldable pub bindings : Names → List Binding
bindings n =
    record {
      queue = n.rabbitmq_high_queue;
      exchange = n.rabbitmq_exchange;
      routing_key = "notification.high";
    }
    ∷ record {
      queue = n.rabbitmq_low_queue;
      exchange = n.rabbitmq_exchange;
      routing_key = "notification.low";
    }
    ∷ record {
      queue = n.rabbitmq_dlq;
      exchange = n.rabbitmq_dlx;
      routing_key = "notification.failed";
    }
    ∷ []

-- `x-dead-letter-exchange` and `x-dead-letter-routing-key` of a queue, where it has them.
unfoldable pub dead_letter : Names → String → Option (String × String)
dead_letter n queue =
    if str_eq queue n.rabbitmq_high_queue
    then some (n.rabbitmq_dlx, "notification.failed")
    else if str_eq queue n.rabbitmq_low_queue
    then some (n.rabbitmq_dlx, "notification.failed")
    else none

-- `publish`: the exchange that a message is sent to.
unfoldable pub exchange_of : Names → Option String → String
exchange_of n none = n.rabbitmq_exchange
exchange_of n (some exchange_name) =
    if str_eq exchange_name "" then n.rabbitmq_exchange else exchange_name

-- The queues that get a message of the exchange.
unfoldable pub queues_of : List Binding → String → String → List String
queues_of [] exchange key = []
queues_of (b ∷ bs) exchange key =
    let rest = queues_of bs exchange key in
    if str_eq b.exchange exchange && str_eq b.routing_key key then b.queue ∷ rest else rest
