-- ===== src/System/Rabbit.antt =====
-- RabbitMQ, as the publisher of app/messaging/publisher.py and the worker of app/worker/main.py use
-- it: their calls, and what the broker's documentation says of them.
use notification_test.Base.{String, ◌≡◌, ◌≢◌, inl, inr, Bool, none, some, List, [], ◌∷◌, Has, arith}
use notification_test.Exec.{ok, Result-cases}
use notification_test.Models.{text, Payload}
use notification_test.Messaging.Topology.{Names, bindings, queues_of}
use notification_test.Messaging.Publisher.{Message, Broker}
use notification_test.Worker.Loop.{Consumer, Body, object, poll}

-- Queues and exchanges as `declare` leaves them. `Holds payload` says that some message with that
-- payload lies in a queue, the dead-letter queue included, or was taken and not answered.
pub record Rabbit (B M : Type 0) (names : Names) : Type 1 where
  pub publish : Broker B
  pub consumer : Consumer B M
  pub loads : M → Body
  pub Holds : Payload → B → Type 0
  -- With publisher confirms, the call returns when the queues have the message.
  pub publish_holds :
      (m : Message) (key queue : String) (b : B)
      → m.routing_key ≡ text key
      → Has queue (queues_of (bindings names) m.exchange key)
      → (publish m b).0 ≡ ok tt
      → Holds m.body (publish m b).1
  pub publish_keeps : (m : Message) (p : Payload) (b : B) → Holds p b → Holds p (publish m b).1
  pub get_keeps :
      (queue : String) (p : Payload) (b : B) → Holds p b → Holds p (consumer.get queue b).1
  -- A rejected message goes back to its queue or to the dead-letter queue.
  pub reject_keeps :
      (requeue : Bool) (m : M) (p : Payload) (b : B)
      → Holds p b
      → Holds p (consumer.reject requeue m b).1
  -- An acknowledged message goes, and no other does.
  pub ack_keeps :
      (m : M) (p : Payload) (b : B) → loads m ≢ object p → Holds p b → Holds p (consumer.ack m b).1

module _ {B M : Type 0} {names : Names} (rabbit : Rabbit B M names) where
  -- The worker's search for a message.
  pub poll_keeps :
      (queues : List String) (p : Payload) (b : B)
      → rabbit.Holds p b
      → rabbit.Holds p (poll rabbit.consumer queues b).1
  unfolding poll
  poll_keeps [] p b held = held
  poll_keeps (queue ∷ queues) p b held =
      let b' = (rabbit.consumer.get queue b).1 in
      let kept = rabbit.get_keeps queue p b held in
      elim (Result-cases (rabbit.consumer.get queue b).0) [
        | inr (x, e) ↦
            let same : (poll rabbit.consumer (queue ∷ queues) b).1 ≡ b' = ground (arith, e) in
            rw same kept
        | inl (some m, e) ↦
            let same : (poll rabbit.consumer (queue ∷ queues) b).1 ≡ b' = ground (arith, e) in
            rw same kept
        | inl (none, e) ↦
            let same : (poll rabbit.consumer (queue ∷ queues) b).1
                ≡ (poll rabbit.consumer queues b').1 =
              ground (arith, e) in
            rw same (poll_keeps queues p b' kept)
      ]
