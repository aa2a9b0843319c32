-- ===== src/System/Steps.antt =====
-- The whole service: the API, the cleaner, the publishers of the outbox and the workers, each of
-- them as often as one likes, on one database and one broker. A step is a request or a round of the
-- cleaner with its transactions and its calls of Redis, or one transaction of a publisher or a worker,
-- or one call of the broker, or the last transaction for a message together with its acknowledgement.
use notification_test.Base.{[], ℕ, ◌≡◌, Bool, none, some, List, ◌∷◌, String, Has}
use notification_test.Exec.{ok}
use notification_test.Models.{Notification, OutboxEvent, Payload, BulkNotificationRequest}
use notification_test.Platform.{Env}
use notification_test.Config.{Settings}
use notification_test.World.{World, Node}
use notification_test.Providers.{ProviderResult}
use notification_test.Services.Notifications.{create_bulk}
use notification_test.Services.IdempotencyCleaner.{cleanup_once}
use notification_test.Messaging.Topology.{Names}
use notification_test.Messaging.OutboxPublisher.{ClaimedOutboxEvent, claim_pending, publish_one}
use notification_test.Worker.Attempts.{reserve}
use notification_test.Worker.ResultHandler.{apply}
use notification_test.Worker.Processor.{notification_id, policy_of}
use notification_test.Worker.Loop.{object, poll}
use notification_test.System.Rabbit.{Rabbit}

-- The tables, the broker, the events that the publishers claimed so far, one list for each call, and
-- the notifications that were handed to a worker.
pub record Service (E : Env) (B : Type 0) : Type 0 where
  pub world : World E
  pub broker : B
  pub claims : List (List ClaimedOutboxEvent)
  pub handed : List ℕ

-- A service that did nothing so far.
pub record IsFresh {E : Env} {B : Type 0} (s : Service E B) : Type 0 where
  pub notifications : (j : ℕ) → E.notifications.get j s.world.db.notifications ≡ none
  pub outbox : (j : ℕ) → E.outbox.get j s.world.db.outbox ≡ none
  pub history : (i : ℕ) → E.history.get i s.world.db.history ≡ none
  pub claims : s.claims ≡ []
  pub handed : s.handed ≡ []

module _ {E : Env} {B M : Type 0} {names : Names} (rabbit : Rabbit B M names)
    (settings : Settings) where
  abbrev pub publishing : ClaimedOutboxEvent → Service E B → Node E B
  publishing t s =
      (publish_one rabbit.publish names settings t
        (record { world = s.world; outside = s.broker })).1

  pub data Step (s : Service E B) : Service E B → Type 0 where
    -- A POST of api/v1/notifications.py.
    requested :
        (request : BulkNotificationRequest) (key : String)
        → Step s (record s { world = (create_bulk settings request key s.world).1 })
    -- A round of services/idempotency_cleaner.py.
    cleaned : Step s (record s { world = (cleanup_once s.world).1 })
    -- `publish_pending`: the claim, and then `_publish_one` for an event of any claim, at any time, again or
    -- never.
    claimed :
        (held : OutboxEvent → Bool) (tickets : List ClaimedOutboxEvent)
        → (claim_pending settings held s.world).0 ≡ ok tickets
        → Step s (record s {
          world = (claim_pending settings held s.world).1;
          claims = tickets ∷ s.claims;
        })
    published :
        (tickets : List ClaimedOutboxEvent) (t : ClaimedOutboxEvent)
        → Has tickets s.claims
        → Has t tickets
        → Step s (record s { world = (publishing t s).world; broker = (publishing t s).outside })
    -- The worker asks its queues, `except` rejects, and a message whose connection is lost goes back.
    polled :
        (queues : List String)
        → Step s (record s { broker = (poll rabbit.consumer queues s.broker).1 })
    rejected :
        (requeue : Bool) (m : M)
        → Step s (record s { broker = (rabbit.consumer.reject requeue m s.broker).1 })
    -- `process`: the reservation. The worker may stop after any transaction.
    reserved :
        (id : ℕ) (payload : Payload)
        → notification_id E payload ≡ ok id
        → Step s (record s { world = (reserve settings id payload s.world).1 })
    -- The notification is handed to the worker, which calls the provider.
    handed_out :
        (id : ℕ) (payload : Payload) (n : Notification)
        → notification_id E payload ≡ ok id
        → (reserve settings id payload s.world).0 ≡ ok (some n)
        → Step s
            (record s { world = (reserve settings id payload s.world).1; handed = id ∷ s.handed })
    -- Nothing is handed out, and the message is acknowledged.
    idle_acked :
        (m : M) (id : ℕ) (payload : Payload)
        → rabbit.loads m ≡ object payload
        → notification_id E payload ≡ ok id
        → (reserve settings id payload s.world).0 ≡ ok none
        → Step s (record s {
          world = (reserve settings id payload s.world).1;
          broker = (rabbit.consumer.ack m s.broker).1;
        })
    -- The result of the provider, which may be any, is recorded on the row as the database has it.
    applied :
        (id : ℕ) (payload : Payload) (result : ProviderResult)
        → notification_id E payload ≡ ok id
        → Step s (record s { world = (apply (policy_of settings) id payload result s.world).1 })
    -- The same, and the message is acknowledged.
    applied_acked :
        (m : M) (id : ℕ) (payload : Payload) (result : ProviderResult)
        → rabbit.loads m ≡ object payload
        → notification_id E payload ≡ ok id
        → Has id s.handed
        → (apply (policy_of settings) id payload result s.world).0 ≡ ok tt
        → Step s (record s {
          world = (apply (policy_of settings) id payload result s.world).1;
          broker = (rabbit.consumer.ack m s.broker).1;
        })

  pub data Steps (s : Service E B) : Service E B → Type 0 where
    start : Steps s s
    after : {t u : Service E B} → Steps s t → Step t u → Steps s u
