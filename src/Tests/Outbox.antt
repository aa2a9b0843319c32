-- ===== src/Tests/Outbox.antt =====
-- The theorems on the outbox, the retry policy and the routes, on the sample platform.
use notification_test.Base.{
  ℕ, ◌≤◌, ◌<◌, ◌≡◌, ◌≢◌, ◌↔◌, suc, inl, refl, Bool, false, none, some, List, [], ◌∷◌, arith, Has,
  eq_iff,
}
use notification_test.Exec.{ok, err, index_error}
use notification_test.Models.{OutboxEvent, pending, text, transactional}
use notification_test.Config.{Settings}
use notification_test.World.{World}
use notification_test.Services.RetryPolicy.{decide}
use notification_test.Services.RetryPolicy.Decisions.{decide_raises}
use notification_test.Services.OutboxService.{add_outbox_event}
use notification_test.Messaging.Topology.{Names}
use notification_test.Messaging.Topology.Routes.{Apart, Sends}
use notification_test.Messaging.Topology.Destinations.{retried, added-Sends}
use notification_test.Worker.OutboxEvents.{add_retry, retry_payload}
use notification_test.Messaging.Publisher.{Broker, Message, publish_outbox_event}
use notification_test.Messaging.OutboxPublisher.{
  ClaimedOutboxEvent, claim_pending, claim_all, claimable, fetch, rank, comes_first, claimed,
  ticket, publish_pending,
}
use notification_test.Messaging.OutboxPublisher.Claims.{claim_pending_exclusive}
use notification_test.Messaging.OutboxPublisher.Marks.{Settled}
use notification_test.Messaging.OutboxPublisher.Deliveries.{publish_pending-Settled}
use notification_test.Tests.Sample.{sample, settings, empty, waiting_row}

abbrev event : OutboxEvent
event = record {
  id = 3;
  aggregate_type = "notification";
  aggregate_id = 1;
  event_type = "notification.created";
  payload = ("routing_key", text "notification.high") ∷ [];
  status = pending;
  attempts = 0;
  last_error = none;
  created_at = 0;
  available_at = none;
  locked_at = none;
  published_at = none;
}

abbrev waiting : World sample
waiting = record empty { db = record empty.db { outbox = event ∷ [] } }

abbrev pub nobody : OutboxEvent → Bool
nobody e = false

abbrev one : ClaimedOutboxEvent
one = ticket event

claimed_lem : (claim_pending settings nobody waiting).0 ≡ ok (one ∷ [])
unfolding claim_pending claim_all claimable fetch
claimed_lem = refl

-- The broker takes every message.
abbrev broker : Broker (List Message)
broker m sent = (ok tt, m ∷ sent)

abbrev pub names : Names
names = record {
  rabbitmq_exchange = "notifications";
  rabbitmq_dlx = "notifications.dlx";
  rabbitmq_high_queue = "high";
  rabbitmq_low_queue = "low";
  rabbitmq_dlq = "dead";
}

publish_pending-Settled_example :
    let r =
      publish_pending broker names settings nobody (record { world = waiting; outside = [] }) in
    (r.0 ≡ ok 1)
    × ((t : ClaimedOutboxEvent)
        → Has t (one ∷ [])
        → (at : ℕ) × (e row : OutboxEvent) × (sample.outbox.get t.id waiting.db.outbox ≡ some e)
          × Settled settings (claimed at e) row
          × (sample.outbox.get t.id r.1.world.db.outbox ≡ some row))
publish_pending-Settled_example =
    publish_pending-Settled broker names settings nobody (record { world = waiting; outside = [] })
      (one ∷ []) claimed_lem

abbrev no_delays : List ℕ
no_delays = []

decide_raises_example :
    (decide (record { max_retries = 3; backoff_seconds = [] }) 1 ≡ err index_error)
    ↔ ((1 < 3) × (no_delays ≡ []))
decide_raises_example = decide_raises (record { max_retries = 3; backoff_seconds = [] }) 1

pub Apart-names : Apart names
Apart-names = record {
  exchanges = λ h. ground (arith, eq_iff "notifications" "notifications.dlx");
  named = λ h. ground (arith, eq_iff "notifications.dlx" "");
}

-- The retry of a notification whose message named no queue.
abbrev again : OutboxEvent
again = record {
  id = 100;
  aggregate_type = "notification";
  aggregate_id = 1;
  event_type = "notification.retry_scheduled";
  payload = retry_payload waiting_row [] 5 none none;
  status = pending;
  attempts = 0;
  last_error = none;
  created_at = 0;
  available_at = some 9;
  locked_at = none;
  published_at = none;
}

again_lem : (add_retry {E = sample} waiting_row [] 5 (some 9) none none empty).0 ≡ ok again
unfolding add_retry add_outbox_event
again_lem = refl

added-Sends_example :
    Sends broker names "high" again.payload
      (publish_outbox_event broker names "notification.retry_scheduled" again.payload)
added-Sends_example =
    added-Sends broker names Apart-names transactional again
      (retried waiting_row [] 5 (some 9) none none empty refl again_lem)

-- Two events, and publishers that claim one at a time.
abbrev one_by_one : Settings
one_by_one = record settings { outbox_batch_size = 1 }

abbrev later_event : OutboxEvent
later_event = record event { id = 4; created_at = 1 }

abbrev two_waiting : World sample
two_waiting = record empty { db = record empty.db { outbox = event ∷ later_event ∷ [] } }

abbrev after_first : World sample
after_first = (claim_pending one_by_one nobody two_waiting).1

first_lem : (claim_pending one_by_one nobody two_waiting).0 ≡ ok (one ∷ [])
unfolding claim_pending claim_all claimable fetch rank comes_first
first_lem = refl

second_lem : (claim_pending one_by_one nobody after_first).0 ≡ ok (ticket later_event ∷ [])
unfolding claim_pending claim_all claimable fetch rank comes_first
second_lem = refl

soon : sample.clock (suc after_first.reads) ≤ 60002000
unfolding claim_pending claim_all claimable fetch rank comes_first
soon = omega arith

claim_pending_exclusive_example : later_event.id ≢ event.id
claim_pending_exclusive_example =
    claim_pending_exclusive one_by_one nobody nobody two_waiting after_first (one ∷ [])
      (ticket later_event ∷ []) one (ticket later_event) first_lem (inl refl) refl soon second_lem
      (inl refl)
