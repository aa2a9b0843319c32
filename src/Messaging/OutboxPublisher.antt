-- ===== src/Messaging/OutboxPublisher.antt =====
-- app/messaging/outbox_publisher.py: the events of the outbox are claimed in one transaction, and
-- each is then published and marked in one of its own.
pub mod Claims
pub mod Marks
pub mod Deliveries
use notification_test.Base.{
  ℕ, suc, ◌+◌, ◌-◌, String, Bool, true, false, not, ◌&&◌, ◌||◌, Option, none, some, List, [], ◌∷◌,
  map, ◌==◌, leb, ltb, str_eq, length, take, if◌then◌else◌,
}
use notification_test.Exec.{Exec, Result, Error, ok, err, ◌>>=◌, ◌>>◌, pure, gets, modify}
use notification_test.Models.{
  OutboxEvent, OutboxStatus, pending, processing, published, failed, Json, text, Payload,
}
use notification_test.Platform.{Env}
use notification_test.Config.{Settings, seconds}
use notification_test.World.{World, utcnow, Node, on_world, transaction, put_event}
use notification_test.Services.OutboxService.{dict_get}
use notification_test.Messaging.Topology.{Names}
use notification_test.Messaging.Publisher.{Broker, publish_outbox_event}

pub record ClaimedOutboxEvent : Type 0 where
  pub id : ℕ
  pub event_type : String
  pub payload : Payload

-- `available_at IS NULL OR available_at <= now`
abbrev pub is_due : ℕ → Option ℕ → Bool
is_due now none = true
is_due now (some t) = leb t now

-- `locked_at < deadline`, which NULL never is. The deadline is `now - timeout`.
abbrev pub is_stale : ℕ → ℕ → Option ℕ → Bool
is_stale now timeout none = false
is_stale now timeout (some t) = ltb (t + timeout) now

-- The condition of the query in `claim_pending`, at the two readings of the clock.
unfoldable pub claimable : (now later timeout : ℕ) → OutboxEvent → Bool
claimable now later timeout e = elim e.status [
  | pending ↦ is_due now e.available_at
  | processing ↦ is_stale later timeout e.locked_at
  | published ↦ false
  | failed ↦ false
]

-- `case((payload["routing_key"] == "notification.high", 0), else_=1)`
abbrev pub is_text : String → Option Json → Bool
is_text s (some (text t)) = str_eq t s
is_text s _ = false

unfoldable pub rank : OutboxEvent → ℕ
unfolding dict_get
rank e = if is_text "notification.high" (dict_get "routing_key" e.payload) then 0 else 1

-- `order_by(rank, created_at)`
unfoldable pub comes_first : OutboxEvent → OutboxEvent → Bool
comes_first a b = ltb (rank a) (rank b) || (rank a == rank b && leb a.created_at b.created_at)

-- The rows that the query returns: `skip_locked` leaves out those that another transaction holds.
unfoldable pub fetch :
    (E : Env)
    → Settings
    → (held : OutboxEvent → Bool) → (now later : ℕ) → E.outbox.State
    → List OutboxEvent
fetch E settings held now later s = take settings.outbox_batch_size (
    E.outbox.order_by comes_first (
      E.outbox.select
        (λ e. claimable now later (seconds settings.outbox_claim_timeout_seconds) e && not (held e))
        s))

abbrev pub claimed : ℕ → OutboxEvent → OutboxEvent
claimed at e = record e { status = processing; locked_at = some at; attempts = e.attempts + 1 }

abbrev pub ticket : OutboxEvent → ClaimedOutboxEvent
ticket e = record { id = e.id; event_type = e.event_type; payload = e.payload }

module _ {E : Env} where
  unfoldable pub claim_all : ℕ → List OutboxEvent → Exec (World E) (Unit {0})
  claim_all at [] = pure tt
  claim_all at (e ∷ es) = do modify (put_event (claimed at e)); claim_all at es

  unfoldable pub claim_pending :
      Settings → (held : OutboxEvent → Bool) → Exec (World E) (List ClaimedOutboxEvent)
  claim_pending settings held = transaction (do
    now ← utcnow
    later ← utcnow
    events ← gets (λ w. fetch E settings held now later w.db.outbox)
    at ← utcnow
    claim_all at events
    pure (map ticket events))

  unfoldable pub mark_published : OutboxEvent → Exec (World E) (Unit {0})
  mark_published e = do
    now ← utcnow
    modify (
        put_event (record e {
          status = published;
          published_at = some now;
          locked_at = none;
          last_error = none;
        }))

  unfoldable pub mark_publish_failed : Settings → OutboxEvent → Error → Exec (World E) (Unit {0})
  mark_publish_failed settings e x = modify (
      put_event (record e {
        status = if leb settings.outbox_max_attempts e.attempts then failed else pending;
        locked_at = none;
        last_error = some (E.error_str x);
      }))

  -- The `try … except … else` of `_publish_one`, on what the publisher did.
  abbrev pub mark : Settings → OutboxEvent → Result (Unit {0}) → Exec (World E) (Unit {0})
  mark settings e (ok _) = mark_published e
  mark settings e (err x) = mark_publish_failed settings e x

  -- `_publish_one`, on a row that is there.
  abbrev pub publish_found :
      {S : Type 0} → Settings → Exec S (Unit {0}) → Option OutboxEvent → Exec (Node E S) (Unit {0})
  publish_found settings publication none s = (ok tt, s)
  publish_found settings publication (some e) s =
      let (r, outside) = publication s.outside in
      on_world (mark settings e r) (record s { outside = outside })

module _ {E : Env} {S : Type 0} (broker : Broker S) (names : Names) (settings : Settings) where
  unfoldable pub publish_one : ClaimedOutboxEvent → Exec (Node E S) (Unit {0})
  publish_one event = do
    found ← on_world (gets (λ w. E.outbox.get event.id w.db.outbox))
    publish_found settings (publish_outbox_event broker names event.event_type event.payload) found

  unfoldable pub publish_each : List ClaimedOutboxEvent → Exec (Node E S) (Unit {0})
  unfolding publish_one
  publish_each [] = pure tt
  publish_each (e ∷ es) = do publish_one e; publish_each es

  unfoldable pub publish_pending : (held : OutboxEvent → Bool) → Exec (Node E S) ℕ
  unfolding claim_pending publish_each
  publish_pending held = do
    events ← on_world (claim_pending settings held)
    publish_each events
    pure (length events)
