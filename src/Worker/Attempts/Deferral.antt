-- ===== src/Worker/Attempts/Deferral.antt =====
-- A message for a notification that is being sent, or that waits for its next attempt: `reserve`
-- puts it off by one event in the outbox.
use notification_test.Base.{
  ℕ, suc, ◌≡◌, refl, ap, true, false, Option, none, some, List, [], ◌∷◌, arith, Has,
}
use notification_test.Exec.{Exec, Result, ok, err, multiple_results_found, ◌>>=◌, pure}
use notification_test.Models.{Notification, OutboxEvent, pending, Payload, is_final_status}
use notification_test.Platform.{Env}
use notification_test.Config.{Settings}
use notification_test.World.{World, Db, transaction}
use notification_test.Worker.OutboxEvents.{add_retry, retry_payload}
use notification_test.Worker.Attempts.{
  redelivers, seconds_until, seconds_left, redeliver, ensure_deferred_redelivery,
  reserve_unfinished, reserve_row, reserve_found, reserve, has_active_processing_lock,
}
use notification_test.Worker.Attempts.Rows.{active, lock-bind, lock_db}

-- The answer of `.scalar_one_or_none()`, for the caller of `reserve`.
abbrev pub deferral : List OutboxEvent → Result (Option Notification)
deferral [] = ok none
deferral (_ ∷ []) = ok none
deferral (_ ∷ _ ∷ _) = err multiple_results_found

-- The event that puts off a message until the lock of the notification ends, at `until`; it was
-- written at `now`.
pub record Redelivery (n : Notification) (payload : Payload) (until now : ℕ) (e : OutboxEvent)
    : Type 0 where
  pub aggregate : e.aggregate_id ≡ n.id
  pub type : e.event_type ≡ "notification.retry_scheduled"
  pub status : e.status ≡ pending
  pub available : e.available_at ≡ some until
  pub body :
      e.payload
      ≡ retry_payload n payload
          (seconds_until (some until) now)
          none
          (some "processing_lock_active")

module _ {E : Env} (n : Notification) (payload : Payload) (until : ℕ)
    (lock : n.processing_lock_until ≡ some until) (w : World E) where
  -- What the redelivery leaves of the outbox: it is as it was, or it has the new event.
  abbrev Left : List OutboxEvent → World E → Type 0
  Left [] w' =
      (e : OutboxEvent) × Redelivery n payload until (E.clock w.reads) e
      × (w'.db.outbox ≡ E.outbox.put e w.db.outbox)
  Left (_ ∷ _) w' = w'.db.outbox ≡ w.db.outbox

  seconds_left_lem :
      seconds_left n.processing_lock_until w
      ≡ (ok (seconds_until (some until) (E.clock w.reads)), record w { reads = suc w.reads })
  unfolding seconds_left
  seconds_left_lem = rw (lock, seconds_left)

  abbrev event : OutboxEvent
  event = record {
    id = E.uuid4 w.draws;
    aggregate_type = "notification";
    aggregate_id = n.id;
    event_type = "notification.retry_scheduled";
    payload =
        retry_payload n payload (seconds_until (some until) (E.clock w.reads)) none
          (some "processing_lock_active");
    status = pending;
    attempts = 0;
    last_error = none;
    created_at = E.clock (suc w.reads);
    available_at = n.processing_lock_until;
    locked_at = none;
    published_at = none;
  }

  same_event : Redelivery n payload until (E.clock w.reads) event
  same_event = record {
    aggregate = refl;
    type = refl;
    status = refl;
    available = lock;
    body = refl;
  }

  -- The answer is that of the query, and no other table changes.
  redeliver_lem :
      (rows : List OutboxEvent)
      → (((redeliver rows n payload >>= λ _. pure none) w).0 ≡ deferral rows)
        × Left rows (redeliver rows n payload w).1
        × ((redeliver rows n payload w).1.db.notifications ≡ w.db.notifications)
        × ((redeliver rows n payload w).1.db.history ≡ w.db.history)
  unfolding redeliver add_retry
  redeliver_lem [] =
      let wait = seconds_left_lem in
      (ground arith, (event, same_event, ground arith), ground arith, ground arith)
  redeliver_lem (x ∷ []) = (refl, refl, refl, refl)
  redeliver_lem (x ∷ y ∷ rows) = (refl, refl, refl, refl)

-- What `reserve` says and leaves when it puts a message off, `rows` being the outstanding events.
pub record Deferred {E : Env} (n : Notification) (payload : Payload) (until : ℕ)
    (rows : List OutboxEvent) (w : World E) (r : Result (Option Notification) × World E)
    : Type 0 where
  pub answer : r.0 ≡ deferral rows
  pub notifications : r.1.db.notifications ≡ w.db.notifications
  pub history : r.1.db.history ≡ w.db.history
  pub left : (x : OutboxEvent) → Has x rows → r.1.db.outbox ≡ w.db.outbox
  pub added :
      rows ≡ []
      → (now : ℕ) × (e : OutboxEvent) × Redelivery n payload until now e
        × (r.1.db.outbox ≡ E.outbox.put e w.db.outbox)

module _ {E : Env} (n : Notification) (payload : Payload) (until : ℕ)
    (lock : n.processing_lock_until ≡ some until) (w w' : World E) (same : w'.db ≡ w.db)
    (block : Exec (World E) (Option Notification)) where
  transaction-Deferred :
      (rows : List OutboxEvent)
      → block w ≡ (redeliver rows n payload >>= λ _. pure none) w'
      → Deferred n payload until rows w (transaction block w)
  transaction-Deferred [] e =
      let (answer, (event, is, put), kept, past) = redeliver_lem n payload until lock w' [] in
      record {
        answer = ground arith;
        notifications = ground arith;
        history = ground arith;
        left = λ x m. absurd m;
        added = λ _. (E.clock w'.reads, event, is, ground arith);
      }
  transaction-Deferred (x ∷ []) e =
      let (answer, put, kept, past) = redeliver_lem n payload until lock w' (x ∷ []) in
      record {
        answer = ground arith;
        notifications = ground arith;
        history = ground arith;
        left = λ _ _. ground arith;
        added = λ h. ground arith;
      }
  transaction-Deferred (x ∷ y ∷ rows) e =
      let (answer, put, kept, past) = redeliver_lem n payload until lock w' (x ∷ y ∷ rows) in
      record {
        answer = ground arith;
        notifications = ground arith;
        history = ground arith;
        left = λ _ _. ground arith;
        added = λ h. ground arith;
      }

module _ {E : Env} (settings : Settings) (id : ℕ) (n : Notification) (payload : Payload) (until : ℕ)
    (lock : n.processing_lock_until ≡ some until) (w : World E) where
  block_lem :
      is_final_status n.status ≡ false
      → active n (E.clock w.reads) ≡ true
      → reserve_row settings n payload w
        ≡ (redeliver (E.outbox.select (redelivers n) w.db.outbox) n payload >>= λ _. pure none)
            (has_active_processing_lock n w).1
  unfolding reserve_row reserve_unfinished ensure_deferred_redelivery
  block_lem going held =
      rw (going, reserve_row)
        (rw (lock-bind n w (reserve_unfinished settings n payload)) (
          rw (held, reserve_unfinished)
            (ap
              (λ (d : Db E).
                (redeliver (E.outbox.select (redelivers n) d.outbox) n payload >>= λ _. pure none)
                  (has_active_processing_lock n w).1)
              (lock_db n w))))

  -- A message for a notification that is under an active lock changes neither the notification nor
  -- its history. With no outstanding event for it the outbox gains one, which is due when the lock
  -- ends; with one such event nothing changes; with more than one `reserve` raises.
  pub reserve-Deferred :
      E.notifications.get id w.db.notifications ≡ some n
      → is_final_status n.status ≡ false
      → active n (E.clock w.reads) ≡ true
      → Deferred n payload until
          (E.outbox.select (redelivers n) w.db.outbox)
          w
          (reserve settings id payload w)
  unfolding reserve
  reserve-Deferred found going held =
      transaction-Deferred n payload until lock w (has_active_processing_lock n w).1 (lock_db n w)
        (λ v. reserve_found settings (E.notifications.get id v.db.notifications) payload v)
        (E.outbox.select (redelivers n) w.db.outbox) (rw found (block_lem going held))
