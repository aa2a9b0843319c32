-- ===== src/World.antt =====
-- The state that the services share: the five tables (app/db), and how often the clock was read and
-- uuid4 called. `session.add` writes the row at once, and a transaction that raises undoes it.
use notification_test.Base.{ℕ, suc, Option, String, ◌≡◌, arith}
use notification_test.Exec.{Exec, ok, err, Error, ◌>>=◌, ◌>>◌, pure, modify}
use notification_test.Models.{
  NotificationBatch, Notification, NotificationStatus, NotificationStatusHistory, IdempotencyKey,
  OutboxEvent,
}
use notification_test.Platform.{Env}

pub record Db (E : Env) : Type 0 where
  pub batches : E.batches.State
  pub notifications : E.notifications.State
  pub history : E.history.State
  pub keys : E.keys.State
  pub outbox : E.outbox.State

pub record World (E : Env) : Type 0 where
  pub db : Db E
  pub reads : ℕ
  pub draws : ℕ
  pub redis : E.redis.State

-- The shared state together with that of an object outside of it: the providers or the broker.
pub record Node (E : Env) (S : Type 0) : Type 0 where
  pub world : World E
  pub outside : S

abbrev pub on_world : {E : Env} {S A : Type 0} → Exec (World E) A → Exec (Node E S) A
on_world m s = let (r, w) = m s.world in (r, record s { world = w })

module _ {E : Env} where
  abbrev pub utcnow : Exec (World E) ℕ
  utcnow w = (ok (E.clock w.reads), record w { reads = suc w.reads })

  abbrev pub draw_uuid : Exec (World E) ℕ
  draw_uuid w = (ok (E.uuid4 w.draws), record w { draws = suc w.draws })

  -- `async with session.begin()`: commit at the end, roll back when the block raises.
  abbrev pub transaction : {A : Type 0} → Exec (World E) A → Exec (World E) A
  transaction m w =
      let (r, w') = m w in elim r [ ok a ↦ (ok a, w') | err e ↦ (err e, record w' { db = w.db }) ]

  abbrev pub put_notification : Notification → World E → World E
  put_notification n w = record w {
    db = record w.db { notifications = E.notifications.put n w.db.notifications };
  }

  abbrev pub put_history : NotificationStatusHistory → World E → World E
  put_history h w = record w { db = record w.db { history = E.history.put h w.db.history } }

  abbrev pub put_event : OutboxEvent → World E → World E
  put_event e w = record w { db = record w.db { outbox = E.outbox.put e w.db.outbox } }

  abbrev pub put_batch : NotificationBatch → World E → World E
  put_batch b w = record w { db = record w.db { batches = E.batches.put b w.db.batches } }

  abbrev pub put_key : IdempotencyKey → World E → World E
  put_key k w = record w { db = record w.db { keys = E.keys.put k w.db.keys } }

  -- The write of a changed row; `updated_at` has `onupdate=utcnow`.
  unfoldable pub save_notification : Notification → Exec (World E) Notification
  save_notification n = do
    now ← utcnow
    let saved : Notification = record n { updated_at = now }
    modify (put_notification saved)
    pure saved

  -- `session.add(NotificationStatusHistory(…))`, with the defaults of `id` and `created_at`.
  unfoldable pub add_history : ℕ → NotificationStatus → Option String → Exec (World E) (Unit {0})
  add_history notification_id status error_message = do
    id ← draw_uuid
    now ← utcnow
    modify (
        put_history (record {
          id = id;
          notification_id = notification_id;
          status = status;
          error_message = error_message;
          created_at = now;
        }))

module _ {E : Env} {A : Type 0} (block : Exec (World E) A) (w : World E) where
  -- A transaction that returns is its block; one that raises leaves the tables alone.
  pub transaction_ok :
      {a : A}
      → (transaction block w).0 ≡ ok a
      → ((block w).0 ≡ ok a) × (transaction block w ≡ block w)
  transaction_ok h = ground arith

  pub transaction_err :
      {e : Error} → (transaction block w).0 ≡ err e → (transaction block w).1.db ≡ w.db
  transaction_err h = ground arith
