-- ===== src/Worker/Attempts/Outstanding.antt =====
-- Events of the outbox that will bring a notification back to the workers.
use notification_test.Base.{ℕ, ◌≡◌, ◌⊎◌, inr, true, some, arith, Has, eq_iff, ==_iff, le→leb}
use notification_test.Models.{Notification, OutboxEvent, pending, is_final_status}
use notification_test.Platform.{Env}
use notification_test.World.{Db}
use notification_test.Worker.Attempts.{redelivers}

-- The notification is final, or some outstanding event brings it back when its lock ends or later.
abbrev pub Followed : (E : Env) → Db E → Notification → Type 0
Followed E d n =
    (is_final_status n.status ≡ true)
    ⊎ ((e : OutboxEvent) × Has e (E.outbox.select (redelivers n) d.outbox))

pub redelivers_at :
    (n : Notification) (e : OutboxEvent) (until : ℕ)
    → e.aggregate_id ≡ n.id
    → e.event_type ≡ "notification.retry_scheduled"
    → e.status ≡ pending
    → e.available_at ≡ some until
    → n.processing_lock_until ≡ some until
    → redelivers n e ≡ true
unfolding redelivers
redelivers_at n e until own type open_ due lock =
    rw (open_, due)
      (rw lock (
        ground (
          arith,
          own,
          type,
          ==_iff e.aggregate_id n.id,
          eq_iff e.event_type "notification.retry_scheduled",
          le→leb until until,
        )))

-- An event that was just written.
pub put-Followed :
    (E : Env) (d : Db E) (s : E.outbox.State) (n : Notification) (e : OutboxEvent)
    → redelivers n e ≡ true
    → d.outbox ≡ E.outbox.put e s
    → Followed E d n
put-Followed E d s n e brings written =
    let here : E.outbox.get e.id d.outbox ≡ some e =
      ground (arith, written, E.outbox.get-put e.id e s, ==_iff e.id e.id) in
    inr (e, E.outbox.select_complete (redelivers n) d.outbox e.id e here brings)
