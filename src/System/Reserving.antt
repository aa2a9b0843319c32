-- ===== src/System/Reserving.antt =====
-- What holds of every reservation of an attempt because it holds of each of its writes.
use notification_test.Base.{
  ◌≤◌, ℕ, ◌≡◌, inl, inr, refl, String, Bool, true, false, Option, none, some, List, [], ◌∷◌, arith,
  Bool-cases, leb,
}
use notification_test.Exec.{ok, ◌>>=◌, >>=-eq, pure}
use notification_test.Models.{Notification, OutboxEvent, Payload, is_final_status}
use notification_test.Platform.{Env}
use notification_test.Config.{Settings}
use notification_test.World.{World, transaction}
use notification_test.Worker.OutboxEvents.{add_retry}
use notification_test.Worker.Attempts.{
  redelivers, redeliver, schedule_unless, seconds_left, ensure_deferred_redelivery,
  drop_before_provider, begin_attempt, reserve_unfinished, reserve_row, reserve_found, reserve,
  has_active_processing_lock,
}
use notification_test.Worker.Attempts.Rows.{active, lock-bind, lock_db}
use notification_test.System.Changes.{Change, stays, then_pure, transaction-Change}

module _ {E : Env} where
  seconds_left_lem :
      (lock : Option ℕ) (w : World E)
      → (d : ℕ) × ((seconds_left lock w).0 ≡ ok d)
        × ((seconds_left lock w).1.db ≡ w.db)
        × ((seconds_left lock w).1.draws ≡ w.draws)
        × (w.reads ≤ (seconds_left lock w).1.reads)
  unfolding seconds_left
  seconds_left_lem none w = (_, refl, refl, refl, omega arith)
  seconds_left_lem (some until) w = (_, refl, refl, refl, omega arith)

  lock_draws : (n : Notification) (w : World E) → (has_active_processing_lock n w).1.draws ≡ w.draws
  unfolding has_active_processing_lock
  lock_draws n w = ground arith

  lock_reads : (n : Notification) (w : World E) → w.reads ≤ (has_active_processing_lock n w).1.reads
  unfolding has_active_processing_lock
  lock_reads n w = ground arith

module _ {E : Env} {Q : World E → World E → Type 0} (c : Change Q) (settings : Settings)
    (n : Notification) (payload : Payload)
    (puts_off : (delay : ℕ) (at : Option ℕ) (error reason : Option String) (w : World E)
      → Q w (add_retry n payload delay at error reason w).1)
    (drops : (w : World E) → Q w (drop_before_provider n w).1)
    (begins : (w : World E) → Q w (begin_attempt settings n w).1) where
  schedule_unless-Change :
      (found : Option OutboxEvent) (w : World E) → Q w (schedule_unless found n payload w).1
  unfolding schedule_unless
  schedule_unless-Change (some x) w = c.same w w (stays w) refl
  schedule_unless-Change none w =
      let lock = n.processing_lock_until in
      let reason : Option String = some "processing_lock_active" in
      let (d, ran, same, draws, reads) = seconds_left_lem lock w in
      let w₁ = (seconds_left lock w).1 in
      let w₂ = (add_retry n payload d lock none reason w₁).1 in
      rw
        (>>=-eq (seconds_left lock)
          (λ (delay : ℕ). add_retry n payload delay lock none reason >>= λ _. pure tt) w ran)
        (rw (then_pure {B = Unit {0}} (add_retry n payload d lock none reason) tt w₁)
          (c.later w w₁ w₂ same draws reads (puts_off d lock none reason w₁)))

  redeliver-Change : (rows : List OutboxEvent) (w : World E) → Q w (redeliver rows n payload w).1
  unfolding redeliver
  redeliver-Change [] w = schedule_unless-Change none w
  redeliver-Change (x ∷ []) w = schedule_unless-Change (some x) w
  redeliver-Change (x ∷ y ∷ rows) w = c.same w w (stays w) refl

  ensure-Change : (w : World E) → Q w (ensure_deferred_redelivery n payload w).1
  unfolding ensure_deferred_redelivery
  ensure-Change w = redeliver-Change (E.outbox.select (redelivers n) w.db.outbox) w

  unfinished-Change :
      (locked : Bool) (w : World E) → Q w (reserve_unfinished settings n payload locked w).1
  unfolding reserve_unfinished
  unfinished-Change true w =
      rw (then_pure {B = Option Notification} (ensure_deferred_redelivery n payload) none w)
        (ensure-Change w)
  unfinished-Change false w = elim (Bool-cases (leb settings.max_retries n.attempts)) [
    | inl spent ↦
        rw spent
          (rw (then_pure {B = Option Notification} (drop_before_provider n) none w) (drops w))
    | inr left ↦ rw left (begins w)
  ]

  pub reserve_row-Change : (w : World E) → Q w (reserve_row settings n payload w).1
  unfolding reserve_row
  reserve_row-Change w = elim (Bool-cases (is_final_status n.status)) [
    | inl final ↦ rw (final, reserve_row) (c.same w w (stays w) refl)
    | inr going ↦
        rw (going, reserve_row)
          (rw (lock-bind n w (reserve_unfinished settings n payload)) (
            c.later w (has_active_processing_lock n w).1
              (reserve_unfinished settings n payload (active n (E.clock w.reads))
                (has_active_processing_lock n w).1).1
              (lock_db n w) (lock_draws n w) (lock_reads n w)
              (unfinished-Change (active n (E.clock w.reads)) (has_active_processing_lock n w).1)))
  ]

-- The transaction around it.
pub reserve-Change :
    {E : Env} {Q : World E → World E → Type 0} (c : Change Q) (settings : Settings) (id : ℕ)
    (payload : Payload) (w : World E)
    → ((n : Notification)
        → E.notifications.get id w.db.notifications ≡ some n
        → Q w (reserve_row settings n payload w).1)
    → Q w (reserve settings id payload w).1
unfolding reserve
reserve-Change {E} {Q} c settings id payload w rows =
    go (E.notifications.get id w.db.notifications) refl
  where
    go :
        (found : Option Notification)
        → E.notifications.get id w.db.notifications ≡ found
        → Q w (transaction (reserve_found settings found payload) w).1
    go none missing = c.same w w (stays w) refl
    go (some n) found = transaction-Change c (reserve_row settings n payload) w (rows n found)
