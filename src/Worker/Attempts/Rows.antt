-- ===== src/Worker/Attempts/Rows.antt =====
-- What `reserve` does to the row of its notification, on every branch.
use notification_test.Base.{
  ℕ, ◌<◌, ◌≡◌, inl, inr, refl, Bool, false, Option, none, some, arith, ◌&&◌, Bool-cases,
}
use mathlib.Core.Path.{subst}
use notification_test.Exec.{Exec, ok, ◌>>=◌}
use notification_test.Models.{Notification, Payload, is_final_status}
use notification_test.Platform.{Env}
use notification_test.Config.{Settings}
use notification_test.World.{World, transaction}
use notification_test.Worker.OutboxEvents.{add_retry, add_failed}
use notification_test.Worker.RowSteps.{
  begun, finished, Writes, Evolves, Evolves-refl, Writes-Evolves, transaction-Writes,
}
use notification_test.Worker.Attempts.{
  ensure_deferred_redelivery, redeliver, schedule_unless, seconds_left, drop_before_provider,
  begin_attempt, reserve_unfinished, reserve_row, reserve, reserve_found,
  has_active_processing_lock, is_sent, is_future,
}

module _ {E : Env} (settings : Settings) (n : Notification) (payload : Payload) (w : World E) where
  notifications-ensure :
      (ensure_deferred_redelivery n payload w).1.db.notifications ≡ w.db.notifications
  unfolding ensure_deferred_redelivery redeliver schedule_unless seconds_left add_retry
  notifications-ensure = ground arith

  drop-Writes :
      is_final_status n.status ≡ false
      → Writes E settings.max_retries n w.db.notifications
          (drop_before_provider n w).1.db.notifications
  unfolding drop_before_provider add_failed
  drop-Writes h = inr (_, finished h refl refl, ground arith, refl)

  begin-Writes :
      is_final_status n.status ≡ false
      → n.attempts < settings.max_retries
      → Writes E settings.max_retries n w.db.notifications
          (begin_attempt settings n w).1.db.notifications
  unfolding begin_attempt
  begin-Writes h lt = inr (_, begun h lt (omega arith) refl, ground arith, refl)

-- What the test of the processing lock says, at the time that it reads.
abbrev pub active : Notification → ℕ → Bool
active n now = is_sent n.status && is_future n.processing_lock_until now

module _ {E : Env} (n : Notification) (w : World E) where
  pub lock_result :
      has_active_processing_lock n w
      ≡ (ok (active n (E.clock w.reads)), (has_active_processing_lock n w).1)
  unfolding has_active_processing_lock
  lock_result = ground arith

  -- The rest of a block runs on that answer.
  pub lock-bind :
      {A : Type 0} (f : Bool → Exec (World E) A)
      → (has_active_processing_lock n >>= f) w
        ≡ f (active n (E.clock w.reads)) (has_active_processing_lock n w).1
  lock-bind f = rw (lock_result, ◌>>=◌)

  pub lock_db : (has_active_processing_lock n w).1.db ≡ w.db
  unfolding has_active_processing_lock
  lock_db = ground arith

module _ {E : Env} (settings : Settings) (n : Notification) (payload : Payload) where
  -- The three ways on after the lock was read, the state after that being `w`.
  locked-Writes :
      (locked : Bool) (w : World E)
      → is_final_status n.status ≡ false
      → Writes E settings.max_retries n w.db.notifications
          (reserve_unfinished settings n payload locked w).1.db.notifications
  unfolding reserve_unfinished
  locked-Writes locked w h = ground (
    arith,
    notifications-ensure settings n payload w,
    drop-Writes settings n payload w h,
    begin-Writes settings n payload w h,
  )

  row-Writes :
      (w : World E)
      → Writes E settings.max_retries n w.db.notifications
          (reserve_row settings n payload w).1.db.notifications
  unfolding reserve_row has_active_processing_lock
  row-Writes w = elim (Bool-cases (is_final_status n.status)) [
    | inl final ↦ rw (final, reserve_row) (inl refl)
    | inr going ↦
        let after = (has_active_processing_lock n w).1 in
        let locked = active n (E.clock w.reads) in
        rw (going, reserve_row)
          (rw (lock-bind n w (reserve_unfinished settings n payload)) (
            subst
              (λ d.
                Writes E settings.max_retries n d.notifications
                  (reserve_unfinished settings n payload locked after).1.db.notifications)
              (lock_db n w) (locked-Writes locked after going)))
  ]

-- Whatever `reserve` returns or raises, the row of every notification is as it was or has made one
-- step of the state machine, no row is lost and none is added.
pub reserve-Evolves :
    {E : Env} (settings : Settings) (id j : ℕ) (payload : Payload) (w : World E)
    → Evolves settings.max_retries
        (E.notifications.get j w.db.notifications)
        (E.notifications.get j (reserve settings id payload w).1.db.notifications)
unfolding reserve
reserve-Evolves {E} settings id j payload w = go (E.notifications.get id w.db.notifications) refl
  where
    go :
        (found : Option Notification)
        → E.notifications.get id w.db.notifications ≡ found
        → Evolves settings.max_retries (E.notifications.get j w.db.notifications) (
            E.notifications.get j
              (transaction (reserve_found settings found payload) w).1.db.notifications)
    go none missing = Evolves-refl settings.max_retries _
    go (some n) found = Writes-Evolves E settings.max_retries j id n _ _ found (
        transaction-Writes settings.max_retries n w (reserve_row settings n payload)
          (row-Writes settings n payload w))
