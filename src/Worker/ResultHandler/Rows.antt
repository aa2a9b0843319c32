-- ===== src/Worker/ResultHandler/Rows.antt =====
-- What `apply` does to the row of its notification, on every branch.
use notification_test.Base.{
  ℕ, ◌≡◌, inl, inr, refl, true, false, ◌&&◌, Option, none, some, arith, Bool-cases, Option-cases,
}
use notification_test.Exec.{ok, ◌>>=◌, no_result_found, or_raise, Result-cases}
use notification_test.Models.{Notification, Payload, is_final_status}
use notification_test.Platform.{Env}
use notification_test.Providers.{ProviderResult}
use notification_test.Services.RetryPolicy.{RetryPolicy, decide}
use notification_test.World.{World, transaction}
use notification_test.Worker.OutboxEvents.{add_retry, add_failed}
use notification_test.Worker.RowSteps.{
  waiting, finished, Writes, Evolves, Evolves-refl, Writes-Evolves, transaction-Writes,
}
use notification_test.Worker.ResultHandler.{
  mark_delivered, schedule_retry, schedule_retry_if_needed, drop, apply_row, apply, retry_delay,
}

-- The row as `apply` has it after a failure.
abbrev pub failed_row : Notification → ProviderResult → Notification
failed_row n result = record n { last_error = result.error_message; processing_lock_until = none }

module _ {E : Env} (policy : RetryPolicy) (n : Notification) (payload : Payload)
    (result : ProviderResult) where
  delivered-Writes :
      (m : ℕ) (w : World E)
      → is_final_status n.status ≡ false
      → Writes E m n w.db.notifications (mark_delivered n result w).1.db.notifications
  unfolding mark_delivered
  delivered-Writes m w h = inr (_, finished h refl refl, ground arith, refl)

  retry-Writes :
      (m delay : ℕ) (w : World E)
      → is_final_status n.status ≡ false
      → Writes E m n w.db.notifications
          (schedule_retry (failed_row n result) payload result delay w).1.db.notifications
  unfolding schedule_retry add_retry
  retry-Writes m delay w h = inr (_, waiting h refl refl, ground arith, refl)

  pub retry_returns :
      (delay : ℕ) (w : World E)
      → (schedule_retry (failed_row n result) payload result delay w).0 ≡ ok true
  unfolding schedule_retry add_retry
  retry_returns delay w = refl

  drop-Writes :
      (m : ℕ) (w : World E)
      → is_final_status n.status ≡ false
      → Writes E m n w.db.notifications
          (drop (failed_row n result) payload result.error_message w).1.db.notifications
  unfolding drop add_failed
  drop-Writes m w h = inr (_, finished h refl refl, ground arith, refl)

  failed-Writes :
      (m : ℕ) (w : World E)
      → is_final_status n.status ≡ false
      → result.success && result.delivered ≡ false
      → Writes E m n w.db.notifications (apply_row policy n payload result w).1.db.notifications
  unfolding apply_row schedule_retry_if_needed
  failed-Writes m w going h = elim (Result-cases (decide policy n.attempts)) [
    | inr (e, raised) ↦ ground (arith, drop-Writes m w going)
    | inl (d, decided) ↦ elim (Option-cases (retry_delay d)) [
      | inl no_delay ↦ ground (arith, drop-Writes m w going)
      | inr (delay, has_delay) ↦
          ground (arith, drop-Writes m w going, retry-Writes m delay w going, retry_returns delay w)
    ]
  ]

  pub apply_row-Writes :
      (m : ℕ) (w : World E)
      → Writes E m n w.db.notifications (apply_row policy n payload result w).1.db.notifications
  unfolding apply_row
  apply_row-Writes m w = elim (Bool-cases (is_final_status n.status)) [
    | inl final ↦ rw (final, apply_row) (inl refl)
    | inr going ↦ elim (Bool-cases (result.success && result.delivered)) [
      | inl arrived ↦ rw (going, apply_row) (rw arrived (delivered-Writes m w going))
      | inr failed ↦ failed-Writes m w going failed
    ]
  ]

-- Whatever `apply` returns or raises on a session that loads the row, the row of every notification is as it was or has made one
-- step of the state machine, no row is lost and none is added. The step is never a new attempt, so
-- it respects every limit on the attempts.
pub apply-Evolves :
    {E : Env} (m : ℕ) (policy : RetryPolicy) (id j : ℕ) (payload : Payload)
    (result : ProviderResult) (w : World E)
    → Evolves m
        (E.notifications.get j w.db.notifications)
        (E.notifications.get j (apply policy id payload result w).1.db.notifications)
unfolding apply
apply-Evolves {E} m policy id j payload result w =
    go (E.notifications.get id w.db.notifications) refl
  where
    go :
        (found : Option Notification)
        → E.notifications.get id w.db.notifications ≡ found
        → Evolves m (E.notifications.get j w.db.notifications) (
            E.notifications.get j
              (transaction
                (or_raise found no_result_found >>= λ n. apply_row policy n payload result)
                w).1.db.notifications)
    go none missing = Evolves-refl m _
    go (some n) found = Writes-Evolves E m j id n _ _ found (
        transaction-Writes m n w (apply_row policy n payload result)
          (apply_row-Writes policy n payload result m w))
