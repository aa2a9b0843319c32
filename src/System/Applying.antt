-- ===== src/System/Applying.antt =====
-- What holds of every result that is applied because it holds of each of its writes.
use notification_test.Base.{
  ℕ, ◌≡◌, inl, inr, refl, false, ◌&&◌, Option, none, some, arith, Bool-cases, Option-cases,
}
use notification_test.Exec.{Result, Result-cases, ◌>>=◌, or_raise, no_result_found}
use notification_test.Models.{Notification, Payload, is_final_status}
use notification_test.Platform.{Env}
use notification_test.World.{World, transaction}
use notification_test.Providers.{ProviderResult}
use notification_test.Services.RetryPolicy.{RetryPolicy, decide}
use notification_test.Worker.ResultHandler.{
  mark_delivered, schedule_retry, schedule_retry_if_needed, drop, apply_row, apply, retry_delay,
  is_temporary,
}
use notification_test.Worker.ResultHandler.Rows.{failed_row, retry_returns}
use notification_test.System.Changes.{Change, stays, transaction-Change}

module _ {E : Env} {Q : World E → World E → Type 0} (c : Change Q) (policy : RetryPolicy)
    (n : Notification) (payload : Payload) (result : ProviderResult)
    (delivers : (w : World E) → Q w (mark_delivered n result w).1)
    (drops : (w : World E) → Q w (drop (failed_row n result) payload result.error_message w).1)
    (waits : (delay : ℕ) (w : World E)
      → Q w (schedule_retry (failed_row n result) payload result delay w).1) where
  failed-Change :
      (w : World E)
      → is_final_status n.status ≡ false
      → result.success && result.delivered ≡ false
      → Q w (apply_row policy n payload result w).1
  unfolding apply_row schedule_retry_if_needed
  failed-Change w going h = elim (Bool-cases (is_temporary result.error_type)) [
    | inr permanent ↦
        let same : (apply_row policy n payload result w).1 ≡ dropping.1 =
          ground (arith, going, h, permanent) in
        rw same gone
    | inl temporary ↦ elim (Result-cases (decide policy n.attempts)) [
      | inr (e, raised) ↦
          let same : (apply_row policy n payload result w).1 ≡ w =
            ground (arith, going, h, temporary, raised) in
          rw same (c.same w w (stays w) refl)
      | inl (d, decided) ↦ elim (Option-cases (retry_delay d)) [
        | inl no_delay ↦
            let same : (apply_row policy n payload result w).1 ≡ dropping.1 =
              ground (arith, going, h, temporary, decided, no_delay) in
            rw same gone
        | inr (delay, has_delay) ↦
            let same : (apply_row policy n payload result w).1
                ≡ (schedule_retry (failed_row n result) payload result delay w).1 =
              ground (
                arith,
                going,
                h,
                temporary,
                decided,
                has_delay,
                retry_returns policy n payload result delay w,
              ) in
            rw same (waits delay w)
      ]
    ]
  ]
    where
      dropping : Result (Unit {0}) × World E
      dropping = drop (failed_row n result) payload result.error_message w

      gone : Q w dropping.1
      gone = drops w

  pub apply_row-Change : (w : World E) → Q w (apply_row policy n payload result w).1
  unfolding apply_row
  apply_row-Change w = elim (Bool-cases (is_final_status n.status)) [
    | inl final ↦ rw (final, apply_row) (c.same w w (stays w) refl)
    | inr going ↦ elim (Bool-cases (result.success && result.delivered)) [
      | inl arrived ↦ rw (going, apply_row) (rw arrived (delivers w))
      | inr failed ↦ failed-Change w going failed
    ]
  ]

-- The transaction around it.
pub apply-Change :
    {E : Env} {Q : World E → World E → Type 0} (c : Change Q) (policy : RetryPolicy) (id : ℕ)
    (payload : Payload) (result : ProviderResult) (w : World E)
    → ((n : Notification)
        → E.notifications.get id w.db.notifications ≡ some n
        → Q w (apply_row policy n payload result w).1)
    → Q w (apply policy id payload result w).1
unfolding apply
apply-Change {E} {Q} c policy id payload result w rows =
    go (E.notifications.get id w.db.notifications) refl
  where
    go :
        (found : Option Notification)
        → E.notifications.get id w.db.notifications ≡ found
        → Q w
            (transaction
              (or_raise found no_result_found >>= λ n. apply_row policy n payload result)
              w).1
    go none missing = c.same w w (stays w) refl
    go (some n) found = transaction-Change c (apply_row policy n payload result) w (rows n found)
