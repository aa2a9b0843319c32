-- ===== src/Worker/ResultHandler.antt =====
-- app/worker/result_handler.py: `ProviderResultHandler`, which records what the provider answered.
pub mod Rows
pub mod Session
pub mod Outcomes
use notification_test.Base.{
  ℕ, ◌+◌, String, Bool, true, false, not, ◌&&◌, ◌||◌, Option, none, some, if◌then◌else◌,
}
use notification_test.Exec.{
  Exec, ok, err, no_result_found, ◌>>=◌, ◌>>◌, pure, raise, lift, or_raise,
}
use notification_test.Models.{
  Notification, NotificationStatus, delivered, dropped, ProviderErrorType, temporary, permanent,
  Payload, is_final_status,
}
use notification_test.Platform.{Env}
use notification_test.World.{World, utcnow, transaction, save_notification, add_history}
use notification_test.Config.{seconds}
use notification_test.Providers.{ProviderResult}
use notification_test.Services.RetryPolicy.{RetryPolicy, RetryDecision, decide}
use notification_test.Worker.OutboxEvents.{add_failed, add_retry}
use notification_test.Worker.Attempts.{get_notification}

-- `error_type == "temporary"`
abbrev pub is_temporary : Option ProviderErrorType → Bool
is_temporary (some temporary) = true
is_temporary _ = false

-- The delay of a decision to retry: `should_retry and delay_seconds is not None`.
abbrev pub retry_delay : RetryDecision → Option ℕ
retry_delay d = if d.should_retry then d.delay_seconds else none

module _ {E : Env} where
  unfoldable pub mark_delivered : Notification → ProviderResult → Exec (World E) (Unit {0})
  unfolding save_notification add_history
  mark_delivered n result = do
    add_history n.id delivered none
    save_notification (record n {
      status = delivered;
      provider_message_id = result.provider_message_id;
      last_error = none;
      processing_lock_until = none;
    })
    pure tt

  -- The notification waits for `delay` seconds under its processing lock.
  unfoldable pub schedule_retry : Notification → Payload → ProviderResult → ℕ → Exec (World E) Bool
  unfolding save_notification
  schedule_retry n payload result delay = do
    now ← utcnow
    let waiting : Notification = record n { processing_lock_until = some (now + seconds delay) }
    add_retry waiting payload delay waiting.processing_lock_until result.error_message none
    save_notification waiting
    pure true

  abbrev pub schedule_retry_after :
      Notification → Payload → ProviderResult → Option ℕ → Exec (World E) Bool
  schedule_retry_after n payload result none = pure false
  schedule_retry_after n payload result (some delay) = schedule_retry n payload result delay

  -- `_schedule_retry_if_needed`
  unfoldable pub schedule_retry_if_needed :
      RetryPolicy → Notification → Payload → ProviderResult → Exec (World E) Bool
  schedule_retry_if_needed policy n payload result =
      if is_temporary result.error_type
      then (do
        decision ← lift (decide policy n.attempts)
        schedule_retry_after n payload result (retry_delay decision))
      else pure false

  -- `_drop`
  unfoldable pub drop : Notification → Payload → Option String → Exec (World E) (Unit {0})
  unfolding save_notification add_history
  drop n payload error_message = do
    let dropped_row : Notification = record n { status = dropped; processing_lock_until = none }
    add_history n.id dropped error_message
    add_failed dropped_row (some payload) error_message
    save_notification dropped_row
    pure tt

  -- `apply` on the locked row.
  unfoldable pub apply_row :
      RetryPolicy → Notification → Payload → ProviderResult → Exec (World E) (Unit {0})
  apply_row policy n payload result =
      if is_final_status n.status
      then pure tt
      else if result.success && result.delivered
      then mark_delivered n result
      else do
        let failed_row : Notification = record n {
          last_error = result.error_message;
          processing_lock_until = none;
        }
        retried ← schedule_retry_if_needed policy failed_row payload result
        if retried then pure tt else drop failed_row payload result.error_message

  unfoldable pub apply : RetryPolicy → ℕ → Payload → ProviderResult → Exec (World E) (Unit {0})
  apply policy id payload result = transaction (do
    found ← get_notification id
    n ← or_raise found no_result_found
    apply_row policy n payload result)
