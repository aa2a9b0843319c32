-- ===== src/Tests/Attempts.antt =====
-- The theorems on single calls of the worker's services, on the sample platform.
use notification_test.Base.{◌≡◌, refl, false, none, some, [], ◌∷◌}
use notification_test.Exec.{ok}
use notification_test.Models.{Notification, sent, delivered, temporary}
use notification_test.Providers.{ProviderResult}
use notification_test.Services.RetryPolicy.{RetryPolicy}
use notification_test.Worker.RowSteps.{Evolves}
use notification_test.Worker.Attempts.{
  reserve, reserve_row, reserve_unfinished, begin_attempt, has_active_processing_lock, redelivers,
}
use notification_test.Worker.ResultHandler.Session.{apply_loaded}
use notification_test.Worker.ResultHandler.Session.Late.{Touched, apply_loaded-Touched}
use notification_test.Worker.Attempts.Rows.{reserve-Evolves}
use notification_test.Worker.Attempts.Outcomes.{reserve_hands_out, Begun, begun_at}
use notification_test.Worker.Attempts.Deferral.{reserve-Deferred, Deferred}
use notification_test.Tests.Sample.{sample, settings, waiting_row, holding}

abbrev pub sent_row : Notification
sent_row = record waiting_row {
  attempts = 1;
  status = sent;
  processing_lock_until = some 60000000;
  updated_at = 2000;
}

handed_out_lem : (reserve settings 1 [] (holding waiting_row)).0 ≡ ok (some sent_row)
unfolding reserve reserve_row reserve_unfinished begin_attempt has_active_processing_lock
handed_out_lem = refl

reserve_hands_out_example :
    (n : Notification) × (sample.notifications.get 1 (holding waiting_row).db.notifications
      ≡ some n)
    × Begun settings 0 (sample.clock (begun_at n 0)) n sent_row
    × (sample.notifications.get 1 (reserve settings 1 [] (holding waiting_row)).1.db.notifications
        ≡ some sent_row)
reserve_hands_out_example =
    reserve_hands_out settings 1 [] (holding waiting_row) sent_row handed_out_lem

reserve-Evolves_example :
    Evolves 3
      (some waiting_row)
      (sample.notifications.get 1 (reserve settings 1 [] (holding waiting_row)).1.db.notifications)
reserve-Evolves_example = reserve-Evolves settings 1 1 [] (holding waiting_row)

abbrev pub failure : ProviderResult
failure = record {
  success = false;
  delivered = false;
  provider_message_id = none;
  error_type = some temporary;
  error_message = some "timeout";
}

abbrev pub policy : RetryPolicy
policy = record { max_retries = 3; backoff_seconds = 5 ∷ 30 ∷ [] }

reserve-Deferred_example :
    Deferred sent_row [] 60000000
      (sample.outbox.select (redelivers sent_row) [])
      (holding sent_row)
      (reserve settings 1 [] (holding sent_row))
reserve-Deferred_example =
    reserve-Deferred settings 1 sent_row [] 60000000 refl (holding sent_row) refl refl refl

-- The notification was delivered after the object was loaded.
abbrev delivered_since : Notification
delivered_since = record sent_row { status = delivered; provider_message_id = some "sms-1" }

apply_loaded-Touched_example : Touched (some delivered_since) (
    sample.notifications.get 1
      (apply_loaded policy sent_row 1 [] failure (holding delivered_since)).1.db.notifications)
apply_loaded-Touched_example =
    apply_loaded-Touched policy sent_row [] failure (holding delivered_since) 1
