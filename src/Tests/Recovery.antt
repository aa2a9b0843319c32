-- ===== src/Tests/Recovery.antt =====
-- The theorem on a provider that fails once, on the sample platform.
use notification_test.Base.{◌≡◌, refl, Bool, true, false, Option, none, some, [], ◌∷◌, arith}
use notification_test.Models.{Notification, delivered}
use notification_test.World.{Node}
use notification_test.Providers.Mock.{Chance, Mocks, new_mocks, is_among, send, build_provider}
use notification_test.Services.RetryPolicy.{decide}
use notification_test.Worker.OutboxEvents.{add_retry}
use notification_test.Worker.ResultHandler.Session.{apply_loaded, flush, is_current}
use notification_test.Worker.ResultHandler.{apply_row, schedule_retry_if_needed, schedule_retry}
use notification_test.Worker.Attempts.{
  reserve, reserve_row, has_active_processing_lock, reserve_unfinished, begin_attempt,
}
use notification_test.Worker.Attempts.Rows.{active}
use notification_test.Worker.Processor.{notification_id, send_to_provider, process}
use notification_test.Worker.Recovery.{no_custom, process_twice}
use notification_test.Tests.Sample.{sample, settings, waiting_row, holding, tally}
use notification_test.Tests.Process.{body, named}

abbrev chance : Chance
chance = record { uuid4 = λ prefix n. tally n; is_low = λ prefix n. true; concat = λ a b. a }

abbrev before : Node sample Mocks
before = record {
  world = holding waiting_row;
  outside = new_mocks "temporary_error_once" "success";
}

abbrev failed_once : Node sample Mocks
failed_once = (process no_custom (build_provider chance) settings body before).1

-- A hundred seconds later.
abbrev later : Node sample Mocks
later = record failed_once { world = record failed_once.world { reads = 100000 } }

-- The lock is over.
abbrev held_later : Option Notification → Bool
held_later none = false
held_later (some m) = active m 100000000

released_lem : held_later (sample.notifications.get 1 later.world.db.notifications) ≡ false
unfolding process notification_id reserve reserve_row has_active_processing_lock reserve_unfinished
    begin_attempt send_to_provider build_provider send apply_loaded flush is_current apply_row
    schedule_retry_if_needed decide schedule_retry add_retry
released_lem = refl

over :
    (m : Notification)
    → sample.notifications.get 1 later.world.db.notifications ≡ some m
    → active m 100000000 ≡ false
over m e = rw e at released_lem

fresh : is_among (sample.uuid_str 1) [] ≡ false
unfolding is_among
fresh = refl

process_twice_example :
    (n' : Notification) × (sample.notifications.get 1
        (process no_custom (build_provider chance) settings body later).1.world.db.notifications
      ≡ some n')
    × (n'.status ≡ delivered)
process_twice_example =
    process_twice chance settings 5 (30 ∷ []) refl body 1 named before later waiting_row refl refl
      refl refl (omega arith) refl fresh refl refl over
