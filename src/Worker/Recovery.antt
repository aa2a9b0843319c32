-- ===== src/Worker/Recovery.antt =====
-- app/worker with app/providers/mock.py: a notification whose provider fails once is delivered by the
-- next round.
use notification_test.Base.{
  ℕ, suc, ◌<◌, ◌≡◌, inl, inr, refl, sym, ap, ◌∙◌, String, true, false, Option, none, some, List,
  ◌∷◌, arith, some_inj, eq_iff,
}
use notification_test.Exec.{Result, ok}
use notification_test.Models.{Notification, Payload, sent, delivered, is_final_status}
use notification_test.Platform.{Env}
use notification_test.Config.{Settings}
use notification_test.World.{Node}
use notification_test.Providers.{ProviderResult}
use notification_test.Providers.Mock.{Chance, Mocks, is_among, send_sms, build_provider}
use notification_test.Providers.Mock.Once.{Answers, once_lem}
use notification_test.Worker.Attempts.Rows.{active}
use notification_test.Worker.ResultHandler.Outcomes.{Outcome, arrived, retried, given_up}
use notification_test.Worker.Processor.{Send, notification_id, find_provider, process}
use notification_test.Worker.Processor.Calls.{outcome}
use notification_test.Worker.Processor.Sent.{process-Attempt}
use notification_test.Worker.Progress.{process-run, Keeps-row}
use notification_test.Worker.Runs.{run-Keeps}

-- The processor is given no provider of its own.
abbrev pub no_custom : String → Option (Send Mocks)
no_custom channel = none

sms_provider_lem :
    (chance : Chance) (channel : String)
    → channel ≡ "sms"
    → find_provider no_custom (build_provider chance) channel ≡ ok (send_sms chance)
unfolding build_provider
sms_provider_lem chance channel sms = rw sms refl

-- What a failed or a successful call makes of the row.
failed_row :
    (E : Env) (m d : ℕ) (ds : List ℕ) (now : ℕ) (n n' : Notification) (r : Result ProviderResult)
    → Answers false r
    → n.attempts < m
    → Outcome m d ds now n n' (outcome E r)
    → (n'.status ≡ n.status) × (n'.attempts ≡ n.attempts)
failed_row E m d ds now n n' r (result, e, failed, _, kind) left is = go (rw e at is)
  where
    go : Outcome m d ds now n n' result → (n'.status ≡ n.status) × (n'.attempts ≡ n.attempts)
    go (arrived arrives _ _ _ _) = ground (arith, arrives, failed)
    go (retried _ _ _ status attempts _ _) = (status, attempts)
    go (given_up _ (inl other) _ _ _) = ground (arith, other, kind refl)
    go (given_up _ (inr spent) _ _ _) = absurd (omega (arith, spent, left))

arrived_row :
    (E : Env) (m d : ℕ) (ds : List ℕ) (now : ℕ) (n n' : Notification) (r : Result ProviderResult)
    → Answers true r
    → Outcome m d ds now n n' (outcome E r)
    → n'.status ≡ delivered
arrived_row E m d ds now n n' r (result, e, succeeded, handed, _) is = go (rw e at is)
  where
    go : Outcome m d ds now n n' result → n'.status ≡ delivered
    go (arrived _ status _ _ _) = status
    go (retried fails _ _ _ _ _ _) = ground (arith, fails, succeeded, handed)
    go (given_up fails _ _ _ _) = ground (arith, fails, succeeded, handed)

module _ {E : Env} (chance : Chance) (settings : Settings) (d : ℕ) (ds : List ℕ)
    (delays : settings.retry_backoff_list ≡ d ∷ ds) (payload : Payload) (id : ℕ)
    (named : notification_id E payload ≡ ok id) where
  abbrev processing : Node E Mocks → Node E Mocks
  processing s = (process no_custom (build_provider chance) settings payload s).1

  -- The first round: the row waits with one attempt more, and the provider has noted the failure.
  first_round :
      (s : Node E Mocks) (n : Notification)
      → E.notifications.get id s.world.db.notifications ≡ some n
      → is_final_status n.status ≡ false
      → active n (E.clock s.world.reads) ≡ false
      → n.channel ≡ "sms"
      → suc n.attempts < settings.max_retries
      → s.outside.sms_provider.mode ≡ "temporary_error_once"
      → is_among (E.uuid_str id) s.outside.sms_provider.temporary_failures ≡ false
      → ((m : Notification) × (E.notifications.get id (processing s).world.db.notifications
            ≡ some m)
          × (m.status ≡ sent)
          × (m.attempts ≡ suc n.attempts)
          × (m.channel ≡ "sms"))
        × ((processing s).outside.sms_provider.mode ≡ "temporary_error_once")
        × (is_among (E.uuid_str id) (processing s).outside.sms_provider.temporary_failures ≡ true)
  first_round s n found going unlocked sms left mode fresh =
      let provided = sms_provider_lem chance n.channel sms in
      let attempt =
        process-Attempt no_custom (build_provider chance) settings d ds delays payload id named s n
          (send_sms chance) found going unlocked (omega arith) provided in
      let (answer, kept, noted) =
        once_lem chance n.subscriber_id n.message (E.uuid_str id) s.outside.sms_provider mode in
      let (status, attempts) =
        failed_row E settings.max_retries d ds attempt.now attempt.begun_row attempt.row _
          (rw fresh at answer) (omega (arith, attempt.begun.attempts)) attempt.result in
      let (cs, ran) =
        process-run no_custom (build_provider chance) settings id payload s n (send_sms chance)
          named found provided in
      let (m, here, same) =
        Keeps-row (E.notifications.get id s.world.db.notifications) _ n
          (run-Keeps settings cs s.world id) found in
      let one : m ≡ attempt.row = some_inj (sym here ∙ rw ran at attempt.stored) in
      (
        (
          attempt.row,
          attempt.stored,
          status ∙ attempt.begun.status,
          attempts ∙ attempt.begun.attempts,
          ap (λ (x : Notification). x.channel) (sym one) ∙ same.same.channel ∙ sms,
        ),
        rw attempt.outside kept,
        rw attempt.outside
            (noted (E.uuid_str id) ∙ ground (arith, eq_iff (E.uuid_str id) (E.uuid_str id))),
      )

  second_round :
      (t : Node E Mocks) (m : Notification)
      → E.notifications.get id t.world.db.notifications ≡ some m
      → is_final_status m.status ≡ false
      → active m (E.clock t.world.reads) ≡ false
      → m.channel ≡ "sms"
      → m.attempts < settings.max_retries
      → t.outside.sms_provider.mode ≡ "temporary_error_once"
      → is_among (E.uuid_str id) t.outside.sms_provider.temporary_failures ≡ true
      → (n' : Notification) × (E.notifications.get id (processing t).world.db.notifications
          ≡ some n')
        × (n'.status ≡ delivered)
  second_round t m found going unlocked sms left mode noted =
      let attempt =
        process-Attempt no_custom (build_provider chance) settings d ds delays payload id named t m
          (send_sms chance) found going unlocked left (sms_provider_lem chance m.channel sms) in
      let (answer, _, _) =
        once_lem chance m.subscriber_id m.message (E.uuid_str id) t.outside.sms_provider mode in
      (
        attempt.row,
        attempt.stored,
        arrived_row E settings.max_retries d ds attempt.now attempt.begun_row attempt.row _
            (rw noted at answer) attempt.result,
      )

  -- A notification by SMS that is neither final nor under an active lock and has two attempts left,
  -- whose mock provider fails once for every key and has not failed for this one yet, is delivered by
  -- the second of two messages for it, if the second is processed when the lock of the first is over
  -- and neither the row nor the providers changed in between. A delay has to be configured.
  pub process_twice :
      (s t : Node E Mocks) (n : Notification)
      → E.notifications.get id s.world.db.notifications ≡ some n
      → is_final_status n.status ≡ false
      → active n (E.clock s.world.reads) ≡ false
      → n.channel ≡ "sms"
      → suc n.attempts < settings.max_retries
      → s.outside.sms_provider.mode ≡ "temporary_error_once"
      → is_among (E.uuid_str id) s.outside.sms_provider.temporary_failures ≡ false
      → t.outside ≡ (process no_custom (build_provider chance) settings payload s).1.outside
      → E.notifications.get id t.world.db.notifications
        ≡ E.notifications.get id
            (process no_custom (build_provider chance) settings payload s).1.world.db.notifications
      → ((m : Notification)
          → E.notifications.get id t.world.db.notifications ≡ some m
          → active m (E.clock t.world.reads) ≡ false)
      → (n' : Notification) × (E.notifications.get id
            (process no_custom (build_provider chance) settings payload t).1.world.db.notifications
          ≡ some n')
        × (n'.status ≡ delivered)
  process_twice s t n found going unlocked sms left mode fresh outside row later =
      let ((m, stored, status, attempts, channel), kept, noted) =
        first_round s n found going unlocked sms left mode fresh in
      let here = row ∙ stored in
      second_round t m here (rw status refl) (later m here) channel (omega (arith, attempts))
        (rw outside kept) (rw outside noted)
