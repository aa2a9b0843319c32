-- ===== src/Tests/Rounds.antt =====
-- The theorems on whole rounds of the worker, on the sample platform.
use notification_test.Base.{
  ℕ, ◌≡◌, ◌⊎◌, refl, Bool, str_eq, if◌then◌else◌, true, false, none, some, List, [], ◌∷◌, arith,
}
use notification_test.Exec.{ok}
use notification_test.Models.{Notification, is_final_status}
use notification_test.Config.{Settings}
use notification_test.World.{Node}
use notification_test.Worker.ResultHandler.{apply}
use notification_test.Worker.ResultHandler.Outcomes.{Outcome, apply-Outcome}
use notification_test.Worker.Attempts.Outstanding.{Followed}
use notification_test.Worker.Processor.{process}
use notification_test.Worker.Processor.Rounds.{Advances, process-Advances}
use notification_test.Worker.Progress.{History, start, processed, History-final}
use notification_test.Worker.Loop.{Consumer, Body, object, poll, turn}
use notification_test.Worker.Loop.Settled.{Kept, turn-Kept}
use notification_test.Tests.Sample.{sample, settings, waiting_row, holding}
use notification_test.Tests.Attempts.{sent_row, policy, failure}
use notification_test.Tests.Process.{body, send, custom, build, node, named}

apply-Outcome_example :
    let after = (apply policy 1 body failure (holding sent_row)).1.db in
    ((apply policy 1 body failure (holding sent_row)).0 ≡ ok tt)
    × ((n' : Notification) × Outcome 3 5 (30 ∷ []) 0 sent_row n' failure
        × (sample.notifications.get 1 after.notifications ≡ some n')
        × Followed sample after n')
apply-Outcome_example =
    apply-Outcome policy 5 (30 ∷ []) refl sent_row body failure 1 (holding sent_row) refl refl
      (omega arith)

process-Advances_example : Advances settings waiting_row (
    sample.notifications.get 1
      (process custom build settings body (node (holding waiting_row))).1.world.db.notifications)
process-Advances_example =
    process-Advances custom build settings 5 (30 ∷ []) refl body 1 named
      (node (holding waiting_row)) waiting_row send refl refl refl refl

-- One attempt at most.
abbrev single : Settings
single = record settings { max_retries = 1 }

abbrev ended : Node sample (List ℕ)
ended = (process custom build single body (node (holding waiting_row))).1

one_round : History custom build single 1 (node (holding waiting_row)) 1 ended
one_round = processed start body named (λ n found. ground (arith, found)) ended refl

History-final_example :
    (n' : Notification) × (sample.notifications.get 1 ended.world.db.notifications ≡ some n')
    × (is_final_status n'.status ≡ true)
History-final_example =
    History-final custom build single 5 (30 ∷ []) refl 1 "sms" send refl
      (node (holding waiting_row)) ended 1 waiting_row one_round refl refl (omega arith)
      (omega arith)

-- A broker that notes what is acknowledged (true) or given back, with one message in "low".
abbrev noting : Consumer (List Bool) ℕ
noting = record {
  get = λ name b. (ok (if str_eq name "low" then some 1 else none), b);
  ack = λ m b. (ok tt, true ∷ b);
  reject = λ requeue m b. (ok tt, false ∷ b);
}

abbrev loads : ℕ → Body
loads m = object body

polled : poll noting ("high" ∷ "low" ∷ []) [] ≡ (ok (some 1), [])
unfolding poll
polled = refl

turn-Kept_example :
    let after =
      (turn custom build settings noting loads
        ("high" ∷ "low" ∷ [])
        (node (holding waiting_row), [])).1 in
    (after.1 ≡ false ∷ []) ⊎ ((after.1 ≡ true ∷ []) × Kept sample 1 after.0.world.db)
turn-Kept_example =
    turn-Kept custom build settings 5 (30 ∷ []) refl body 1 named (node (holding waiting_row))
      noting loads ("high" ∷ "low" ∷ []) [] [] 1 waiting_row polled refl refl
