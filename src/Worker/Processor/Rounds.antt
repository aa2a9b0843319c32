-- ===== src/Worker/Processor/Rounds.antt =====
-- app/worker/processor.py: what one message does for a notification that is neither final nor under
-- an active lock.
use notification_test.Base.{
  ℕ, suc, ◌<◌, ◌≡◌, ◌⊎◌, inl, inr, refl, ◌∙◌, String, true, false, Option, some, List, ◌∷◌, arith,
  leb, leb→le, Bool-cases,
}
use notification_test.Providers.{ProviderResult}
use notification_test.Exec.{Result, ok}
use notification_test.Models.{Notification, Payload, is_final_status}
use notification_test.Platform.{Env}
use notification_test.Config.{Settings}
use notification_test.World.{Node}
use notification_test.Worker.Attempts.Rows.{active}
use notification_test.Worker.Attempts.Outcomes.{Begun}
use notification_test.Worker.ResultHandler.Outcomes.{Outcome, arrived, retried, given_up}
use notification_test.Worker.Processor.{Send, notification_id, find_provider, process}
use notification_test.Worker.Processor.Calls.{process_idle}
use notification_test.Worker.Processor.Reserved.{reserve_drops}
use notification_test.Worker.Processor.Sent.{process-Attempt}

-- The row after a round: final, or with one attempt more and a further one left.
abbrev pub Advances : Settings → Notification → Option Notification → Type 0
Advances settings n found =
    (n' : Notification) × (found ≡ some n')
    × ((is_final_status n'.status ≡ true)
        ⊎ ((n'.attempts ≡ suc n.attempts) × (suc n.attempts < settings.max_retries)))

advanced :
    (settings : Settings) (d : ℕ) (ds : List ℕ) {n n' n'' : Notification} {result : ProviderResult}
    {start t now : ℕ}
    → Begun settings start t n n'
    → Outcome settings.max_retries d ds now n' n'' result
    → (is_final_status n''.status ≡ true)
      ⊎ ((n''.attempts ≡ suc n.attempts) × (suc n.attempts < settings.max_retries))
advanced settings d ds begun (arrived _ delivered_ _ _ _) = inl (rw delivered_ refl)
advanced settings d ds begun (retried _ _ left _ same _ _) =
    inr (same ∙ begun.attempts, omega (arith, begun.attempts))
advanced settings d ds begun (given_up _ _ dropped_ _ _) = inl (rw dropped_ refl)

module _ {E : Env} {P : Type 0} (custom : String → Option (Send P))
    (build : String → Result (Send P)) (settings : Settings) (d : ℕ) (ds : List ℕ)
    (delays : settings.retry_backoff_list ≡ d ∷ ds) (payload : Payload) (id : ℕ)
    (named : notification_id E payload ≡ ok id) where
  -- A message for a notification that is neither final nor under an active lock, whose channel has a
  -- provider, makes it final, or costs it one attempt and leaves a further one, whatever the
  -- provider does. A delay has to be configured.
  pub process-Advances :
      (s : Node E P) (n : Notification) (send : Send P)
      → E.notifications.get id s.world.db.notifications ≡ some n
      → is_final_status n.status ≡ false
      → active n (E.clock s.world.reads) ≡ false
      → find_provider custom build n.channel ≡ ok send
      → Advances settings n (
          E.notifications.get id (process custom build settings payload s).1.world.db.notifications)
  process-Advances s n send found going unlocked provided =
      elim (Bool-cases (leb settings.max_retries n.attempts)) [
        | inl spent ↦
            let (returned, (n', is, now)) =
              reserve_drops settings id n payload s.world found going unlocked
                (leb→le settings.max_retries n.attempts spent) in
            let (_, world) =
              process_idle custom build settings payload s id named
                (λ m e. ground (arith, returned, e)) in
            (n', rw world now, inl (rw is refl))
        | inr left ↦
            let more : n.attempts < settings.max_retries = ground arith in
            let attempt =
              process-Attempt custom build settings d ds delays payload id named s n send found
                going unlocked more provided in
            (attempt.row, attempt.stored, advanced settings d ds attempt.begun attempt.result)
      ]
