-- ===== src/System/Tracking.antt =====
-- What holds of the tables over any steps of the service because it holds of its transactions.
use notification_test.Base.{ℕ, inl, inr, sym, String}
use mathlib.Core.Path.{subst}
use notification_test.Models.{OutboxEvent, Payload, BulkNotificationRequest}
use notification_test.Platform.{Env}
use notification_test.Config.{Settings}
use notification_test.World.{World, Node}
use notification_test.Providers.{ProviderResult}
use notification_test.Services.IdempotencyCleaner.{cleanup_once}
use notification_test.Services.Notifications.{create_bulk}
use notification_test.Messaging.Topology.{Names}
use notification_test.Messaging.OutboxPublisher.{ClaimedOutboxEvent, claim_pending}
use notification_test.Worker.Attempts.{reserve}
use notification_test.Worker.ResultHandler.{apply}
use notification_test.Worker.Processor.{policy_of}
use notification_test.System.Rabbit.{Rabbit}
use notification_test.System.Marked.{Marked}
use notification_test.System.Publishers.{publish_one-Leaves, claim_pending-Marked}
use notification_test.System.Steps.{
  Service, Step, requested, cleaned, claimed, published, polled, rejected, reserved, handed_out,
  idle_acked, applied, applied_acked, publishing, Steps, start, after,
}

-- A relation of the states before and after each transaction, which composes.
pub record Tracked {E : Env} (settings : Settings) (R : World E → World E → Type 0) : Type 1 where
  pub stay : (w : World E) → R w w
  pub trans : (w w₁ w₂ : World E) → R w w₁ → R w₁ w₂ → R w w₂
  pub creates :
      (request : BulkNotificationRequest) (key : String) (w : World E)
      → R w (create_bulk settings request key w).1
  pub cleans : (w : World E) → R w (cleanup_once w).1
  pub marks : (Sent : OutboxEvent → Type 0) (w w' : World E) → Marked Sent w w' → R w w'
  pub reserves : (id : ℕ) (payload : Payload) (w : World E) → R w (reserve settings id payload w).1
  pub applies :
      (id : ℕ) (payload : Payload) (result : ProviderResult) (w : World E)
      → R w (apply (policy_of settings) id payload result w).1

module _ {E : Env} {B M : Type 0} {names : Names} (rabbit : Rabbit B M names) (settings : Settings)
    {R : World E → World E → Type 0} (r : Tracked settings R) where
  published-Tracked :
      (t : ClaimedOutboxEvent) (s : Service E B) → R s.world (publishing rabbit settings t s).world
  published-Tracked t s =
      let node : Node E B = record { world = s.world; outside = s.broker } in
      elim (publish_one-Leaves rabbit.publish names settings t node) [
        | inl same ↦ subst (λ (n : Node E B). R s.world n.world) (sym same) (r.stay s.world)
        | inr (e, stored, outside, marked) ↦
            r.marks _ s.world (publishing rabbit settings t s).world marked
      ]

  step-Tracked : (s s' : Service E B) → Step rabbit settings s s' → R s.world s'.world
  step-Tracked s s' (requested request key) = r.creates request key s.world
  step-Tracked s s' cleaned = r.cleans s.world
  step-Tracked s s' (claimed held tickets returned) =
      r.marks _ s.world (claim_pending settings held s.world).1
        (claim_pending-Marked settings held s.world)
  step-Tracked s s' (published tickets t there here) = published-Tracked t s
  step-Tracked s s' (polled queues) = r.stay s.world
  step-Tracked s s' (rejected requeue m) = r.stay s.world
  step-Tracked s s' (reserved id payload named) = r.reserves id payload s.world
  step-Tracked s s' (handed_out id payload n named handed) = r.reserves id payload s.world
  step-Tracked s s' (idle_acked m id payload body named answer) = r.reserves id payload s.world
  step-Tracked s s' (applied id payload result named) = r.applies id payload result s.world
  step-Tracked s s' (applied_acked m id payload result body named here returned) =
      r.applies id payload result s.world

  pub steps-Tracked : (s s' : Service E B) → Steps rabbit settings s s' → R s.world s'.world
  steps-Tracked s s' start = r.stay s.world
  steps-Tracked s s' (after {t} steps step) =
      r.trans s.world t.world s'.world (steps-Tracked s t steps) (step-Tracked t s' step)
