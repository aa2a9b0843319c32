-- ===== src/System/Acks.antt =====
-- The transactions of the workers, and their acknowledgements, lose no notification.
use notification_test.Base.{
  ℕ, ◌<◌, ◌≡◌, inl, inr, sym, ◌∙◌, none, some, List, ◌∷◌, arith, Has, some_inj,
}
use notification_test.Exec.{ok}
use notification_test.Models.{Notification, Payload}
use notification_test.Platform.{Env}
use notification_test.Config.{Settings}
use notification_test.World.{World}
use notification_test.Messaging.Topology.{Names}
use notification_test.Worker.Attempts.{reserve}
use notification_test.Worker.Attempts.Outcomes.{reserve_hands_out}
use notification_test.Worker.Loop.{object}
use notification_test.Worker.Loop.Settled.{idle-Kept}
use notification_test.System.Workers.{reserve-Grows, apply-Grows}
use notification_test.System.Steps.{Service}
use notification_test.Worker.Processor.{notification_id, policy_of}
use notification_test.System.Growth.{Going, Tried, Noticed, Evolves-Going}
use notification_test.Worker.Attempts.Rows.{reserve-Evolves}
use notification_test.Worker.ResultHandler.{apply}
use notification_test.Worker.ResultHandler.Rows.{apply-Evolves}
use notification_test.Worker.ResultHandler.Outcomes.{apply-Outcome}
use notification_test.Providers.{ProviderResult}
use notification_test.System.Rabbit.{Rabbit}
use notification_test.System.Carried.{Lossless, Followed-Noticed, grown-Lossless, acked-Travels}

module _ {E : Env} {B M : Type 0} {names : Names} (rabbit : Rabbit B M names)
    (unique : (i j : ℕ) → E.uuid4 i ≡ E.uuid4 j → i ≡ j) (settings : Settings) (d : ℕ) (ds : List ℕ)
    (delays : settings.retry_backoff_list ≡ d ∷ ds) where
  pub reserved-Lossless :
      (id : ℕ) (payload : Payload) (s : Service E B)
      → notification_id E payload ≡ ok id
      → Lossless rabbit s
      → Lossless rabbit (record s { world = (reserve settings id payload s.world).1 })
  reserved-Lossless id payload s named h =
      grown-Lossless rabbit s (reserve settings id payload s.world).1 s.broker
        (reserve-Grows unique settings id payload s.world named) (λ j going travels. inr travels) h

  pub handed_out-Lossless :
      (id : ℕ) (payload : Payload) (n : Notification) (s : Service E B)
      → notification_id E payload ≡ ok id
      → (reserve settings id payload s.world).0 ≡ ok (some n)
      → Lossless rabbit s
      → Lossless rabbit
          (record s { world = (reserve settings id payload s.world).1; handed = id ∷ s.handed })
  handed_out-Lossless id payload n s named handed h =
      let after = reserved-Lossless id payload s named h in
      let (m, was, begun, stored) = reserve_hands_out settings id payload s.world n handed in
      record {
        sound = after.sound;
        listed = after.listed;
        tried = λ i here. elim here [
          | inl new ↦ (n, rw (← new) stored, omega (arith, begun.attempts))
          | inr old ↦ after.tried i old
        ];
        carried = after.carried;
      }

  -- A notification that `reserve` did not hand out is final or has an event.
  idle_settled :
      (id : ℕ) (payload : Payload) (w : World E)
      → (reserve settings id payload w).0 ≡ ok none
      → Going E id (reserve settings id payload w).1.db
      → Noticed id (reserve settings id payload w).1.db
  idle_settled id payload w answer going =
      let w' = (reserve settings id payload w).1 in
      let (n, found, _) =
        Evolves-Going settings.max_retries w w' id (reserve-Evolves settings id id payload w)
          going in
      let (n', now, followed) = idle-Kept settings id n payload w found answer in
      Followed-Noticed w'.db id n' now followed going

  -- So is one whose attempt was recorded.
  applied_settled :
      (id : ℕ) (payload : Payload) (result : ProviderResult) (w : World E)
      → Tried E id w.db
      → Going E id (apply (policy_of settings) id payload result w).1.db
      → Noticed id (apply (policy_of settings) id payload result w).1.db
  applied_settled id payload result w (m, here, pos) going =
      let w' = (apply (policy_of settings) id payload result w).1 in
      let policy = policy_of settings in
      let (n, found, left) =
        Evolves-Going policy.max_retries w w' id
          (apply-Evolves policy.max_retries policy id id payload result w) going in
      let more : 0 < n.attempts = rw (some_inj (sym found ∙ here)) pos in
      let (_, (n', _, now, followed)) =
        apply-Outcome policy d ds delays n payload result id w found left more in
      Followed-Noticed w'.db id n' now followed going

  pub idle_acked-Lossless :
      (m : M) (id : ℕ) (payload : Payload) (s : Service E B)
      → rabbit.loads m ≡ object payload
      → notification_id E payload ≡ ok id
      → (reserve settings id payload s.world).0 ≡ ok none
      → Lossless rabbit s
      → Lossless rabbit (record s {
        world = (reserve settings id payload s.world).1;
        broker = (rabbit.consumer.ack m s.broker).1;
      })
  idle_acked-Lossless m id payload s body named answer h =
      let w = (reserve settings id payload s.world).1 in
      grown-Lossless rabbit s w (rabbit.consumer.ack m s.broker).1
        (reserve-Grows unique settings id payload s.world named)
        (λ j going travels.
          acked-Travels rabbit m id payload s.broker w j body named
            (idle_settled id payload s.world answer) going travels)
        h

  pub applied_acked-Lossless :
      (m : M) (id : ℕ) (payload : Payload) (result : ProviderResult) (s : Service E B)
      → rabbit.loads m ≡ object payload
      → notification_id E payload ≡ ok id
      → Has id s.handed
      → Lossless rabbit s
      → Lossless rabbit (record s {
        world = (apply (policy_of settings) id payload result s.world).1;
        broker = (rabbit.consumer.ack m s.broker).1;
      })
  applied_acked-Lossless m id payload result s body named here h =
      let w = (apply (policy_of settings) id payload result s.world).1 in
      grown-Lossless rabbit s w (rabbit.consumer.ack m s.broker).1
        (apply-Grows unique (policy_of settings) id payload result s.world named)
        (λ j going travels.
          acked-Travels rabbit m id payload s.broker w j body named
            (applied_settled id payload result s.world (h.tried id here)) going travels)
        h
