-- ===== src/System/Lossless.antt =====
-- No step of the service loses a notification.
use notification_test.Base.{
  ℕ, suc, ◌≡◌, ◌⊎◌, inl, inr, sym, ◌∙◌, ap, Bool, true, some, List, ◌∷◌, arith, Has, Bool-cases,
  some_inj,
}
use mathlib.Core.Path.{subst}
use notification_test.Exec.{ok}
use notification_test.Models.{Notification, OutboxEvent, is_final_status}
use notification_test.Platform.{Env}
use notification_test.Config.{Settings}
use notification_test.World.{World, Node}
use notification_test.Messaging.Topology.{Names}
use notification_test.Messaging.Topology.Routes.{Apart}
use notification_test.Messaging.OutboxPublisher.{
  ClaimedOutboxEvent, claim_pending, claimed as claimed_row,
}
use notification_test.Messaging.OutboxPublisher.Claims.{claim_pending-Claim}
use notification_test.Worker.Loop.{poll}
use notification_test.System.Workers.{apply-Grows}
use notification_test.System.Publishers.{publish_one-Leaves, claim_pending-Marked}
use notification_test.System.Publications.{publication_keeps, publication-Travels}
use notification_test.System.Steps.{
  Service, IsFresh, Step, requested, cleaned, claimed, published, polled, rejected, reserved,
  handed_out, idle_acked, applied, applied_acked, publishing, Steps, start, after,
}
use notification_test.Worker.Processor.{policy_of}
use notification_test.System.Growth.{Grows-Steady}
use notification_test.System.Keys.{cleanup_once-Steady}
use notification_test.System.Requests.{create_bulk-Steady}
use notification_test.System.Recipients.{add_recipient-Grows}
use notification_test.Worker.ResultHandler.{apply}
use notification_test.Services.Notifications.{create_bulk}
use notification_test.Services.IdempotencyCleaner.{cleanup_once}
use notification_test.System.Rabbit.{Rabbit, poll_keeps}
use notification_test.System.Carried.{
  Carried, Listed, Lossless, grown-Lossless, kept-Lossless, Marked-Lossless,
}
use notification_test.System.Acks.{
  reserved-Lossless, handed_out-Lossless, idle_acked-Lossless, applied_acked-Lossless,
}

module _ {E : Env} {B M : Type 0} {names : Names} (rabbit : Rabbit B M names) (apart : Apart names)
    (unique : (i j : ℕ) → E.uuid4 i ≡ E.uuid4 j → i ≡ j) (settings : Settings) (d : ℕ) (ds : List ℕ)
    (delays : settings.retry_backoff_list ≡ d ∷ ds) where
  claim_pending-Listed :
      (held : OutboxEvent → Bool) (tickets : List ClaimedOutboxEvent) (t : ClaimedOutboxEvent)
      (w : World E)
      → (claim_pending settings held w).0 ≡ ok tickets
      → Has t tickets
      → Listed t (claim_pending settings held w).1
  claim_pending-Listed held tickets t w returned here =
      let c = claim_pending-Claim settings held w tickets t returned here in
      record {
        event = claimed_row (E.clock (suc (suc w.reads))) c.event;
        stored = rw (ap (λ (y : ClaimedOutboxEvent). y.id) c.is) c.after;
        event_type = sym (ap (λ (y : ClaimedOutboxEvent). y.event_type) c.is);
        payload = sym (ap (λ (y : ClaimedOutboxEvent). y.payload) c.is);
      }

  published-Lossless :
      (tickets : List ClaimedOutboxEvent) (t : ClaimedOutboxEvent) (s : Service E B)
      → Has tickets s.claims
      → Has t tickets
      → Lossless rabbit s
      → Lossless rabbit (record s {
        world = (publishing rabbit settings t s).world;
        broker = (publishing rabbit settings t s).outside;
      })
  published-Lossless tickets t s taken here h =
      let node : Node E B = record { world = s.world; outside = s.broker } in
      elim (publish_one-Leaves rabbit.publish names settings t node) [
        | inl same ↦
            subst
              (λ (n : Node E B). Lossless rabbit (record s { world = n.world; broker = n.outside }))
              (sym same) h
        | inr (e, stored, outside, marked) ↦
            let l = h.listed tickets t taken here in
            let is : l.event ≡ e = some_inj (sym l.stored ∙ stored) in
            Marked-Lossless rabbit _ s (publishing rabbit settings t s).world
              (publishing rabbit settings t s).outside marked
              (λ p held.
                rw outside (publication_keeps rabbit apart t.event_type t.payload p s.broker held))
              (λ x there notice (same, returned). rw outside (
                publication-Travels rabbit apart t.event_type t.payload x s.broker
                  (sym l.event_type ∙ ap (λ (y : OutboxEvent). y.event_type) (is ∙ sym same))
                  (sym l.payload ∙ ap (λ (y : OutboxEvent). y.payload) (is ∙ sym same))
                  (h.sound.routable x.id x there notice) notice returned))
              h
      ]

  claimed-Lossless :
      (held : OutboxEvent → Bool) (tickets : List ClaimedOutboxEvent) (s : Service E B)
      → (claim_pending settings held s.world).0 ≡ ok tickets
      → Lossless rabbit s
      → Lossless rabbit (record s {
        world = (claim_pending settings held s.world).1;
        claims = tickets ∷ s.claims;
      })
  claimed-Lossless held tickets s returned h =
      let w' = (claim_pending settings held s.world).1 in
      let after =
        Marked-Lossless rabbit (λ e. ⊥) s w' s.broker (claim_pending-Marked settings held s.world)
          (λ p there. there) (λ e stored notice never. absurd never) h in
      record {
        sound = after.sound;
        listed = λ ts t here there. elim here [
          | inl new ↦ claim_pending-Listed held tickets t s.world returned (rw new there)
          | inr old ↦ after.listed ts t old there
        ];
        tried = after.tried;
        carried = after.carried;
      }

  step-Lossless :
      (s s' : Service E B) → Step rabbit settings s s' → Lossless rabbit s → Lossless rabbit s'
  step-Lossless s s' (requested request key) h =
      grown-Lossless rabbit s (create_bulk settings request key s.world).1 s.broker
        (create_bulk-Steady Grows-Steady request (add_recipient-Grows unique request) settings key
          s.world)
        (λ j going travels. inr travels) h
  step-Lossless s s' cleaned h =
      grown-Lossless rabbit s (cleanup_once s.world).1 s.broker
        (cleanup_once-Steady Grows-Steady s.world) (λ j going travels. inr travels) h
  step-Lossless s s' (claimed held tickets returned) h = claimed-Lossless held tickets s returned h
  step-Lossless s s' (published tickets t there here) h =
      published-Lossless tickets t s there here h
  step-Lossless s s' (polled queues) h =
      kept-Lossless rabbit s (poll rabbit.consumer queues s.broker).1
        (λ p held. poll_keeps rabbit queues p s.broker held) h
  step-Lossless s s' (rejected requeue m) h =
      kept-Lossless rabbit s (rabbit.consumer.reject requeue m s.broker).1
        (λ p held. rabbit.reject_keeps requeue m p s.broker held) h
  step-Lossless s s' (reserved id payload named) h =
      reserved-Lossless rabbit unique settings d ds delays id payload s named h
  step-Lossless s s' (handed_out id payload n named handed) h =
      handed_out-Lossless rabbit unique settings d ds delays id payload n s named handed h
  step-Lossless s s' (idle_acked m id payload body named answer) h =
      idle_acked-Lossless rabbit unique settings d ds delays m id payload s body named answer h
  step-Lossless s s' (applied id payload result named) h =
      grown-Lossless rabbit s (apply (policy_of settings) id payload result s.world).1 s.broker
        (apply-Grows unique (policy_of settings) id payload result s.world named)
        (λ j going travels. inr travels) h
  step-Lossless s s' (applied_acked m id payload result body named here returned) h =
      applied_acked-Lossless rabbit unique settings d ds delays m id payload result s body named
        here h

  steps-Lossless :
      (s s' : Service E B) → Steps rabbit settings s s' → Lossless rabbit s → Lossless rabbit s'
  steps-Lossless s s' start h = h
  steps-Lossless s s' (after {t} steps step) h =
      step-Lossless t s' step (steps-Lossless s t steps h)

module _ {E : Env} {B M : Type 0} {names : Names} (rabbit : Rabbit B M names) where
  fresh-Lossless : (s : Service E B) → IsFresh s → Lossless rabbit s
  fresh-Lossless s fresh = record {
    sound = record {
      drawn = λ j e stored. ground (arith, stored, fresh.outbox j);
      routable = λ j e stored notice. ground (arith, stored, fresh.outbox j);
    };
    listed = λ ts t here there. absurd (subst (λ cs. Has ts cs) fresh.claims here);
    tried = λ id here. absurd (subst (λ ids. Has id ids) fresh.handed here);
    carried = λ j (n, found, going). ground (arith, found, fresh.notifications j);
  }

-- No notification is lost: in whatever order the requests, the cleaner, the publishers and the
-- workers take their steps from an empty database, and whatever of these fails, each notification
-- that is in the database is final, or the outbox has an event of it that was not published, or the
-- broker holds a message that names it. The exchanges need two names, the policy a delay, the UUIDs
-- to be distinct, and the broker to keep what the interface asks.
pub steps-Carried :
    {E : Env} {B M : Type 0} {names : Names} (rabbit : Rabbit B M names)
    → Apart names
    → ((i j : ℕ) → E.uuid4 i ≡ E.uuid4 j → i ≡ j)
    → (settings : Settings) (d : ℕ) (ds : List ℕ) → settings.retry_backoff_list ≡ d ∷ ds
    → (s s' : Service E B) → IsFresh s
    → Steps rabbit settings s s'
    → (n : Notification) → E.notifications.get n.id s'.world.db.notifications ≡ some n
    → (is_final_status n.status ≡ true) ⊎ Carried rabbit n.id s'.world s'.broker
steps-Carried rabbit apart unique settings d ds delays s s' fresh steps n found =
    elim (Bool-cases (is_final_status n.status)) [
      | inl final ↦ inl final
      | inr going ↦
          let h =
            steps-Lossless rabbit apart unique settings d ds delays s s' steps
              (fresh-Lossless rabbit s fresh) in
          inr (h.carried n.id (n, found, going))
    ]
