-- ===== src/Messaging/OutboxPublisher/Deliveries.antt =====
-- app/messaging/outbox_publisher.py: what `publish_pending` leaves of the events that it claimed.
use notification_test.Base.{
  some_inj, ℕ, suc, ◌≡◌, inl, inr, refl, sym, ap, ◌∙◌, Bool, some, List, [], ◌∷◌, arith, length,
  Has,
}
use mathlib.Core.Path.{subst}
use notification_test.Exec.{Result, ok}
use notification_test.Models.{OutboxEvent}
use notification_test.Platform.{Env}
use notification_test.Config.{Settings}
use notification_test.World.{Node}
use notification_test.Messaging.Topology.{Names}
use notification_test.Messaging.Publisher.{Broker, publish_outbox_event}
use notification_test.Messaging.OutboxPublisher.{
  ClaimedOutboxEvent, claimed, publish_found, publish_one, publish_each, publish_pending,
  claim_pending,
}
use notification_test.Messaging.OutboxPublisher.Claims.{claim_pending-Claim}
use notification_test.Messaging.OutboxPublisher.Marks.{
  Settled, Marks, Marks-trans, stays-Settled, found_lem,
}

module _ {E : Env} {S : Type 0} (broker : Broker S) (names : Names) (settings : Settings) where
  open E.outbox use {get}

  abbrev published_one : ClaimedOutboxEvent → Node E S → Node E S
  published_one x s =
      (publish_found settings (publish_outbox_event broker names x.event_type x.payload)
        (get x.id s.world.db.outbox) s).1

  each_cons :
      (x : ClaimedOutboxEvent) (ts : List ClaimedOutboxEvent) (s : Node E S)
      → (publish_found settings
          (publish_outbox_event broker names x.event_type x.payload)
          (get x.id s.world.db.outbox)
          s).0
        ≡ ok tt
      → publish_each broker names settings (x ∷ ts) s
        ≡ publish_each broker names settings ts (published_one x s)
  unfolding publish_each publish_one
  each_cons x ts s h = ground (arith, h)

  -- What the events of a list leave of the rows.
  record Published (ts : List ClaimedOutboxEvent) (s : Node E S) (r : Result (Unit {0}) × Node E S)
      : Type 0 where
    returned : r.0 ≡ ok tt
    marks : (j : ℕ) → Marks settings (get j s.world.db.outbox) (get j r.1.world.db.outbox)
    settled :
        (t : ClaimedOutboxEvent) (e : OutboxEvent)
        → Has t ts
        → get t.id s.world.db.outbox ≡ some e
        → (r' : OutboxEvent) × Settled settings e r' × (get t.id r.1.world.db.outbox ≡ some r')

  each_lem :
      (ts : List ClaimedOutboxEvent) (s : Node E S)
      → Published ts s (publish_each broker names settings ts s)
  unfolding publish_each publish_one
  each_lem [] s = record { returned = refl; marks = λ j. inl refl; settled = λ t e h. absurd h }
  each_lem (x ∷ ts) s =
      let (returned, marks, done) =
        found_lem settings (publish_outbox_event broker names x.event_type x.payload) x.id
          (get x.id s.world.db.outbox) s refl in
      let rest = each_lem ts (published_one x s) in
      subst (λ r. Published (x ∷ ts) s r) (sym (each_cons x ts s returned))
        (record {
          returned = rest.returned;
          marks = λ j.
              Marks-trans settings _ (get j (published_one x s).world.db.outbox) _ (marks j)
                (rest.marks j);
          settled = λ t e m is. elim m [
            | inl here ↦
                subst
                  (λ (y : ClaimedOutboxEvent).
                    get y.id s.world.db.outbox ≡ some e
                    → (r' : OutboxEvent) × Settled settings e r'
                      × (get y.id
                            (publish_each broker names settings ts
                              (published_one x s)).1.world.db.outbox
                          ≡ some r'))
                  here
                  (λ at.
                    let (r, h, now) = done e at in
                    stays-Settled settings e r (get x.id (published_one x s).world.db.outbox) _ h
                      now (rest.marks x.id))
                  is
            | inr there ↦ elim (marks t.id) [
              | inl same ↦ rest.settled t e there (sym same ∙ is)
              | inr (e', r, before, now, h) ↦
                  stays-Settled settings e r (get t.id (published_one x s).world.db.outbox) _
                    (subst (λ x. Settled settings x r) (some_inj (sym before ∙ is)) h) now
                    (rest.marks t.id)
            ]
          ];
        })

  -- Whatever the broker does, `publish_pending` returns the number of events that it claimed, and
  -- leaves none of them locked: the row of each has the content of the claimed one and is published,
  -- or pending again with a publication left, or failed with none left.
  pub publish_pending-Settled :
      (held : OutboxEvent → Bool) (s : Node E S) (tickets : List ClaimedOutboxEvent)
      → (claim_pending settings held s.world).0 ≡ ok tickets
      → let r = publish_pending broker names settings held s in
        (r.0 ≡ ok (length tickets))
        × ((t : ClaimedOutboxEvent)
            → Has t tickets
            → (at : ℕ) × (e row : OutboxEvent) × (get t.id s.world.db.outbox ≡ some e)
              × Settled settings (claimed at e) row
              × (get t.id r.1.world.db.outbox ≡ some row))
  unfolding publish_pending
  publish_pending-Settled held s tickets h =
      let (r, w') = claim_pending settings held s.world in
      let each = each_lem tickets (record s { world = w' }) in
      let ran : publish_pending broker names settings held s ≡ (
        ok (length tickets),
        (publish_each broker names settings tickets (record s { world = w' })).1,
      ) =
        ground (arith, each.returned) in
      (
        ground arith,
        λ t m.
            let c = claim_pending-Claim settings held s.world tickets t h m in
            let same : t.id ≡ c.event.id = ap (λ (y : ClaimedOutboxEvent). y.id) c.is in
            let after : get t.id w'.db.outbox
                ≡ some (claimed (E.clock (suc (suc s.world.reads))) c.event) =
              rw same c.after in
            let (row, settled, now) =
              each.settled t (claimed (E.clock (suc (suc s.world.reads))) c.event) m after in
            (
              E.clock (suc (suc s.world.reads)),
              c.event,
              row,
              rw same c.before,
              settled,
              rw ran now,
            ),
      )
