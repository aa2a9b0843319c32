-- ===== src/System/Marked.antt =====
-- What a step of a publisher does to the events of the outbox: each keeps its content, and one that was
-- open stays open or is sent.
use notification_test.Base.{
  ◌≤◌, ℕ, ◌≡◌, ◌⊎◌, inl, inr, refl, sym, ◌∙◌, ap, true, false, some, arith, some_inj,
}
use mathlib.Core.Path.{subst}
use notification_test.Models.{OutboxEvent}
use notification_test.Platform.{Env}
use notification_test.World.{World}
use notification_test.System.Growth.{is_notice, is_published, IsSound, Noticed}

-- The columns that no publisher writes.
pub record SameEvent (e e' : OutboxEvent) : Type 0 where
  pub id : e'.id ≡ e.id
  pub aggregate : e'.aggregate_id ≡ e.aggregate_id
  pub event_type : e'.event_type ≡ e.event_type
  pub payload : e'.payload ≡ e.payload

-- An event `e` that changes stays open, or `Sent e` holds.
pub record Marked {E : Env} (Sent : OutboxEvent → Type 0) (w w' : World E) : Type 0 where
  pub draws : w'.draws ≡ w.draws
  pub reads : w.reads ≤ w'.reads
  pub notifications : w'.db.notifications ≡ w.db.notifications
  pub history : w'.db.history ≡ w.db.history
  pub rows :
      (j : ℕ)
      → (E.outbox.get j w'.db.outbox ≡ E.outbox.get j w.db.outbox)
        ⊎ ((e : OutboxEvent) × (e' : OutboxEvent) × (E.outbox.get j w.db.outbox ≡ some e)
            × (E.outbox.get j w'.db.outbox ≡ some e')
            × SameEvent e e'
            × ((is_published e'.status ≡ false) ⊎ Sent e))

module _ {E : Env} {Sent : OutboxEvent → Type 0} (w w' : World E) (m : Marked Sent w w') where
  -- What holds of the content of every event keeps holding.
  pub Marked-IsSound : IsSound w → IsSound w'
  Marked-IsSound s = record {
    drawn = λ j e' stored. elim (m.rows j) [
      | inl same ↦ rw m.draws (s.drawn j e' (sym same ∙ stored))
      | inr (e, _, before, _, _, _) ↦ rw m.draws (s.drawn j e before)
    ];
    routable = λ j e' stored notice. elim (m.rows j) [
      | inl same ↦ s.routable j e' (sym same ∙ stored) notice
      | inr (e, x, before, after, same, _) ↦
          let is : x ≡ e' = some_inj (sym after ∙ stored) in
          let old = s.routable j e before (rw (← same.event_type) (rw is notice)) in
          record {
            named = ground (arith, old.named, same.payload, same.aggregate, is);
            key = old.key;
            routing = ground (arith, old.routing, same.payload, is);
            known = old.known;
          }
    ];
  }

  pub Marked_kept :
      (j : ℕ) (e : OutboxEvent)
      → E.outbox.get j w.db.outbox ≡ some e
      → (e' : OutboxEvent) × SameEvent e e' × (E.outbox.get j w'.db.outbox ≡ some e')
  Marked_kept j e stored = elim (m.rows j) [
    | inl same ↦ (
      e,
      record { id = refl; aggregate = refl; event_type = refl; payload = refl },
      same ∙ stored,
    )
    | inr (x, e', before, after, same, _) ↦ (
      e',
      subst (λ (y : OutboxEvent). SameEvent y e') (some_inj (sym before ∙ stored)) same,
      after,
    )
  ]

  -- A notification that had an event keeps one, or the event was sent.
  pub Marked-Noticed :
      (j : ℕ)
      → Noticed j w.db
      → Noticed j w'.db
        ⊎ ((e : OutboxEvent) × (E.outbox.get e.id w.db.outbox ≡ some e)
            × (e.aggregate_id ≡ j)
            × (is_notice e.event_type ≡ true)
            × Sent e)
  Marked-Noticed j n = elim (m.rows n.event.id) [
    | inl same ↦ inl (record {
      event = n.event;
      stored = same ∙ n.stored;
      own = n.own;
      notice = n.notice;
      open_ = n.open_;
    })
    | inr (x, e', before, after, same, ends) ↦
        let is : x ≡ n.event = some_inj (sym before ∙ n.stored) in
        elim ends [
          | inl open_ ↦ inl (record {
            event = e';
            stored =
                subst (λ i. E.outbox.get i w'.db.outbox ≡ some e')
                  (sym (same.id ∙ ap (λ (y : OutboxEvent). y.id) is)) after;
            own = same.aggregate ∙ ap (λ (y : OutboxEvent). y.aggregate_id) is ∙ n.own;
            notice = rw same.event_type (rw is n.notice);
            open_ = open_;
          })
          | inr sent ↦ inr (n.event, n.stored, n.own, n.notice, subst Sent is sent)
        ]
  ]
