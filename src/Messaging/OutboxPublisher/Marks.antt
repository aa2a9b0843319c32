-- ===== src/Messaging/OutboxPublisher/Marks.antt =====
-- app/messaging/outbox_publisher.py: what the publication of one event leaves of its row.
use notification_test.Base.{
  some_inj, ℕ, ◌≤◌, ◌<◌, ◌≡◌, ◌⊎◌, inl, inr, refl, sym, ◌∙◌, Option, none, some, arith, ◌==◌,
  ==_iff, if◌then◌else◌, Bool-cases,
}
use mathlib.Core.Path.{subst}
use notification_test.Exec.{Exec, Result, ok, err}
use notification_test.Models.{OutboxEvent, pending, published, failed}
use notification_test.Platform.{Env}
use notification_test.Config.{Settings}
use notification_test.World.{World, Node}
use notification_test.Messaging.OutboxPublisher.{
  mark, publish_found, mark_published, mark_publish_failed,
}

-- What became of the row `e` when its publication ended with the row `r`.
pub record Settled (settings : Settings) (e r : OutboxEvent) : Type 0 where
  pub id : r.id ≡ e.id
  pub event_type : r.event_type ≡ e.event_type
  pub payload : r.payload ≡ e.payload
  pub attempts : r.attempts ≡ e.attempts
  pub unlocked : r.locked_at ≡ none
  pub status :
      (r.status ≡ published)
      ⊎ (((r.status ≡ failed) × (settings.outbox_max_attempts ≤ e.attempts))
          ⊎ ((r.status ≡ pending) × (e.attempts < settings.outbox_max_attempts)))

module _ (settings : Settings) where
  abbrev pub Marks : Option OutboxEvent → Option OutboxEvent → Type 0
  Marks a b =
      (a ≡ b)
      ⊎ ((e : OutboxEvent) × (r : OutboxEvent) × (a ≡ some e) × (b ≡ some r) × Settled settings e r)

  Settled-trans :
      (e r s : OutboxEvent) → Settled settings e r → Settled settings r s → Settled settings e s
  Settled-trans e r s h k = record {
    id = k.id ∙ h.id;
    event_type = k.event_type ∙ h.event_type;
    payload = k.payload ∙ h.payload;
    attempts = k.attempts ∙ h.attempts;
    unlocked = k.unlocked;
    status =
        subst
          (λ a.
            (s.status ≡ published)
            ⊎ (((s.status ≡ failed) × (settings.outbox_max_attempts ≤ a))
                ⊎ ((s.status ≡ pending) × (a < settings.outbox_max_attempts))))
          h.attempts k.status;
  }

  pub Marks-trans : (a b c : Option OutboxEvent) → Marks a b → Marks b c → Marks a c
  Marks-trans a b c (inl h) k = subst (λ x. Marks x c) (sym h) k
  Marks-trans a b c (inr h) (inl k) = subst (λ x. Marks a x) k (inr h)
  Marks-trans a b c (inr (e, r, ae, br, h)) (inr (e', r', be, cr, k)) = inr (
    e,
    r',
    ae,
    cr,
    Settled-trans e r r' h (subst (λ x. Settled settings x r') (some_inj (sym be ∙ br)) k),
  )

  -- A row that is settled stays so while other rows are marked.
  pub stays-Settled :
      (e r : OutboxEvent) (b c : Option OutboxEvent)
      → Settled settings e r
      → b ≡ some r
      → Marks b c
      → (r' : OutboxEvent) × Settled settings e r' × (c ≡ some r')
  stays-Settled e r b c h is (inl k) = (r, h, sym k ∙ is)
  stays-Settled e r b c h is (inr (e', r', be, cr, k)) = (
    r',
    Settled-trans e r r' h (subst (λ x. Settled settings x r') (some_inj (sym be ∙ is)) k),
    cr,
  )

module _ {E : Env} (settings : Settings) where
  open E.outbox use {get, put, get-put, get_key}

  mark_lem :
      (e : OutboxEvent) (w : World E) (r : Result (Unit {0}))
      → (mark settings e r w).0 ≡ ok tt
        × ((row : OutboxEvent) × Settled settings e row
            × ((mark settings e r w).1.db.outbox ≡ put row w.db.outbox))
  unfolding mark_published mark_publish_failed
  mark_lem e w (ok _) = (
    ground arith,
    (
      _,
      record {
        id = refl;
        event_type = refl;
        payload = refl;
        attempts = refl;
        unlocked = refl;
        status = inl refl;
      },
      refl,
    ),
  )
  mark_lem e w (err x) = (
    ground arith,
    (
      _,
      record {
        id = refl;
        event_type = refl;
        payload = refl;
        attempts = refl;
        unlocked = refl;
        status = ground arith;
      },
      refl,
    ),
  )

  pub found_lem :
      {S : Type 0} (publication : Exec S (Unit {0})) (id : ℕ) (found : Option OutboxEvent)
      (s : Node E S)
      → get id s.world.db.outbox ≡ found
      → ((publish_found settings publication found s).0 ≡ ok tt)
        × ((j : ℕ)
            → Marks settings
                (get j s.world.db.outbox)
                (get j (publish_found settings publication found s).1.world.db.outbox))
        × ((e : OutboxEvent)
            → found ≡ some e
            → (r : OutboxEvent) × Settled settings e r
              × (get id (publish_found settings publication found s).1.world.db.outbox ≡ some r))
  found_lem publication id none s is = (refl, λ j. inl refl, λ e h. ground arith)
  found_lem publication id (some e) s is =
      let (returned, (row, settled, written)) = mark_lem e s.world (publication s.outside).0 in
      let same : e.id ≡ id = get_key id e s.world.db.outbox is in
      let at : row.id ≡ id = settled.id ∙ same in
      let read : (j : ℕ)
          → get j (publish_found settings publication (some e) s).1.world.db.outbox
            ≡ (if row.id == j then some row else get j s.world.db.outbox) =
        λ j. rw written (get-put j row s.world.db.outbox) in
      let now : get id (publish_found settings publication (some e) s).1.world.db.outbox
          ≡ some row =
        ground (arith, read id, ==_iff row.id id) in
      (
        ground arith,
        λ j. elim (Bool-cases (row.id == j)) [
          | inl hit ↦
              let here : id ≡ j = sym at ∙ (==_iff row.id j).0 hit in
              inr (e, row, rw here at is, rw here at now, settled)
          | inr miss ↦ inl (ground (arith, read j))
        ],
        λ e' h. (row, subst (λ x. Settled settings x row) (some_inj h) settled, now),
      )
