-- ===== src/System/Publishers.antt =====
-- The claims and the publications of the outbox, as steps that mark events.
use notification_test.Base.{
  ◌≤◌, ℕ, suc, ◌≡◌, ◌⊎◌, inl, inr, refl, sym, ◌∙◌, ap, Bool, true, false, Option, none, some, List,
  [], ◌∷◌, arith, ◌==◌, if◌then◌else◌, ==_iff, Has, Has-map, Bool-cases,
}
use notification_test.Exec.{Exec, Result, ok, err}
use notification_test.Models.{OutboxEvent}
use notification_test.Platform.{Env}
use notification_test.Config.{Settings}
use notification_test.World.{World, Node, put_event}
use notification_test.Messaging.Topology.{Names}
use notification_test.Messaging.Publisher.{Broker, publish_outbox_event}
use notification_test.Messaging.OutboxPublisher.{
  ClaimedOutboxEvent, ticket, claimed, claim_all, claim_pending, mark, mark_published,
  mark_publish_failed, publish_found, publish_one,
}
use notification_test.Messaging.OutboxPublisher.Claims.{
  found, claim_pending_returns, claim_pending-Claim, claim_pending_others,
}
use notification_test.System.Marked.{SameEvent, Marked}
use notification_test.System.Growth.{is_published}

-- An event of the list has the id, or none has.
search_id :
    (j : ℕ) (es : List OutboxEvent)
    → ((e : OutboxEvent) × Has e es × ((e.id == j) ≡ true))
      ⊎ ((e : OutboxEvent) → Has e es → (e.id == j) ≡ false)
search_id j [] = inr (λ e h. absurd h)
search_id j (x ∷ xs) = elim (Bool-cases (x.id == j)) [
  | inl hit ↦ inl (x, inl refl, hit)
  | inr miss ↦ elim (search_id j xs) [
    | inl (e, h, hit) ↦ inl (e, inr h, hit)
    | inr none_ ↦ inr (λ e h. elim h [ inl here ↦ rw (← here) miss | inr later ↦ none_ e later ])
  ]
]

module _ {E : Env} where
  open E.outbox use {get, put, get-put, get_key}

  claim_all_lem :
      (at : ℕ) (es : List OutboxEvent) (w : World E)
      → ((claim_all at es w).1.draws ≡ w.draws)
        × ((claim_all at es w).1.db.notifications ≡ w.db.notifications)
        × ((claim_all at es w).1.db.history ≡ w.db.history)
        × ((claim_all at es w).1.reads ≡ w.reads)
  unfolding claim_all
  claim_all_lem at [] w = (refl, refl, refl, refl)
  claim_all_lem at (e ∷ es) w = claim_all_lem at es (put_event (claimed at e) w)

  mark_lem :
      (settings : Settings) (e : OutboxEvent) (r : Result (Unit {0})) (w : World E)
      → (e' : OutboxEvent) × SameEvent e e'
        × ((is_published e'.status ≡ false) ⊎ (r ≡ ok tt))
        × ((mark settings e r w).1.db.outbox ≡ put e' w.db.outbox)
        × ((mark settings e r w).1.db.notifications ≡ w.db.notifications)
        × ((mark settings e r w).1.db.history ≡ w.db.history)
        × ((mark settings e r w).1.draws ≡ w.draws)
        × (w.reads ≤ (mark settings e r w).1.reads)
  unfolding mark_published mark_publish_failed
  mark_lem settings e (ok _) w = (
    _,
    record { id = refl; aggregate = refl; event_type = refl; payload = refl },
    inr refl,
    refl,
    refl,
    refl,
    refl,
    omega arith,
  )
  mark_lem settings e (err x) w = (
    _,
    record { id = refl; aggregate = refl; event_type = refl; payload = refl },
    inl (ground arith),
    refl,
    refl,
    refl,
    refl,
    omega arith,
  )

  pub claim_pending-Marked :
      (settings : Settings) (held : OutboxEvent → Bool) (w : World E)
      → Marked (λ e. ⊥) w (claim_pending settings held w).1
  unfolding claim_pending
  claim_pending-Marked settings held w =
      let w₀ : World E = record w { reads = suc (suc (suc w.reads)) } in
      let at = E.clock (suc (suc w.reads)) in
      let (draws, notifications, history, reads) = claim_all_lem at (found settings held w) w₀ in
      let (returned, _, _) = claim_pending_returns settings held w in
      record {
        draws = ground (arith, draws);
        reads = ground (arith, reads);
        history = ground (arith, history);
        notifications = ground (arith, notifications);
        rows = λ j. elim (search_id j (found settings held w)) [
          | inr none_ ↦ inl (claim_pending_others settings held w j none_)
          | inl (e, here, hit) ↦
              let c =
                claim_pending-Claim settings held w _ (ticket e) returned
                  (Has-map ticket (found settings held w) e here) in
              let same : c.event.id ≡ j =
                sym (ap (λ (t : ClaimedOutboxEvent). t.id) c.is) ∙ (==_iff e.id j).0 hit in
              inr (
                c.event,
                claimed at c.event,
                rw (← same) c.before,
                rw (← same) c.after,
                record { id = refl; aggregate = refl; event_type = refl; payload = refl },
                inl refl,
              )
        ];
      }

module _ {E : Env} {S : Type 0} (broker : Broker S) (names : Names) (settings : Settings) where
  open E.outbox use {get, put, get-put, get_key}

  -- What a publication that ended with `r` leaves, where it found an event or not.
  abbrev Leaves : ClaimedOutboxEvent → Node E S → Result (Unit {0}) × S → Node E S → Type 0
  Leaves t s r s' =
      (s' ≡ s)
      ⊎ ((e : OutboxEvent) × (get t.id s.world.db.outbox ≡ some e)
          × (s'.outside ≡ r.1)
          × Marked (λ x. (x ≡ e) × (r.0 ≡ ok tt)) s.world s'.world)

  -- The publication of the event that a ticket names, on the row as it is now.
  pub publish_one-Leaves :
      (t : ClaimedOutboxEvent) (s : Node E S)
      → Leaves t s
          (publish_outbox_event broker names t.event_type t.payload s.outside)
          (publish_one broker names settings t s).1
  unfolding publish_one
  publish_one-Leaves t s = go (get t.id s.world.db.outbox) refl
    where
      publication : Exec S (Unit {0})
      publication = publish_outbox_event broker names t.event_type t.payload

      go :
          (there : Option OutboxEvent)
          → get t.id s.world.db.outbox ≡ there
          → Leaves t s (publication s.outside) (publish_found settings publication there s).1
      go none missing = inl refl
      go (some e) stored =
          let r = publication s.outside in
          let (e', same, ends, written, notifications, history, draws, reads) =
            mark_lem settings e r.0 s.world in
          let w' = (publish_found settings publication (some e) s).1.world in
          let own : e'.id ≡ t.id = same.id ∙ get_key t.id e s.world.db.outbox stored in
          let read : (j : ℕ)
              → get j w'.db.outbox ≡ (if e'.id == j then some e' else get j s.world.db.outbox) =
            λ j. rw written (get-put j e' s.world.db.outbox) in
          inr (
            e,
            stored,
            refl,
            record {
              draws = draws;
              reads = reads;
              history = history;
              notifications = notifications;
              rows = λ j. elim (Bool-cases (e'.id == j)) [
                | inl hit ↦
                    let here : t.id ≡ j = sym own ∙ (==_iff e'.id j).0 hit in
                    inr (
                      e,
                      e',
                      rw (← here) stored,
                      ground (arith, read j, hit),
                      same,
                      elim ends [ inl open_ ↦ inl open_ | inr sent ↦ inr (refl, sent) ],
                    )
                | inr miss ↦ inl (ground (arith, read j, miss))
              ];
            },
          )
