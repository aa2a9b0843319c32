-- ===== src/System/Carried.antt =====
-- Every notification is on its way or at its end, in the whole service.
use notification_test.Base.{
  ℕ, ◌≡◌, ◌≢◌, ◌⊎◌, inl, inr, sym, ◌∙◌, true, false, some, List, arith, ◌==◌, ==_iff, Has,
  Bool-cases, some_inj,
}
use mathlib.Core.Path.{subst}
use notification_test.Exec.{ok}
use notification_test.Models.{Notification, OutboxEvent, Payload}
use notification_test.Platform.{Env}
use notification_test.World.{Db, World}
use notification_test.Messaging.Topology.{Names}
use notification_test.Messaging.OutboxPublisher.{ClaimedOutboxEvent}
use notification_test.Worker.Attempts.{redelivers}
use notification_test.Worker.Attempts.Outstanding.{Followed}
use notification_test.Worker.Processor.{notification_id}
use notification_test.Worker.Loop.{object}
use notification_test.System.Growth.{is_notice, Going, Tried, Noticed, IsSound, Grows}
use notification_test.System.Marked.{Marked, Marked-IsSound, Marked_kept, Marked-Noticed}
use notification_test.System.Rabbit.{Rabbit}
use notification_test.System.Steps.{Service}

-- A claimed event is in the outbox, with the content that was claimed.
pub record Listed {E : Env} (t : ClaimedOutboxEvent) (w : World E) : Type 0 where
  pub event : OutboxEvent
  pub stored : E.outbox.get t.id w.db.outbox ≡ some event
  pub event_type : event.event_type ≡ t.event_type
  pub payload : event.payload ≡ t.payload

-- A message that names the notification is with the broker.
abbrev pub Travels : (E : Env) {B M : Type 0} {names : Names} → Rabbit B M names → ℕ → B → Type 0
Travels E rabbit j b = (p : Payload) × (notification_id E p ≡ ok j) × rabbit.Holds p b

-- An outstanding event brings the notification to the workers.
pub Followed-Noticed :
    {E : Env} (d : Db E) (j : ℕ) (n : Notification)
    → E.notifications.get j d.notifications ≡ some n
    → Followed E d n
    → Going E j d
    → Noticed j d
unfolding redelivers
Followed-Noticed {E} d j n found followed (n', again, going) =
    let same : n ≡ n' = some_inj (sym found ∙ again) in
    elim followed [
      | inl final ↦ absurd (ground (arith, same, final, going))
      | inr (e, here) ↦
          let (met, stored) = E.outbox.select_sound (redelivers n) d.outbox e here in
          let own : n.id ≡ j = E.notifications.get_key j n d.notifications found in
          record {
            event = e;
            stored = stored;
            own = ground (arith, met, own, ==_iff e.aggregate_id n.id);
            notice = ground (arith, met);
            open_ = ground (arith, met);
          }
    ]

module _ {E : Env} {B M : Type 0} {names : Names} (rabbit : Rabbit B M names) where
  -- An event of the notification waits to be published, or a message that names it is with the
  -- broker.
  abbrev pub Carried : ℕ → World E → B → Type 0
  Carried j w b = Noticed j w.db ⊎ Travels E rabbit j b

  pub record Lossless (s : Service E B) : Type 0 where
    pub sound : IsSound s.world
    pub listed :
        (ts : List ClaimedOutboxEvent) (t : ClaimedOutboxEvent)
        → Has ts s.claims
        → Has t ts
        → Listed t s.world
    pub tried : (id : ℕ) → Has id s.handed → Tried E id s.world.db
    pub carried : (j : ℕ) → Going E j s.world.db → Carried j s.world s.broker

  -- A transaction that only adds to the outbox, and a call of the broker that may lose the messages
  -- of notifications which are carried all the same.
  pub grown-Lossless :
      (s : Service E B) (w : World E) (b : B)
      → Grows s.world w
      → ((j : ℕ) → Going E j w.db → Travels E rabbit j s.broker → Carried j w b)
      → Lossless s
      → Lossless (record s { world = w; broker = b })
  grown-Lossless s w b grows travels h = record {
    sound = grows.sound h.sound;
    listed = λ ts t here there.
        let l = h.listed ts t here there in
        record {
          event = l.event;
          stored = grows.kept h.sound t.id l.event l.stored;
          event_type = l.event_type;
          payload = l.payload;
        };
    tried = λ id here. grows.lasts id (h.tried id here);
    carried = λ j going. elim (grows.rows h.sound j going) [
      | inr noticed ↦ inl noticed
      | inl before ↦ elim (h.carried j before) [
        | inl n ↦ inl (record {
          event = n.event;
          stored = grows.kept h.sound n.event.id n.event n.stored;
          own = n.own;
          notice = n.notice;
          open_ = n.open_;
        })
        | inr moving ↦ travels j going moving
      ]
    ];
  }

  -- A call of the broker that keeps its messages.
  pub kept-Lossless :
      (s : Service E B) (b : B)
      → ((p : Payload) → rabbit.Holds p s.broker → rabbit.Holds p b)
      → Lossless s
      → Lossless (record s { broker = b })
  kept-Lossless s b keeps h = record {
    sound = h.sound;
    listed = h.listed;
    tried = h.tried;
    carried = λ j going. elim (h.carried j going) [
      | inl noticed ↦ inl noticed
      | inr (p, named, held) ↦ inr (p, named, keeps p held)
    ];
  }

  -- A publisher's transaction: what it sent of an event is with the broker.
  pub Marked-Lossless :
      (Sent : OutboxEvent → Type 0) (s : Service E B) (w : World E) (b : B)
      → Marked Sent s.world w
      → ((p : Payload) → rabbit.Holds p s.broker → rabbit.Holds p b)
      → ((e : OutboxEvent)
          → E.outbox.get e.id s.world.db.outbox ≡ some e
          → is_notice e.event_type ≡ true
          → Sent e
          → Travels E rabbit e.aggregate_id b)
      → Lossless s
      → Lossless (record s { world = w; broker = b })
  Marked-Lossless Sent s w b m keeps sent h = record {
    sound = Marked-IsSound s.world w m h.sound;
    listed = λ ts t here there.
        let l = h.listed ts t here there in
        let (e', same, stored) = Marked_kept s.world w m t.id l.event l.stored in
        record {
          event = e';
          stored = stored;
          event_type = same.event_type ∙ l.event_type;
          payload = same.payload ∙ l.payload;
        };
    tried = λ id here. let (n, found, pos) = h.tried id here in (n, rw m.notifications found, pos);
    carried = λ j (n, found, going). elim (h.carried j (n, rw (← m.notifications) found, going)) [
      | inr (p, named, held) ↦ inr (p, named, keeps p held)
      | inl noticed ↦ elim (Marked-Noticed s.world w m j noticed) [
        | inl stays ↦ inl stays
        | inr (e, stored, own, notice, was) ↦
            inr (subst (λ i. Travels E rabbit i b) own (sent e stored notice was))
      ]
    ];
  }

  -- The acknowledgement of a message after a transaction that left its notification final or with
  -- an outstanding event.
  pub acked-Travels :
      (m : M) (id : ℕ) (payload : Payload) (b : B) (w : World E) (j : ℕ)
      → rabbit.loads m ≡ object payload
      → notification_id E payload ≡ ok id
      → (Going E id w.db → Noticed id w.db)
      → Going E j w.db
      → Travels E rabbit j b
      → Carried j w (rabbit.consumer.ack m b).1
  acked-Travels m id payload b w j body named settled going (p, is, held) =
      elim (Bool-cases (id == j)) [
        | inl here ↦
            let same : id ≡ j = (==_iff id j).0 here in
            inl (
              subst (λ i. Noticed i w.db) same
                (settled (subst (λ i. Going E i w.db) (sym same) going)))
        | inr away ↦ inr (p, is, rabbit.ack_keeps m p b (apart away) held)
      ]
    where
      apart : (id == j) ≡ false → rabbit.loads m ≢ object p
      apart away e = let one : payload ≡ p = cc in ground (arith, named, is, one, ==_iff id j, away)
