-- ===== src/System/Growth.antt =====
-- What the transactions of the API and of the workers do to the outbox and to the notifications: rows
-- of the outbox are only added, each under a new UUID.
use notification_test.Base.{
  ℕ, ◌≤◌, ◌<◌, ◌≡◌, ◌⊎◌, inl, inr, refl, sym, ◌∙◌, String, Bool, true, false, ◌||◌, Option, none,
  some, arith, ◌==◌, ==_iff, str_eq, if◌then◌else◌, Bool-cases,
}
use mathlib.Core.Path.{subst}
use notification_test.Exec.{ok}
use notification_test.Models.{
  Notification, OutboxEvent, OutboxStatus, published, text, is_final_status,
}
use notification_test.Platform.{Env}
use notification_test.World.{Db, World}
use notification_test.Services.OutboxService.{dict_get}
use notification_test.Worker.Processor.{notification_id}
use notification_test.System.Changes.{Onward, Onward-trans, Steady}
use notification_test.Worker.RowSteps.{Evolves, RowStep, begun, waiting, finished}

-- An event that brings a notification to the workers.
abbrev pub is_notice : String → Bool
is_notice t = str_eq t "notification.created" || str_eq t "notification.retry_scheduled"

abbrev pub is_published : OutboxStatus → Bool
is_published published = true
is_published _ = false

-- The payload names the notification of the event, and has the routing key of one of the queues.
pub record IsRoutable (E : Env) (e : OutboxEvent) : Type 0 where
  pub named : notification_id E e.payload ≡ ok e.aggregate_id
  pub key : String
  pub routing : dict_get "routing_key" e.payload ≡ some (text key)
  pub known : (key ≡ "notification.high") ⊎ (key ≡ "notification.low")

-- Every id of the outbox was drawn, and its events can be routed.
pub record IsSound {E : Env} (w : World E) : Type 0 where
  pub drawn :
      (j : ℕ) (e : OutboxEvent)
      → E.outbox.get j w.db.outbox ≡ some e
      → (k : ℕ) × (k < w.draws) × (j ≡ E.uuid4 k)
  pub routable :
      (j : ℕ) (e : OutboxEvent)
      → E.outbox.get j w.db.outbox ≡ some e
      → is_notice e.event_type ≡ true
      → IsRoutable E e

-- The outbox has an event of the notification that was not published.
pub record Noticed {E : Env} (j : ℕ) (d : Db E) : Type 0 where
  pub event : OutboxEvent
  pub stored : E.outbox.get event.id d.outbox ≡ some event
  pub own : event.aggregate_id ≡ j
  pub notice : is_notice event.event_type ≡ true
  pub open_ : is_published event.status ≡ false

-- A row that is not final.
abbrev pub Going : (E : Env) → ℕ → Db E → Type 0
Going E j d =
    (n : Notification) × (E.notifications.get j d.notifications ≡ some n)
    × (is_final_status n.status ≡ false)

-- A row with an attempt.
abbrev pub Tried : (E : Env) → ℕ → Db E → Type 0
Tried E j d =
    (n : Notification) × (E.notifications.get j d.notifications ≡ some n) × (0 < n.attempts)

-- The step from `w` to `w'` adds rows to the outbox, and a row that is not final after it was so
-- before it, or has an event. No row with an attempt is lost.
pub record Grows {E : Env} (w w' : World E) : Type 0 where
  pub onward : Onward w w'
  pub sound : IsSound w → IsSound w'
  pub kept :
      IsSound w
      → (j : ℕ) (e : OutboxEvent) → E.outbox.get j w.db.outbox ≡ some e
      → E.outbox.get j w'.db.outbox ≡ some e
  pub rows : IsSound w → (j : ℕ) → Going E j w'.db → Going E j w.db ⊎ Noticed j w'.db
  pub lasts : (j : ℕ) → Tried E j w.db → Tried E j w'.db

module _ {E : Env} where
  pub Grows-trans : (w w₁ w₂ : World E) → Grows w w₁ → Grows w₁ w₂ → Grows w w₂
  Grows-trans w w₁ w₂ g h = record {
    onward = Onward-trans w w₁ w₂ g.onward h.onward;
    sound = λ s. h.sound (g.sound s);
    kept = λ s j e stored. h.kept (g.sound s) j e (g.kept s j e stored);
    rows = λ s j going. elim (h.rows (g.sound s) j going) [
      | inr noticed ↦ inr noticed
      | inl before ↦ elim (g.rows s j before) [
        | inl first ↦ inl first
        | inr noticed ↦ inr (record {
          event = noticed.event;
          stored = h.kept (g.sound s) noticed.event.id noticed.event noticed.stored;
          own = noticed.own;
          notice = noticed.notice;
          open_ = noticed.open_;
        })
      ]
    ];
    lasts = λ j tried. h.lasts j (g.lasts j tried);
  }

  -- A step that writes nothing to the outbox.
  pub quiet-Grows :
      (w w' : World E)
      → Onward w w'
      → w'.db.outbox ≡ w.db.outbox
      → ((j : ℕ) → Going E j w'.db → Going E j w.db)
      → ((j : ℕ) → Tried E j w.db → Tried E j w'.db)
      → Grows w w'
  quiet-Grows w w' more same rows lasts = record {
    onward = more;
    sound = λ s. record {
      drawn = λ j e stored.
          let (k, below, is) = s.drawn j e (rw same at stored) in
          (k, omega (arith, below, more.0), is);
      routable = λ j e stored. s.routable j e (rw same at stored);
    };
    kept = λ s j e stored. rw same stored;
    rows = λ s j going. inl (rows j going);
    lasts = lasts;
  }

  pub Grows-Steady : Steady (Grows {E = E})
  Grows-Steady = record {
    onward = λ w w' g. g.onward;
    trans = Grows-trans;
    quiet = λ w w' more outbox rows history.
        quiet-Grows w w' more outbox (λ j (n, found, going). (n, rw rows at found, going))
          (λ j (n, found, tried). (n, rw rows found, tried));
  }

  pub Evolves-Going :
      (m : ℕ) (w w' : World E) (j : ℕ)
      → Evolves m
          (E.notifications.get j w.db.notifications)
          (E.notifications.get j w'.db.notifications)
      → Going E j w'.db
      → Going E j w.db
  Evolves-Going m w w' j h (n', found, going) =
      go (E.notifications.get j w.db.notifications) refl (rw found at h)
    where
      go :
          (before : Option Notification)
          → E.notifications.get j w.db.notifications ≡ before
          → Evolves m (E.notifications.get j w.db.notifications) (some n')
          → Going E j w.db
      go none is h = absurd (rw is at h)
      go (some n) is h = elim (rw is at h) [
        | inl same ↦ (n, is, rw (← same) going)
        | inr (step, _) ↦ (n, is, started step)
      ]
        where
          started : {n : Notification} → RowStep m n n' → is_final_status n.status ≡ false
          started (begun g _ _ _) = g
          started (waiting g _ _) = g
          started (finished g _ _) = g

  pub Evolves-Tried :
      (m : ℕ) (w w' : World E) (j : ℕ)
      → Evolves m
          (E.notifications.get j w.db.notifications)
          (E.notifications.get j w'.db.notifications)
      → Tried E j w.db
      → Tried E j w'.db
  Evolves-Tried m w w' j h (n, found, tried) =
      go (E.notifications.get j w'.db.notifications) refl (rw found at h)
    where
      go :
          (after : Option Notification)
          → E.notifications.get j w'.db.notifications ≡ after
          → Evolves m (some n) (E.notifications.get j w'.db.notifications)
          → Tried E j w'.db
      go none is h = absurd (rw is at h)
      go (some n') is h = elim (rw is at h) [
        | inl same ↦ (n', is, rw same tried)
        | inr (step, _) ↦ (n', is, more step)
      ]
        where
          more : {n' : Notification} → RowStep m n n' → 0 < n'.attempts
          more (begun _ _ one _) = omega (arith, one)
          more (waiting _ same _) = omega (arith, same, tried)
          more (finished _ same _) = omega (arith, same, tried)

module _ {E : Env} (unique : (i j : ℕ) → E.uuid4 i ≡ E.uuid4 j → i ≡ j) where
  -- A step that adds one event under a UUID that it draws.
  pub event-Grows :
      (w w' : World E) (k : ℕ) (e : OutboxEvent)
      → w.draws ≤ k
      → k < w'.draws
      → w.reads ≤ w'.reads
      → e.id ≡ E.uuid4 k
      → w'.db.outbox ≡ E.outbox.put e w.db.outbox
      → (is_notice e.event_type ≡ true → IsRoutable E e)
      → ((j : ℕ) → Going E j w'.db → Going E j w.db ⊎ Noticed j w'.db)
      → ((j : ℕ) → Tried E j w.db → Tried E j w'.db)
      → Grows w w'
  event-Grows w w' k e from below reads id put routes rows lasts = record {
    onward = (omega (arith, from, below), reads);
    sound = λ s. record {
      drawn = λ j x stored. elim (Bool-cases (e.id == j)) [
        | inl here ↦ (k, below, sym ((==_iff e.id j).0 here) ∙ id)
        | inr away ↦
            let (i, lt, is) = s.drawn j x (ground (arith, stored, read j, away)) in
            (i, omega (arith, lt, from, below), is)
      ];
      routable = λ j x stored. elim (Bool-cases (e.id == j)) [
        | inl here ↦
            let is : e ≡ x = ground (arith, stored, read j, here) in
            subst (λ (y : OutboxEvent). is_notice y.event_type ≡ true → IsRoutable E y) is routes
        | inr away ↦ s.routable j x (ground (arith, stored, read j, away))
      ];
    };
    kept = λ s j x stored.
        let away : (e.id == j) ≡ false = apart s j x stored in ground (arith, stored, read j, away);
    rows = λ s j going. rows j going;
    lasts = lasts;
  }
    where
      read :
          (j : ℕ)
          → E.outbox.get j w'.db.outbox ≡ (if e.id == j then some e else E.outbox.get j w.db.outbox)
      read j = rw put (E.outbox.get-put j e w.db.outbox)

      apart :
          IsSound w
          → (j : ℕ) (x : OutboxEvent) → E.outbox.get j w.db.outbox ≡ some x
          → (e.id == j) ≡ false
      apart s j x stored = elim (Bool-cases (e.id == j)) [
        | inr away ↦ away
        | inl here ↦
            let (i, lt, is) = s.drawn j x stored in
            let one : k ≡ i = unique k i (sym id ∙ (==_iff e.id j).0 here ∙ is) in
            absurd (omega (arith, one, lt, from))
      ]
