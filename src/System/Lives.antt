-- ===== src/System/Lives.antt =====
-- The life of a notification in the whole service, from its creation on.
use notification_test.Base.{
  ℕ, ◌≤◌, ◌≡◌, inl, inr, refl, Option, none, some, arith, ◌==◌, Bool-cases,
}
use notification_test.Models.{Notification, BulkNotificationRequest}
use notification_test.Platform.{Env}
use notification_test.Config.{Settings}
use notification_test.World.{World}
use notification_test.Services.Notifications.{add_recipient}
use notification_test.Services.Notifications.Creation.{row_of}
use notification_test.Messaging.Topology.{Names}
use notification_test.Worker.RowSteps.{Evolves, Keeping, Keeping-refl, Keeps-trans, Evolves-Keeps}
use notification_test.Worker.Runs.{IsWithin, Evolves-le}
use notification_test.Worker.Attempts.{reserve}
use notification_test.Worker.Attempts.Rows.{reserve-Evolves}
use notification_test.Worker.ResultHandler.{apply}
use notification_test.Worker.ResultHandler.Rows.{apply-Evolves}
use notification_test.Worker.Processor.{policy_of}
use notification_test.System.Changes.{Onward, Onward-trans, Steady}
use notification_test.System.Rabbit.{Rabbit}
use notification_test.System.Keys.{cleanup_once-Steady}
use notification_test.System.Requests.{create_bulk-Steady}
use notification_test.System.Recipients.{add_recipient_lem, add_recipient_kept}
use notification_test.System.Tracking.{Tracked, steps-Tracked}
use notification_test.System.Steps.{Service, IsFresh, Steps}

-- What became of a row under a limit on the attempts, if it was there.
abbrev pub Lasts : ℕ → Option Notification → Option Notification → Type 0
Lasts m none found = Unit {0}
Lasts m (some n) none = ⊥
Lasts m (some n) (some n') = Keeping n n' × (n.attempts ≤ m → (n'.attempts ≤ m))

Lasts-refl : (m : ℕ) (o : Option Notification) → Lasts m o o
Lasts-refl m none = tt
Lasts-refl m (some n) = (Keeping-refl n, λ within. within)

Lasts-trans : (m : ℕ) (a b c : Option Notification) → Lasts m a b → Lasts m b c → Lasts m a c
Lasts-trans m none b c h k = tt
Lasts-trans m (some n) none c h k = absurd h
Lasts-trans m (some n) (some n') none h k = absurd k
Lasts-trans m (some n) (some n') (some n'') (h, le) (k, le') =
    (Keeps-trans (some n) (some n') (some n'') h k, λ within. le' (le within))

Evolves-Lasts : (m : ℕ) (a b : Option Notification) → Evolves m a b → Lasts m a b
Evolves-Lasts m none b h = tt
Evolves-Lasts m (some n) none h = absurd h
Evolves-Lasts m (some n) (some n') h =
    (Evolves-Keeps m (some n) (some n') h, Evolves-le m (some n) (some n') h)

-- A step of the service, on every row.
record Lives {E : Env} (m : ℕ) (w w' : World E) : Type 0 where
  lasts :
      (j : ℕ)
      → Lasts m
          (E.notifications.get j w.db.notifications)
          (E.notifications.get j w'.db.notifications)
  within : IsWithin E m w → IsWithin E m w'

module _ {E : Env} (m : ℕ) where
  same-Lives : (w w' : World E) → w'.db.notifications ≡ w.db.notifications → Lives m w w'
  same-Lives w w' same = record {
    lasts = λ j. rw same (Lasts-refl m (E.notifications.get j w.db.notifications));
    within = λ h j. rw same (h j);
  }

  Lives-trans : (w w₁ w₂ : World E) → Lives m w w₁ → Lives m w₁ w₂ → Lives m w w₂
  Lives-trans w w₁ w₂ l k = record {
    lasts = λ j.
        Lasts-trans m (E.notifications.get j w.db.notifications)
          (E.notifications.get j w₁.db.notifications) (E.notifications.get j w₂.db.notifications)
          (l.lasts j) (k.lasts j);
    within = λ h. k.within (l.within h);
  }

  Lives-Steady : Steady (λ (w w' : World E). Onward w w' × Lives m w w')
  Lives-Steady = record {
    onward = λ w w' l. l.0;
    trans = λ w w₁ w₂ l k. (Onward-trans w w₁ w₂ l.0 k.0, Lives-trans w w₁ w₂ l.1 k.1);
    quiet = λ w w' on outbox rows history. (on, same-Lives w w' rows);
  }

  -- A transaction of the workers.
  Evolves-Lives :
      (w w' : World E)
      → ((j : ℕ)
          → Evolves m
              (E.notifications.get j w.db.notifications)
              (E.notifications.get j w'.db.notifications))
      → Lives m w w'
  Evolves-Lives w w' steps = record {
    lasts = λ j. Evolves-Lasts m _ _ (steps j);
    within = λ h j. Evolves-le m _ _ (steps j) (h j);
  }

  add_recipient-Lives :
      (request : BulkNotificationRequest) (b r : ℕ) (w : World E)
      → Onward w (add_recipient request b r w).1 × Lives m w (add_recipient request b r w).1
  add_recipient-Lives request b r w =
      let w' = (add_recipient request b r w).1 in
      let (draws, reads, put, rows) = add_recipient_lem request b r w in
      (
        (omega (arith, draws), reads),
        record {
          lasts = λ j.
              kept j (E.notifications.get j w.db.notifications) refl
                (λ n' found. add_recipient_kept request b r w j n' found);
          within = λ h j. elim rows [
            | inl same ↦ rw same (h j)
            | inr added ↦ elim (Bool-cases ((row_of request b r w).id == j)) [
              | inl here ↦ ground (
                arith,
                added,
                E.notifications.get-put j (row_of request b r w) w.db.notifications,
                here,
              )
              | inr away ↦ ground (
                arith,
                added,
                E.notifications.get-put j (row_of request b r w) w.db.notifications,
                away,
                h j,
              )
            ]
          ];
        },
      )
    where
      kept :
          (j : ℕ) (found : Option Notification)
          → E.notifications.get j w.db.notifications ≡ found
          → ((n' : Notification)
              → E.notifications.get j w.db.notifications ≡ some n'
              → E.notifications.get j (add_recipient request b r w).1.db.notifications ≡ some n')
          → Lasts m found (E.notifications.get j (add_recipient request b r w).1.db.notifications)
      kept j none e h = tt
      kept j (some n) e h = rw (h n e) (Lasts-refl m (some n))

Lives-Tracked :
    {E : Env} (settings : Settings) → Tracked settings (Lives {E = E} settings.max_retries)
Lives-Tracked settings =
    let m = settings.max_retries in
    record {
      stay = λ w. same-Lives m w w refl;
      trans = Lives-trans m;
      creates = λ request key w.
          (create_bulk-Steady (Lives-Steady m) request (add_recipient-Lives m request) settings key
            w).1;
      cleans = λ w. (cleanup_once-Steady (Lives-Steady m) w).1;
      marks = λ Sent w w' marked. same-Lives m w w' marked.notifications;
      reserves = λ id payload w.
          Evolves-Lives m w (reserve settings id payload w).1
            (λ j. reserve-Evolves settings id j payload w);
      applies = λ id payload result w.
          Evolves-Lives m w (apply (policy_of settings) id payload result w).1
            (λ j. apply-Evolves m (policy_of settings) id j payload result w);
    }

module _ {E : Env} {B M : Type 0} {names : Names} (rabbit : Rabbit B M names)
    (settings : Settings) where
  -- In whatever order the requests, the cleaner, the publishers and the workers take their steps from
  -- an empty database, a notification has at most max_retries attempts, and whatever happens after
  -- that it is not lost, stays for the same recipient with the same message, its number of attempts does
  -- not fall and stays within max_retries, and once it is delivered or dropped it stays one of these.
  pub steps-Life :
      (s s' s'' : Service E B)
      → IsFresh s
      → Steps rabbit settings s s'
      → Steps rabbit settings s' s''
      → (n : Notification) → E.notifications.get n.id s'.world.db.notifications ≡ some n
      → (n.attempts ≤ settings.max_retries)
        × ((n' : Notification) × (E.notifications.get n.id s''.world.db.notifications ≡ some n')
            × Keeping n n'
            × (n'.attempts ≤ settings.max_retries))
  steps-Life s s' s'' fresh first then n found =
      let before = steps-Tracked rabbit settings (Lives-Tracked settings) s s' first in
      let after = steps-Tracked rabbit settings (Lives-Tracked settings) s' s'' then in
      let start : IsWithin E settings.max_retries s.world =
        λ j. rw (fresh.notifications j) (omega arith) in
      let few : n.attempts ≤ settings.max_retries = rw found at (before.within start n.id) in
      (few, go _ refl (rw found at (after.lasts n.id)) few)
    where
      go :
          (found' : Option Notification)
          → E.notifications.get n.id s''.world.db.notifications ≡ found'
          → Lasts settings.max_retries (some n) found'
          → n.attempts ≤ settings.max_retries
          → (n' : Notification) × (found' ≡ some n')
            × Keeping n n'
            × (n'.attempts ≤ settings.max_retries)
      go none e h few = absurd h
      go (some n') e (kept, within) few = (n', refl, kept, within few)
