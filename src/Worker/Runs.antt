-- ===== src/Worker/Runs.antt =====
-- Any number of workers on the same tables. Each transaction locks the row of its notification, so
-- what the workers do is a sequence of `reserve` and `apply` calls, in any order, with any messages
-- and any answers of the providers; the time between two calls is whatever the clock shows.
use notification_test.Base.{
  ℕ, ◌+◌, ◌≤◌, ◌≡◌, inl, inr, refl, Option, none, some, List, [], ◌∷◌, arith, ◌==◌, if◌then◌else◌,
  Bool-cases, ==_iff,
}
use notification_test.Exec.{Result, ok, err}
use notification_test.Models.{Notification, Payload}
use notification_test.Platform.{Env}
use notification_test.Config.{Settings}
use notification_test.Providers.{ProviderResult}
use notification_test.World.{World}
use notification_test.Worker.RowSteps.{
  begun, waiting, finished, Evolves, Evolves-refl, Keeps, Keeps-trans, Evolves-Keeps,
}
use notification_test.Worker.Attempts.{reserve}
use notification_test.Worker.Attempts.Rows.{reserve-Evolves}
use notification_test.Worker.Attempts.Outcomes.{reserve_hands_out}
use notification_test.Worker.ResultHandler.Session.{apply_loaded}
use notification_test.Worker.ResultHandler.Session.Late.{Touched, apply_loaded-Touched}
use notification_test.Worker.Processor.{policy_of}

pub data Call : Type 0 where
  reserves : ℕ → Payload → Call
  -- on a session that holds the object, as it was when a worker loaded it
  applies : Notification → Payload → ProviderResult → Call

abbrev handed_out : Result (Option Notification) → ℕ
handed_out (ok (some _)) = 1
handed_out _ = 0

module _ {E : Env} (settings : Settings) where
  unfoldable pub step : Call → World E → World E
  step (reserves id payload) w = (reserve settings id payload w).1
  step (applies n payload result) w = (apply_loaded (policy_of settings) n n.id payload result w).1

  unfoldable pub run : List Call → World E → World E
  unfolding step
  run [] w = w
  run (c ∷ cs) w = run cs (step c w)

  -- One, if the call reserves the notification and so makes the worker call the provider.
  unfoldable pub sends_of : ℕ → Call → World E → ℕ
  sends_of id (reserves i payload) w =
      if i == id then handed_out (reserve settings i payload w).0 else 0
  sends_of id (applies n payload result) w = 0

  -- How often a run of calls makes a worker send the notification.
  unfoldable pub sends : ℕ → List Call → World E → ℕ
  unfolding sends_of step
  sends id [] w = 0
  sends id (c ∷ cs) w = sends_of id c w + sends id cs (step c w)

abbrev pub attempts_of : Option Notification → ℕ
attempts_of none = 0
attempts_of (some n) = n.attempts

-- No notification has more attempts than are allowed.
abbrev pub IsWithin : (E : Env) → ℕ → World E → Type 0
IsWithin E m w = (j : ℕ) → attempts_of (E.notifications.get j w.db.notifications) ≤ m

pub Evolves-le :
    (m : ℕ) (a b : Option Notification) → Evolves m a b → attempts_of a ≤ m → attempts_of b ≤ m
Evolves-le m none none e h = omega arith
Evolves-le m (some n) (some n') (inl e) h = rw e h
Evolves-le m (some n) (some n') (inr (begun _ left more _, _)) h = omega arith
Evolves-le m (some n) (some n') (inr (waiting _ same _, _)) h = omega arith
Evolves-le m (some n) (some n') (inr (finished _ same _, _)) h = omega arith
Evolves-le m (some n) none e h = absurd e
Evolves-le m none (some n) e h = absurd e

Keeps-mono : (a b : Option Notification) → Keeps a b → attempts_of a ≤ attempts_of b
Keeps-mono none none h = omega arith
Keeps-mono (some n) (some n') h = h.attempts
Keeps-mono (some n) none h = absurd h
Keeps-mono none (some n) h = absurd h

Touched-Keeps : (a b : Option Notification) → Touched a b → Keeps a b
Touched-Keeps none none h = tt
Touched-Keeps (some n) (some n') h = h.0
Touched-Keeps (some n) none h = absurd h
Touched-Keeps none (some n) h = absurd h

Touched-le :
    (m : ℕ) (a b : Option Notification) → Touched a b → attempts_of a ≤ m → attempts_of b ≤ m
Touched-le m none none h le = le
Touched-le m (some n) (some n') h le = omega (arith, h.1, le)
Touched-le m (some n) none h le = absurd h
Touched-le m none (some n) h le = absurd h

module _ {E : Env} (settings : Settings) where
  step-Keeps :
      (c : Call) (j : ℕ) (w : World E)
      → Keeps
          (E.notifications.get j w.db.notifications)
          (E.notifications.get j (step settings c w).db.notifications)
  unfolding step
  step-Keeps (reserves id payload) j w =
      Evolves-Keeps settings.max_retries _ _ (reserve-Evolves settings id j payload w)
  step-Keeps (applies n payload result) j w =
      Touched-Keeps _ _ (apply_loaded-Touched (policy_of settings) n payload result w j)

  step-IsWithin :
      (c : Call) (w : World E)
      → IsWithin E settings.max_retries w
      → IsWithin E settings.max_retries (step settings c w)
  unfolding step
  step-IsWithin (reserves id payload) w h j =
      Evolves-le settings.max_retries _ _ (reserve-Evolves settings id j payload w) (h j)
  step-IsWithin (applies n payload result) w h j =
      Touched-le settings.max_retries _ _
        (apply_loaded-Touched (policy_of settings) n payload result w j) (h j)

module _ {E : Env} (settings : Settings) where
  open settings use {max_retries}

  -- Whatever the workers do, no notification gets more attempts than `max_retries`.
  run-IsWithin :
      (cs : List Call) (w : World E)
      → IsWithin E max_retries w
      → IsWithin E max_retries (run settings cs w)
  unfolding run
  run-IsWithin [] w h = h
  run-IsWithin (c ∷ cs) w h = run-IsWithin cs (step settings c w) (step-IsWithin settings c w h)

  -- Whatever the workers do, they add no row and lose none, do not change whom a notification is for or
  -- what it says, and its number of attempts does not fall; and once it is delivered or dropped it stays
  -- one of these.
  pub run-Keeps :
      (cs : List Call) (w : World E) (id : ℕ)
      → Keeps
          (E.notifications.get id w.db.notifications)
          (E.notifications.get id (run settings cs w).db.notifications)
  unfolding run
  run-Keeps [] w id =
      Evolves-Keeps 0 _ _ (Evolves-refl 0 (E.notifications.get id w.db.notifications))
  run-Keeps (c ∷ cs) w id =
      Keeps-trans _ (E.notifications.get id (step settings c w).db.notifications) _
        (step-Keeps settings c id w) (run-Keeps cs (step settings c w) id)

  attempts-handed_out :
      (id : ℕ) (payload : Payload) (w : World E)
      → attempts_of (E.notifications.get id w.db.notifications)
          + handed_out (reserve settings id payload w).0
        ≤ attempts_of (E.notifications.get id (reserve settings id payload w).1.db.notifications)
  attempts-handed_out id payload w = go (reserve settings id payload w).0 refl
    where
      mono :
          attempts_of (E.notifications.get id w.db.notifications)
          ≤ attempts_of (E.notifications.get id (reserve settings id payload w).1.db.notifications)
      mono =
          Keeps-mono _ _ (Evolves-Keeps max_retries _ _ (reserve-Evolves settings id id payload w))

      go :
          (r : Result (Option Notification))
          → (reserve settings id payload w).0 ≡ r
          → attempts_of (E.notifications.get id w.db.notifications) + handed_out r
            ≤ attempts_of
                (E.notifications.get id (reserve settings id payload w).1.db.notifications)
      go (ok (some n')) e =
          let (n, before, began, after) = reserve_hands_out settings id payload w n' e in
          rw (before, after) (omega (arith, began.attempts))
      go (ok none) e = omega (arith, mono)
      go (err x) e = omega (arith, mono)

  attempts-sends_of :
      (id : ℕ) (c : Call) (w : World E)
      → attempts_of (E.notifications.get id w.db.notifications) + sends_of settings id c w
        ≤ attempts_of (E.notifications.get id (step settings c w).db.notifications)
  unfolding sends_of step
  attempts-sends_of id (reserves i payload) w = elim (Bool-cases (i == id)) [
    | inl this ↦
        let e : i ≡ id = (==_iff i id).0 this in rw this (rw e (attempts-handed_out id payload w))
    | inr another ↦
        rw another (omega (arith, Keeps-mono _ _ (step-Keeps settings (reserves i payload) id w)))
  ]
  attempts-sends_of id (applies n payload result) w =
      omega (arith, Keeps-mono _ _ (step-Keeps settings (applies n payload result) id w))

  -- Each time that a worker sends a notification costs one of its attempts.
  pub attempts-sends :
      (id : ℕ) (cs : List Call) (w : World E)
      → attempts_of (E.notifications.get id w.db.notifications) + sends settings id cs w
        ≤ attempts_of (E.notifications.get id (run settings cs w).db.notifications)
  unfolding sends run
  attempts-sends id [] w = omega arith
  attempts-sends id (c ∷ cs) w =
      omega (arith, attempts-sends_of id c w, attempts-sends id cs (step settings c w))

  -- So the workers together send a notification at most `max_retries` times, however often its
  -- messages are delivered again.
  pub sends-le :
      (id : ℕ) (cs : List Call) (w : World E)
      → IsWithin E max_retries w
      → sends settings id cs w ≤ max_retries
  sends-le id cs w h = omega (arith, attempts-sends id cs w, run-IsWithin cs w h id)
