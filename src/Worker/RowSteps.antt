-- ===== src/Worker/RowSteps.antt =====
-- How the workers change the row of a notification: the steps of a row that was loaded in the same
-- transaction, and what every change keeps.
use notification_test.Base.{
  ℕ, suc, ◌<◌, ◌≤◌, ◌≡◌, ◌⊎◌, inl, inr, refl, sym, true, false, Option, none, some, arith, ◌==◌,
  ==_iff, Bool-cases,
}
use mathlib.Core.Path.{subst}
use notification_test.Exec.{Exec}
use notification_test.Models.{Notification, sent, is_final_status}
use notification_test.Platform.{Env}
use notification_test.World.{World, transaction}

-- The columns that no worker writes.
pub record SameNotice (n n' : Notification) : Type 0 where
  pub id : n'.id ≡ n.id
  pub batch_id : n'.batch_id ≡ n.batch_id
  pub subscriber_id : n'.subscriber_id ≡ n.subscriber_id
  pub channel : n'.channel ≡ n.channel
  pub type : n'.type ≡ n.type
  pub message : n'.message ≡ n.message
  pub created_at : n'.created_at ≡ n.created_at

-- One write of the row, under a limit on the attempts.
pub data RowStep (max_retries : ℕ) (n n' : Notification) : Type 0 where
  begun :
      is_final_status n.status ≡ false
      → n.attempts < max_retries
      → n'.attempts ≡ suc n.attempts
      → n'.status ≡ sent
      → RowStep max_retries n n'
  waiting :
      is_final_status n.status ≡ false
      → n'.attempts ≡ n.attempts
      → n'.status ≡ n.status
      → RowStep max_retries n n'
  finished :
      is_final_status n.status ≡ false
      → n'.attempts ≡ n.attempts
      → is_final_status n'.status ≡ true
      → RowStep max_retries n n'

-- What every worker keeps of a row: whom it is for and what it says, the number of attempts from
-- falling, and a status that is final from being any other.
pub record Keeping (n n' : Notification) : Type 0 where
  pub same : SameNotice n n'
  pub attempts : n.attempts ≤ n'.attempts
  pub ended : is_final_status n.status ≡ true → (is_final_status n'.status ≡ true)

-- A write of the row `n`, or none: what became of the table.
abbrev pub Writes :
    (E : Env) → ℕ → Notification → E.notifications.State → E.notifications.State → Type 0
Writes E max_retries n s s' =
    (s' ≡ s)
    ⊎ ((n' : Notification) × RowStep max_retries n n'
        × SameNotice n n'
        × (s' ≡ E.notifications.put n' s))

-- The same for the row with a given id, if there is one.
abbrev pub Keeps : Option Notification → Option Notification → Type 0
Keeps none none = Unit {0}
Keeps (some n) (some n') = Keeping n n'
Keeps _ _ = ⊥

pub Keeping-refl : (n : Notification) → Keeping n n
Keeping-refl n = record { same = ground arith; attempts = omega arith; ended = λ final. final }

SameNotice-trans :
    (n n' n'' : Notification) → SameNotice n n' → SameNotice n' n'' → SameNotice n n''
SameNotice-trans n n' n'' h k = ground arith

pub Keeps-trans : (a b c : Option Notification) → Keeps a b → Keeps b c → Keeps a c
Keeps-trans none none none h k = tt
Keeps-trans (some n) (some n') (some n'') h k = record {
  same = SameNotice-trans n n' n'' h.same k.same;
  attempts = omega (arith, h.attempts, k.attempts);
  ended = λ final. k.ended (h.ended final);
}
Keeps-trans (some n) none c h k = absurd h
Keeps-trans none (some n) c h k = absurd h
Keeps-trans none none (some n) h k = absurd k
Keeps-trans (some n) (some n') none h k = absurd k

-- What became of the row with a given id: it is never lost and never made up.
abbrev pub Evolves : ℕ → Option Notification → Option Notification → Type 0
Evolves max_retries none none = Unit {0}
Evolves max_retries (some n) (some n') = (n' ≡ n) ⊎ (RowStep max_retries n n' × SameNotice n n')
Evolves max_retries _ _ = ⊥

pub Evolves-refl : (m : ℕ) (o : Option Notification) → Evolves m o o
Evolves-refl m none = tt
Evolves-refl m (some n) = inl refl

pub step-Keeping : (m : ℕ) (n n' : Notification) → RowStep m n n' → SameNotice n n' → Keeping n n'
step-Keeping m n n' (begun going _ more _) same = record {
  same = same;
  attempts = omega (arith, more);
  ended = λ final. ground (arith, going, final);
}
step-Keeping m n n' (waiting going kept _) same = record {
  same = same;
  attempts = omega (arith, kept);
  ended = λ final. ground (arith, going, final);
}
step-Keeping m n n' (finished going kept over) same = record {
  same = same;
  attempts = omega (arith, kept);
  ended = λ final. over;
}

pub Evolves-Keeps : (m : ℕ) (a b : Option Notification) → Evolves m a b → Keeps a b
Evolves-Keeps m none none e = tt
Evolves-Keeps m (some n) (some n') (inl e) = subst (Keeping n) (sym e) (Keeping-refl n)
Evolves-Keeps m (some n) (some n') (inr (step, same)) = step-Keeping m n n' step same
Evolves-Keeps m (some n) none e = absurd e
Evolves-Keeps m none (some n) e = absurd e

module _ (E : Env) where
  open E.notifications use {get, put, get-put, get_key}

  put-Evolves :
      (m j id : ℕ) (n n' : Notification) (s : E.notifications.State)
      → get id s ≡ some n
      → RowStep m n n'
      → SameNotice n n'
      → Evolves m (get j s) (get j (put n' s))
  put-Evolves m j id n n' s found step same = elim (Bool-cases (n'.id == j)) [
    | inl here ↦
        let e : j ≡ id = omega (arith, same.id, get_key id n s found, (==_iff n'.id j).0 here) in
        rw (get-put j n' s, here) (rw e (rw found (inr (step, same))))
    | inr away ↦ rw (get-put j n' s, away) (Evolves-refl m (get j s))
  ]

  pub Writes-Evolves :
      (m j id : ℕ) (n : Notification) (s s' : E.notifications.State)
      → get id s ≡ some n
      → Writes E m n s s'
      → Evolves m (get j s) (get j s')
  Writes-Evolves m j id n s s' found (inl e) = rw e (Evolves-refl m (get j s))
  Writes-Evolves m j id n s s' found (inr (n', step, same, e)) =
      rw e (put-Evolves m j id n n' s found step same)

-- A transaction that raises writes nothing, so its writes are those of its block.
pub transaction-Writes :
    {E : Env} {A : Type 0} (m : ℕ) (n : Notification) (w : World E) (block : Exec (World E) A)
    → Writes E m n w.db.notifications (block w).1.db.notifications
    → Writes E m n w.db.notifications (transaction block w).1.db.notifications
transaction-Writes m n w block h = ground arith
