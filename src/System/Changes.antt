-- ===== src/System/Changes.antt =====
-- What holds of a change of the tables because it holds of the writes that the change is made of.
use notification_test.Base.{◌≤◌, ◌≡◌, refl, ap, arith, inl, inr}
use notification_test.Exec.{Exec, Result-cases, ◌>>=◌, >>=-eq, pure}
use notification_test.Platform.{Env}
use notification_test.World.{Db, World, transaction}

-- The stream of the UUIDs and the clock do not go back.
abbrev pub Onward : {E : Env} → World E → World E → Type 0
Onward w w' = (w.draws ≤ w'.draws) × (w.reads ≤ w'.reads)

pub stays : {E : Env} (w : World E) → Onward w w
stays w = (omega arith, omega arith)

pub Onward-trans : {E : Env} (w w₁ w₂ : World E) → Onward w w₁ → Onward w₁ w₂ → Onward w w₂
Onward-trans w w₁ w₂ (draws, reads) (draws', reads') =
    (omega (arith, draws, draws'), omega (arith, reads, reads'))

-- A property of the states before and after a step: a step that writes nothing has it, and it is
-- kept by a step before it that only read the clock.
pub record Change {E : Env} (Q : World E → World E → Type 0) : Type 0 where
  pub onward : (w w' : World E) → Q w w' → Onward w w'
  pub same : (w w' : World E) → Onward w w' → w'.db ≡ w.db → Q w w'
  pub later :
      (w w₁ w' : World E)
      → w₁.db ≡ w.db
      → w₁.draws ≡ w.draws
      → w.reads ≤ w₁.reads
      → Q w₁ w'
      → Q w w'

-- A property of steps that holds of two in a row when it holds of each. It holds of a step that
-- leaves the notifications, their history and the outbox alone.
pub record Steady {E : Env} (R : World E → World E → Type 0) : Type 0 where
  pub onward : (w w' : World E) → R w w' → Onward w w'
  pub trans : (w w₁ w₂ : World E) → R w w₁ → R w₁ w₂ → R w w₂
  pub quiet :
      (w w' : World E)
      → Onward w w'
      → w'.db.outbox ≡ w.db.outbox
      → w'.db.notifications ≡ w.db.notifications
      → w'.db.history ≡ w.db.history
      → R w w'

module _ {E : Env} where
  pub then_pure :
      {A B : Type 0} (m : Exec (World E) A) (b : B) (w : World E)
      → ((m >>= λ _. pure b) w).1 ≡ (m w).1
  then_pure m b w = elim (Result-cases (m w).0) [
    | inl (a, e) ↦ ground (arith, e)
    | inr (x, e) ↦ ground (arith, e)
  ]

  pub unchanged-Steady :
      {R : World E → World E → Type 0} (s : Steady R) (w w' : World E)
      → Onward w w'
      → w'.db ≡ w.db
      → R w w'
  unchanged-Steady s w w' more same =
      s.quiet w w' more (ap (λ (d : Db E). d.outbox) same) (ap (λ (d : Db E). d.notifications) same)
        (ap (λ (d : Db E). d.history) same)

  pub Steady-Change : {R : World E → World E → Type 0} → Steady R → Change R
  Steady-Change s = record {
    onward = s.onward;
    same = unchanged-Steady s;
    later = λ w w₁ w' same draws reads h.
        s.trans w w₁ w' (unchanged-Steady s w w₁ (omega (arith, draws), reads) same) h;
  }

  pub transaction-Change :
      {Q : World E → World E → Type 0} {A : Type 0} (c : Change Q) (block : Exec (World E) A)
      (w : World E)
      → Q w (block w).1
      → Q w (transaction block w).1
  transaction-Change c block w h = elim (Result-cases (block w).0) [
    | inl (a, e) ↦ let same : (transaction block w).1 ≡ (block w).1 = ground (arith, e) in rw same h
    | inr (x, e) ↦
        let undone : World E = record (block w).1 { db = w.db } in
        let same : (transaction block w).1 ≡ undone = ground (arith, e) in
        rw same (c.same w undone (c.onward w (block w).1 h) refl)
  ]

  pub bind-Steady :
      {R : World E → World E → Type 0} {A B : Type 0} (s : Steady R) (m : Exec (World E) A)
      (f : A → Exec (World E) B) (w : World E)
      → R w (m w).1
      → ((a : A) → R (m w).1 (f a (m w).1).1)
      → R w ((m >>= f) w).1
  bind-Steady s m f w first rest = elim (Result-cases (m w).0) [
    | inl (a, e) ↦ rw (>>=-eq m f w e) (s.trans w (m w).1 (f a (m w).1).1 first (rest a))
    | inr (x, e) ↦ let same : ((m >>= f) w).1 ≡ (m w).1 = ground (arith, e) in rw same first
  ]
