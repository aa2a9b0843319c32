-- ===== src/Exec.antt =====
-- Methods that change the stored state and may raise. What was written before a raise stays
-- written, so the state comes back beside the error too; a transaction undoes it (World).
pub mod Comprehensions
use notification_test.Models.{Payload}
use notification_test.Base.{
  List, [], ◌∷◌, Option, none, some, String, ◌≡◌, ◌⊎◌, inl, inr, refl, arith,
}

-- The exceptions of the program, and those of the libraries that reach it.
pub data Error : Type 0 where
  -- sqlalchemy.exc
  integrity_error multiple_results_found no_result_found : Error
  -- redis.exceptions.RedisError
  redis_error : Error
  -- IdempotencyConflictError, IdempotencyInProgressError (services)
  idempotency_conflict idempotency_in_progress : Error
  -- IdempotencyRecordExists, with the response that is stored
  idempotency_record_exists : Payload → Error
  -- Python's own
  key_error value_error index_error : Error
  -- any other exception of a provider or of the broker, with its text
  other : String → Error

pub data Result {ℓ} (A : Type ℓ) : Type ℓ where
  ok : A → Result A
  err : Error → Result A

abbrev pub Exec : Type 0 → Type 0 → Type 0
Exec S A = S → Result A × S

module _ {S A : Type 0} where
  abbrev pub pure : A → Exec S A
  pure a s = (ok a, s)

  abbrev pub raise : Error → Exec S A
  raise e s = (err e, s)

  abbrev pub gets : (S → A) → Exec S A
  gets f s = (ok (f s), s)

  abbrev pub lift : Result A → Exec S A
  lift r s = (r, s)

infixl 5 ◌>>=◌ ◌>>◌
abbrev pub ◌>>=◌ : {S A B : Type 0} → Exec S A → (A → Exec S B) → Exec S B
◌>>=◌ m f s = let (r, s') = m s in elim r [ ok a ↦ f a s' | err e ↦ (err e, s') ]

abbrev pub ◌>>◌ : {S A B : Type 0} → Exec S A → Exec S B → Exec S B
m >> k = m >>= λ _. k

abbrev pub modify : {S : Type 0} → (S → S) → Exec S (Unit {0})
modify f s = (ok tt, f s)

abbrev pub or_raise : {S A : Type 0} → Option A → Error → Exec S A
or_raise none e s = (err e, s)
or_raise (some a) e s = (ok a, s)

-- A comprehension whose element may raise.
unfoldable pub collect : {A B : Type 0} → (A → Result B) → List A → Result (List B)
collect f [] = ok []
collect f (x ∷ xs) =
    let rest = collect f xs in
    elim (f x) [ err e ↦ err e | ok y ↦ elim rest [ err e ↦ err e | ok ys ↦ ok (y ∷ ys) ] ]

pub Result-cases {ℓ} :
    {A : Type ℓ} (r : Result A) → ((a : A) × (r ≡ ok a)) ⊎ ((e : Error) × (r ≡ err e))
Result-cases (ok a) = inl (a, refl)
Result-cases (err e) = inr (e, refl)

-- A block that returned has run its first step to the end, and then the rest.
pub >>=_ok :
    {S A B : Type 0} (m : Exec S A) (f : A → Exec S B) (s : S) {b : B}
    → ((m >>= f) s).0 ≡ ok b
    → (a : A) × ((m s).0 ≡ ok a) × ((m >>= f) s ≡ f a (m s).1)
>>=_ok m f s h = elim (Result-cases (m s).0) [
  | inl (a, e) ↦ (a, e, rw (e, ◌>>=◌))
  | inr (x, e) ↦ ground arith
]

-- A block goes on from what its first step returned.
pub >>=-eq :
    {S A B : Type 0} (m : Exec S A) (f : A → Exec S B) (s : S) {a : A}
    → (m s).0 ≡ ok a
    → (m >>= f) s ≡ f a (m s).1
>>=-eq m f s h = rw (h, ◌>>=◌)
