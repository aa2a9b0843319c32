-- ===== src/Base/Lists.antt =====
-- Lists measured and indexed by native numbers, and membership by recursion.
use Prim.Native.Nat.{ℕ, zero, suc, ◌+◌, ◌≤◌, ◌<◌}
use mathlib.Core.Path.{◌≡◌, refl, ap, ◌∙◌}
use mathlib.Core.Logic.{◌⊎◌, inl, inr}
use mathlib.Core.Bool.{Bool, true, false}
use mathlib.Core.List.{List, [], ◌∷◌, ◌++◌, map}
use mathlib.Core.Option.{Option, none, some}
use native.Mathlib.Omega.{arith}
use native.Mathlib.Numerals.{unary_clauses}

module _ {ℓ} {A : Type ℓ} where
  abbrev pub length : List A → ℕ
  length [] = 0
  length (x ∷ xs) = suc (length xs)

  abbrev pub get_elem? : List A → ℕ → Option A
  get_elem? [] i = none
  get_elem? (x ∷ xs) zero = some x
  get_elem? (x ∷ xs) (suc i) = get_elem? xs i

  abbrev pub take : ℕ → List A → List A
  take zero xs = []
  take (suc n) [] = []
  take (suc n) (x ∷ xs) = x ∷ take n xs

  abbrev pub drop : ℕ → List A → List A
  drop zero xs = xs
  drop (suc n) [] = []
  drop (suc n) (x ∷ xs) = drop n xs

  pub length-append : (xs ys : List A) → length (xs ++ ys) ≡ length xs + length ys
  length-append [] ys = omega arith
  length-append (x ∷ xs) ys = omega (arith, length-append xs ys)

  pub get_elem?_total : (xs : List A) (i : ℕ) → i < length xs → (a : A) × (get_elem? xs i ≡ some a)
  get_elem?_total [] i h = elim h [ ]
  get_elem?_total (x ∷ xs) zero h = (x, refl)
  get_elem?_total (x ∷ xs) (suc i) h = get_elem?_total xs i (omega arith)

  pub take_add : (a b : ℕ) (xs : List A) → take (a + b) xs ≡ take a xs ++ take b (drop a xs)
  take_add zero b xs = let e : 0 + b ≡ b = omega arith in ap (λ n. take n xs) e
  take_add (suc a) zero [] = simp unary_clauses refl
  take_add (suc a) (suc b) [] = simp unary_clauses refl
  take_add (suc a) b (x ∷ xs) =
      let e : suc a + b ≡ suc (a + b) = omega arith in
      ap (λ n. take n (x ∷ xs)) e ∙ ap (λ l. x ∷ l) (take_add a b xs)

  pub drop_add : (a b : ℕ) (xs : List A) → drop b (drop a xs) ≡ drop (a + b) xs
  drop_add zero b xs = let e : b ≡ 0 + b = omega arith in ap (λ n. drop n xs) e
  drop_add (suc a) zero [] = simp unary_clauses refl
  drop_add (suc a) (suc b) [] = simp unary_clauses refl
  drop_add (suc a) b (x ∷ xs) =
      let e : suc (a + b) ≡ suc a + b = omega arith in drop_add a b xs ∙ ap (λ n. drop n (x ∷ xs)) e

  pub take_all : (n : ℕ) (xs : List A) → length xs ≤ n → take n xs ≡ xs
  take_all zero [] h = refl
  take_all (suc n) [] h = refl
  take_all (suc n) (x ∷ xs) h = ap (λ l. x ∷ l) (take_all n xs (omega arith))
  take_all zero (x ∷ xs) h = absurd (omega arith)

  pub length-take-le : (n : ℕ) (xs : List A) → length (take n xs) ≤ n
  length-take-le zero xs = omega arith
  length-take-le (suc n) [] = omega arith
  length-take-le (suc n) (x ∷ xs) = omega (arith, length-take-le n xs)

module _ {A : Type 0} where
  -- `a` is one of the elements.
  abbrev pub Has : A → List A → Type 0
  Has a [] = ⊥
  Has a (x ∷ xs) = (x ≡ a) ⊎ Has a xs

  pub Has-take : (n : ℕ) (xs : List A) (a : A) → Has a (take n xs) → Has a xs
  Has-take (suc n) (x ∷ xs) a (inl e) = inl e
  Has-take (suc n) (x ∷ xs) a (inr h) = inr (Has-take n xs a h)
  Has-take zero xs a h = absurd h
  Has-take (suc n) [] a h = absurd h

  pub Has-drop : (n : ℕ) (xs : List A) (a : A) → Has a (drop n xs) → Has a xs
  Has-drop zero xs a h = h
  Has-drop (suc n) (x ∷ xs) a h = inr (Has-drop n xs a h)
  Has-drop (suc n) [] a h = absurd h

  pub Has-cut : (n : ℕ) (xs : List A) (a : A) → Has a xs → Has a (take n xs) ⊎ Has a (drop n xs)
  Has-cut zero xs a h = inr h
  Has-cut (suc n) (x ∷ xs) a (inl e) = inl (inl e)
  Has-cut (suc n) (x ∷ xs) a (inr h) = elim (Has-cut n xs a h) [
    | inl early ↦ inl (inr early)
    | inr late ↦ inr late
  ]
  Has-cut (suc n) [] a h = absurd h

  -- No two elements are related by `same`; every element comes before the later ones by `le`.
  abbrev pub Distinct : (A → A → Bool) → List A → Type 0
  Distinct same [] = Unit
  Distinct same (x ∷ xs) = ((y : A) → Has y xs → same x y ≡ false) × Distinct same xs

  abbrev pub Sorted : (A → A → Bool) → List A → Type 0
  Sorted le [] = Unit
  Sorted le (x ∷ xs) = ((y : A) → Has y xs → le x y ≡ true) × Sorted le xs

  pub Distinct-take :
      (same : A → A → Bool) (n : ℕ) (xs : List A) → Distinct same xs → Distinct same (take n xs)
  Distinct-take same zero xs d = tt
  Distinct-take same (suc n) [] d = tt
  Distinct-take same (suc n) (x ∷ xs) d =
      (λ y h. d.0 y (Has-take n xs y h), Distinct-take same n xs d.1)

  pub Sorted-take : (le : A → A → Bool) (n : ℕ) (xs : List A) → Sorted le xs → Sorted le (take n xs)
  Sorted-take le zero xs d = tt
  Sorted-take le (suc n) [] d = tt
  Sorted-take le (suc n) (x ∷ xs) d = (λ y h. d.0 y (Has-take n xs y h), Sorted-take le n xs d.1)

  pub Distinct-drop :
      (same : A → A → Bool) (n : ℕ) (xs : List A) → Distinct same xs → Distinct same (drop n xs)
  Distinct-drop same zero xs d = d
  Distinct-drop same (suc n) [] d = tt
  Distinct-drop same (suc n) (x ∷ xs) d = Distinct-drop same n xs d.1

  pub Sorted-drop : (le : A → A → Bool) (n : ℕ) (xs : List A) → Sorted le xs → Sorted le (drop n xs)
  Sorted-drop le zero xs d = d
  Sorted-drop le (suc n) [] d = tt
  Sorted-drop le (suc n) (x ∷ xs) d = Sorted-drop le n xs d.1

-- Membership in a list of values of a function.
module _ {A B : Type 0} (f : A → B) where
  pub Has-map : (xs : List A) (a : A) → Has a xs → Has (f a) (map f xs)
  Has-map (x ∷ xs) a (inl e) = inl (ap f e)
  Has-map (x ∷ xs) a (inr h) = inr (Has-map xs a h)
  Has-map [] a h = absurd h

  pub mapped_from : (xs : List A) (b : B) → Has b (map f xs) → (a : A) × Has a xs × (f a ≡ b)
  mapped_from (x ∷ xs) b (inl e) = (x, inl refl, e)
  mapped_from (x ∷ xs) b (inr h) = let (a, there, e) = mapped_from xs b h in (a, inr there, e)
  mapped_from [] b h = absurd h
