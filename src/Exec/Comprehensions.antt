-- ===== src/Exec/Comprehensions.antt =====
-- A comprehension whose element may raise: what it keeps of the list it runs over.
use notification_test.Base.{
  suc, ◌≡◌, inl, inr, refl, ap, Bool, true, false, List, [], ◌∷◌, ◌++◌, arith, length, Has,
  Distinct, Sorted,
}
use notification_test.Exec.{collect, Result, Result-cases, ok}

module _ {A B : Type 0} (f : A → Result B) where
  -- A comprehension that returned has the value of every element.
  pub collect_cons :
      (x : A) (xs : List A) (zs : List B)
      → collect f (x ∷ xs) ≡ ok zs
      → (y : B) × (ys : List B) × (f x ≡ ok y) × (collect f xs ≡ ok ys) × (zs ≡ y ∷ ys)
  unfolding collect
  collect_cons x xs zs h = elim (Result-cases (f x)) [
    | inl (y, e) ↦ elim (Result-cases (collect f xs)) [
      | inl (ys, es) ↦ (y, ys, e, es, ground (arith, e, es, h))
      | inr (z, raised) ↦ ground (arith, e, raised, h)
    ]
    | inr (z, raised) ↦ ground (arith, raised, h)
  ]

  collect_nil : (zs : List B) → collect f [] ≡ ok zs → [] ≡ zs
  unfolding collect
  collect_nil zs h = ground (arith, h)

  pub length-collect : (xs : List A) (zs : List B) → collect f xs ≡ ok zs → length zs ≡ length xs
  length-collect [] zs h = rw (← collect_nil zs h) refl
  length-collect (x ∷ xs) zs h =
      let (y, ys, e, es, whole) = collect_cons x xs zs h in
      rw whole (ap suc (length-collect xs ys es))

  pub collect_sound :
      (xs : List A) (zs : List B) (z : B)
      → collect f xs ≡ ok zs
      → Has z zs
      → (x : A) × Has x xs × (f x ≡ ok z)
  collect_sound [] zs z h has = absurd (rw (← collect_nil zs h) at has)
  collect_sound (x ∷ xs) zs z h has =
      let (y, ys, e, es, whole) = collect_cons x xs zs h in
      elim (rw whole at has) [
        | inl same ↦ (x, inl refl, ground (arith, e, same))
        | inr later ↦ let (x', there, e') = collect_sound xs ys z es later in (x', inr there, e')
      ]

  pub collect_complete :
      (xs : List A) (zs : List B) (x : A)
      → collect f xs ≡ ok zs
      → Has x xs
      → (z : B) × Has z zs × (f x ≡ ok z)
  collect_complete [] zs x h has = absurd has
  collect_complete (x' ∷ xs) zs x h has =
      let (y, ys, e, es, whole) = collect_cons x' xs zs h in
      elim has [
        | inl same ↦ (y, rw whole (inl refl), ground (arith, e, same))
        | inr later ↦
            let (z, there, e') = collect_complete xs ys x es later in (z, rw whole (inr there), e')
      ]

  pub collect-append :
      (xs xs' : List A) (zs : List B)
      → collect f (xs ++ xs') ≡ ok zs
      → (ys ys' : List B) × (collect f xs ≡ ok ys) × (collect f xs' ≡ ok ys') × (zs ≡ ys ++ ys')
  unfolding collect
  collect-append [] xs' zs h = ([], zs, refl, h, refl)
  collect-append (x ∷ xs) xs' zs h =
      let (y, ys, e, es, whole) = collect_cons x (xs ++ xs') zs h in
      let (vs, vs', e₁, e₂, cut) = collect-append xs xs' ys es in
      (y ∷ vs, vs', ground (arith, e, e₁), e₂, ground (arith, whole, cut))

  pub append-collect :
      (xs xs' : List A) (ys ys' : List B)
      → collect f xs ≡ ok ys
      → collect f xs' ≡ ok ys'
      → collect f (xs ++ xs') ≡ ok (ys ++ ys')
  unfolding collect
  append-collect [] xs' ys ys' h h' = let none_ = collect_nil ys h in ground (arith, h', none_)
  append-collect (x ∷ xs) xs' ys ys' h h' =
      let (y, vs, e, es, whole) = collect_cons x xs ys h in
      let rest = append-collect xs xs' vs ys' es h' in ground (arith, e, rest, whole)

  -- A relation between every element and the later ones goes over to the values.
  module _ (le : A → A → Bool) (le' : B → B → Bool)
      (transfers : (b : Bool) (x x' : A) (y y' : B)
        → f x ≡ ok y
        → f x' ≡ ok y'
        → le x x' ≡ b
        → le' y y' ≡ b) where
    head_transfers :
        (b : Bool) (x : A) (y : B) (xs : List A) (ys : List B)
        → f x ≡ ok y
        → collect f xs ≡ ok ys
        → ((x' : A) → Has x' xs → le x x' ≡ b)
        → (y' : B) → Has y' ys
        → le' y y' ≡ b
    head_transfers b x y xs ys e es all y' has =
        let (x', there, e') = collect_sound xs ys y' es has in
        transfers b x x' y y' e e' (all x' there)

    pub collect-Sorted :
        (xs : List A) (zs : List B) → collect f xs ≡ ok zs → Sorted le xs → Sorted le' zs
    collect-Sorted [] zs h s = rw (← collect_nil zs h) tt
    collect-Sorted (x ∷ xs) zs h s =
        let (y, ys, e, es, whole) = collect_cons x xs zs h in
        rw whole (head_transfers true x y xs ys e es s.0, collect-Sorted xs ys es s.1)

    pub collect-Distinct :
        (xs : List A) (zs : List B) → collect f xs ≡ ok zs → Distinct le xs → Distinct le' zs
    collect-Distinct [] zs h s = rw (← collect_nil zs h) tt
    collect-Distinct (x ∷ xs) zs h s =
        let (y, ys, e, es, whole) = collect_cons x xs zs h in
        rw whole (head_transfers false x y xs ys e es s.0, collect-Distinct xs ys es s.1)
