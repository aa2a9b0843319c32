-- ===== src/Platform/ListTable.antt =====
-- A table as the list of its writes, the latest first: an instance of the interface, for tests.
use notification_test.Base.{
  ◌≡◌, ◌↔◌, ◌⊎◌, inl, inr, refl, Bool, true, false, not, Option, none, some, List, [], ◌∷◌, arith,
  Has, Distinct, Sorted, if◌then◌else◌, Bool-cases,
}
use notification_test.Platform.{Table}

-- The elements that meet a condition.
module _ {A : Type 0} (p : A → Bool) where
  abbrev pub keep : List A → List A
  keep [] = []
  keep (x ∷ xs) = let rest = keep xs in if p x then x ∷ rest else rest

  pub keep_sound : (xs : List A) (a : A) → Has a (keep xs) → (p a ≡ true) × Has a xs
  keep_sound [] a h = absurd h
  keep_sound (x ∷ xs) a h = ground (arith, keep_sound xs a)

  pub keep_complete : (xs : List A) (a : A) → Has a xs → p a ≡ true → Has a (keep xs)
  keep_complete (x ∷ xs) a (inl e) h = ground arith
  keep_complete (x ∷ xs) a (inr m) h = ground (arith, keep_complete xs a m)
  keep_complete [] a m h = absurd m

  pub keep-Distinct :
      (same : A → A → Bool) (xs : List A) → Distinct same xs → Distinct same (keep xs)
  keep-Distinct same [] d = tt
  keep-Distinct same (x ∷ xs) d = elim (Bool-cases (p x)) [
    | inl kept ↦ rw kept (λ y h. d.0 y (keep_sound xs y h).1, keep-Distinct same xs d.1)
    | inr left ↦ rw left (keep-Distinct same xs d.1)
  ]

-- Insertion sort.
module _ {A : Type 0} (le : A → A → Bool) where
  abbrev pub insert : A → List A → List A
  insert a [] = a ∷ []
  insert a (x ∷ xs) = let rest = insert a xs in if le a x then a ∷ x ∷ xs else x ∷ rest

  abbrev pub sort : List A → List A
  sort [] = []
  sort (x ∷ xs) = insert x (sort xs)

  pub insert_sound : (a : A) (xs : List A) (b : A) → Has b (insert a xs) → (a ≡ b) ⊎ Has b xs
  insert_sound a [] b h = h
  insert_sound a (x ∷ xs) b h = ground (arith, insert_sound a xs b)

  pub insert_complete : (a : A) (xs : List A) (b : A) → (a ≡ b) ⊎ Has b xs → Has b (insert a xs)
  insert_complete a [] b h = h
  insert_complete a (x ∷ xs) b h = ground (arith, insert_complete a xs b)

  pub sort_sound : (xs : List A) (b : A) → Has b (sort xs) → Has b xs
  sort_sound [] b h = h
  sort_sound (x ∷ xs) b h = elim (insert_sound x (sort xs) b h) [
    | inl e ↦ inl e
    | inr m ↦ inr (sort_sound xs b m)
  ]

  pub sort_complete : (xs : List A) (b : A) → Has b xs → Has b (sort xs)
  sort_complete [] b h = h
  sort_complete (x ∷ xs) b (inl e) = insert_complete x (sort xs) b (inl e)
  sort_complete (x ∷ xs) b (inr m) = insert_complete x (sort xs) b (inr (sort_complete xs b m))

  module _ (same : A → A → Bool) (same_sym : (a b : A) → same a b ≡ false → same b a ≡ false) where
    pub insert-Distinct :
        (a : A) (xs : List A)
        → ((y : A) → Has y xs → same a y ≡ false)
        → Distinct same xs
        → Distinct same (insert a xs)
    insert-Distinct a [] h d = (h, tt)
    insert-Distinct a (x ∷ xs) h d = elim (Bool-cases (le a x)) [
      | inl first ↦ rw first (h, d)
      | inr later ↦ rw later (
        λ y m. elim (insert_sound a xs y m) [
          | inl e ↦ rw (← e) (same_sym a x (h x (inl refl)))
          | inr m' ↦ d.0 y m'
        ],
        insert-Distinct a xs (λ y m. h y (inr m)) d.1,
      )
    ]

    pub sort-Distinct : (xs : List A) → Distinct same xs → Distinct same (sort xs)
    sort-Distinct [] d = tt
    sort-Distinct (x ∷ xs) d =
        insert-Distinct x (sort xs) (λ y m. d.0 y (sort_sound xs y m)) (sort-Distinct xs d.1)

  module _ (total : (a b : A) → le a b ≡ false → le b a ≡ true)
      (trans : (a b c : A) → le a b ≡ true → le b c ≡ true → le a c ≡ true) where
    pub insert-Sorted : (a : A) (xs : List A) → Sorted le xs → Sorted le (insert a xs)
    insert-Sorted a [] d = (λ y m. absurd m, tt)
    insert-Sorted a (x ∷ xs) d = elim (Bool-cases (le a x)) [
      | inl first ↦
          rw first
            (λ y m. elim m [ inl e ↦ rw (← e) first | inr m' ↦ trans a x y first (d.0 y m') ], d)
      | inr later ↦ rw later (
        λ y m. elim (insert_sound a xs y m) [
          | inl e ↦ rw (← e) (total a x later)
          | inr m' ↦ d.0 y m'
        ],
        insert-Sorted a xs d.1,
      )
    ]

    pub sort-Sorted : (xs : List A) → Sorted le (sort xs)
    sort-Sorted [] = tt
    sort-Sorted (x ∷ xs) = insert-Sorted x (sort xs) (sort-Sorted xs)

module _ {K R : Type 0} (eq : K → K → Bool) (eq_iff : (a b : K) → (eq a b ≡ true) ↔ (a ≡ b))
    (key : R → K) where
  abbrev pub same_key : R → R → Bool
  same_key a b = eq (key a) (key b)

  abbrev pub find : K → List R → Option R
  find k [] = none
  find k (r ∷ rs) = if eq (key r) k then some r else find k rs

  abbrev pub without : K → List R → List R
  without k = keep (λ r. not (eq k (key r)))

  -- The rows that are not overwritten.
  abbrev pub rows : List R → List R
  rows [] = []
  rows (r ∷ rs) = r ∷ without (key r) (rows rs)

  pub find-without :
      (j k : K) (rs : List R) → find j (without k rs) ≡ (if eq k j then none else find j rs)
  find-without j k [] = ground arith
  find-without j k (r ∷ rs) =
      ground (arith, find-without j k rs, eq_iff k (key r), eq_iff (key r) j, eq_iff k j)

  pub find_key : (k : K) (r : R) (rs : List R) → find k rs ≡ some r → key r ≡ k
  find_key k r [] h = ground arith
  find_key k r (x ∷ rs) h = ground (arith, find_key k r rs, eq_iff (key x) k)

  pub rows_sound : (rs : List R) (r : R) → Has r (rows rs) → find (key r) rs ≡ some r
  rows_sound [] r h = absurd h
  rows_sound (x ∷ rs) r (inl e) = rw (← e) (rw ((eq_iff (key x) (key x)).1 refl) refl)
  rows_sound (x ∷ rs) r (inr m) =
      let (apart, below) = keep_sound (λ y. not (eq (key x) (key y))) (rows rs) r m in
      ground (arith, rows_sound rs r below)

  pub rows_complete : (k : K) (rs : List R) (r : R) → find k rs ≡ some r → Has r (rows rs)
  rows_complete k [] r h = ground arith
  rows_complete k (x ∷ rs) r h = elim (Bool-cases (eq (key x) k)) [
    | inl here ↦ ground arith
    | inr away ↦
        let below : find k rs ≡ some r = ground arith in
        inr (
          keep_complete (λ y. not (eq (key x) (key y))) (rows rs) r (rows_complete k rs r below)
            (rw (find_key k r rs below) (rw away)))
  ]

  pub rows-Distinct : (rs : List R) → Distinct same_key (rows rs)
  rows-Distinct [] = tt
  rows-Distinct (x ∷ rs) = (
    λ y m. let apart = (keep_sound (λ z. not (eq (key x) (key z))) (rows rs) y m).0 in ground arith,
    keep-Distinct _ same_key (rows rs) (rows-Distinct rs),
  )

  pub select_sound :
      (p : R → Bool) (rs : List R) (r : R)
      → Has r (keep p (rows rs))
      → (p r ≡ true) × (find (key r) rs ≡ some r)
  select_sound p rs r h =
      let (met, stored) = keep_sound p (rows rs) r h in (met, rows_sound rs r stored)

  pub same_key_sym : (a b : R) → same_key a b ≡ false → same_key b a ≡ false
  same_key_sym a b h = ground (arith, eq_iff (key a) (key b), eq_iff (key b) (key a))

  abbrev pub list_table : Table K R eq key
  list_table = record {
    State = List R;
    get = find;
    put = ◌∷◌;
    delete = without;
    select = λ p rs. keep p (rows rs);
    order_by = sort;
    get-put = λ j r rs. refl;
    get-delete = find-without;
    get_key = find_key;
    select_sound = select_sound;
    select_complete =
        λ p rs k r found met. keep_complete p (rows rs) r (rows_complete k rs r found) met;
    select_distinct = λ p rs. keep-Distinct p same_key (rows rs) (rows-Distinct rs);
    order_by_sound = sort_sound;
    order_by_complete = sort_complete;
    order_by_distinct = λ le l d. sort-Distinct le same_key same_key_sym l d;
    order_by_sorted = λ le l total trans. sort-Sorted le total trans l;
  }
