-- ===== src/Services/Notifications/Recipients.antt =====
-- `list(dict.fromkeys(ids))` keeps every number, once.
use notification_test.Base.{
  ℕ, ◌≡◌, inl, inr, refl, true, false, List, [], ◌∷◌, arith, ◌==◌, Has, Distinct, Bool-cases,
}
use notification_test.Services.BulkRows.{contains, from_keys_after, from_keys}

contains_sound : (a : ℕ) (xs : List ℕ) → contains a xs ≡ true → Has a xs
contains_sound a [] h = ground arith
contains_sound a (x ∷ xs) h = ground (arith, contains_sound a xs)

contains_complete : (a : ℕ) (xs : List ℕ) → Has a xs → contains a xs ≡ true
contains_complete a [] h = absurd h
contains_complete a (x ∷ xs) h = ground (arith, contains_complete a xs)

after_complete :
    (seen xs : List ℕ) (a : ℕ)
    → Has a xs
    → contains a seen ≡ false
    → Has a (from_keys_after seen xs)
unfolding from_keys_after
after_complete seen [] a h fresh = absurd h
after_complete seen (x ∷ xs) a h fresh =
    ground (arith, after_complete seen xs a, after_complete (x ∷ seen) xs a)

after_sound :
    (seen xs : List ℕ) (a : ℕ)
    → Has a (from_keys_after seen xs)
    → Has a xs × (contains a seen ≡ false)
unfolding from_keys_after
after_sound seen [] a h = absurd h
after_sound seen (x ∷ xs) a h = ground (arith, after_sound seen xs a, after_sound (x ∷ seen) xs a)

after-Distinct : (seen xs : List ℕ) → Distinct ◌==◌ (from_keys_after seen xs)
unfolding from_keys_after
after-Distinct seen [] = tt
after-Distinct seen (x ∷ xs) = elim (Bool-cases (contains x seen)) [
  | inl again ↦ rw (again, Distinct) (after-Distinct seen xs)
  | inr first ↦
      rw (first, Distinct)
        (
          λ y h. let (_, apart) = after_sound (x ∷ seen) xs y h in ground arith,
          after-Distinct (x ∷ seen) xs,
        )
]

-- Every recipient of a request is among those that `create_bulk` goes through.
pub from_keys_complete : (xs : List ℕ) (a : ℕ) → Has a xs → Has a (from_keys xs)
unfolding from_keys
from_keys_complete xs a h = after_complete [] xs a h refl

-- `create_bulk` goes through no recipient that the request does not have.
pub from_keys_sound : (xs : List ℕ) (a : ℕ) → Has a (from_keys xs) → Has a xs
unfolding from_keys
from_keys_sound xs a h = (after_sound [] xs a h).0

-- `create_bulk` goes through no recipient twice.
pub from_keys-Distinct : (xs : List ℕ) → Distinct ◌==◌ (from_keys xs)
unfolding from_keys
from_keys-Distinct xs = after-Distinct [] xs
