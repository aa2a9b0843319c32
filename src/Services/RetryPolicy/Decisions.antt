-- ===== src/Services/RetryPolicy/Decisions.antt =====
-- What the retry policy decides, for every number of attempts.
use notification_test.Base.{
  ℕ, zero, suc, ◌-◌, ◌<◌, ◌≡◌, ◌↔◌, refl, true, false, none, some, List, [], ◌∷◌, leb, arith,
  length, get_elem?, min, if◌then◌else◌,
}
use notification_test.Exec.{ok, err, index_error}
use notification_test.Services.RetryPolicy.{RetryPolicy, decide}

-- The schedule that the list stands for: one delay for each retry, and the last one again for ever.
abbrev pub scheduled : ℕ → List ℕ → ℕ → ℕ
scheduled d ds zero = d
scheduled d [] (suc n) = d
scheduled d (e ∷ ds) (suc n) = scheduled e ds n

get_elem?-scheduled :
    (d : ℕ) (ds : List ℕ) (n : ℕ) → get_elem? (d ∷ ds) (min n (length ds)) ≡ some (scheduled d ds n)
get_elem?-scheduled d ds zero = let e : min 0 (length ds) ≡ 0 = omega arith in rw e
get_elem?-scheduled d [] (suc n) = let e : min (suc n) 0 ≡ 0 = omega arith in rw e
get_elem?-scheduled d (e' ∷ ds) (suc n) =
    let e : min (suc n) (suc (length ds)) ≡ suc (min n (length ds)) = omega arith in
    rw e (get_elem?-scheduled e' ds n)

-- With a delay to use, the policy stops at `max_retries` attempts and before that waits what the
-- schedule has for the attempt that just failed.
pub decide-scheduled :
    (max_retries d n : ℕ) (ds : List ℕ)
    → decide (record { max_retries = max_retries; backoff_seconds = d ∷ ds }) (suc n)
      ≡ ok (
          if leb max_retries (suc n)
          then record { should_retry = false; delay_seconds = none }
          else record { should_retry = true; delay_seconds = some (scheduled d ds n) })
unfolding decide
decide-scheduled max_retries d n ds = ground (arith, get_elem?-scheduled d ds n)

-- `decide` raises exactly when an attempt is left and no delay is configured.
pub decide_raises :
    (p : RetryPolicy) (attempts : ℕ)
    → (decide p attempts ≡ err index_error)
      ↔ ((attempts < p.max_retries) × (p.backoff_seconds ≡ []))
unfolding decide
decide_raises p attempts = go p.backoff_seconds refl
  where
    go :
        (l : List ℕ)
        → p.backoff_seconds ≡ l
        → (decide p attempts ≡ err index_error)
          ↔ ((attempts < p.max_retries) × (p.backoff_seconds ≡ []))
    go [] e = ground arith
    go (d ∷ ds) e = ground (arith, get_elem?-scheduled d ds (attempts - 1))
