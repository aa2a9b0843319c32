-- ===== src/Services/RetryPolicy.antt =====
-- app/services/retry_policy.py
pub mod Decisions
use notification_test.Base.{
  ℕ, ◌-◌, min, Bool, true, false, Option, none, some, List, leb, if◌then◌else◌, length, get_elem?,
}
use notification_test.Exec.{Result, ok, err, index_error}

pub record RetryDecision : Type 0 where
  pub should_retry : Bool
  pub delay_seconds : Option ℕ

pub record RetryPolicy : Type 0 where
  pub max_retries : ℕ
  pub backoff_seconds : List ℕ

-- `max(0, min(attempts - 1, len - 1))`: where Python's difference is -1, this one stops at 0.
abbrev pub backoff_index : ℕ → List ℕ → ℕ
backoff_index attempts backoff = min (attempts - 1) (length backoff - 1)

-- `self.backoff_seconds[index]`
abbrev pub delay_at : Option ℕ → Result RetryDecision
delay_at none = err index_error
delay_at (some d) = ok (record { should_retry = true; delay_seconds = some d })

unfoldable pub decide : RetryPolicy → ℕ → Result RetryDecision
decide p attempts =
    if leb p.max_retries attempts
    then ok (record { should_retry = false; delay_seconds = none })
    else delay_at (get_elem? p.backoff_seconds (backoff_index attempts p.backoff_seconds))
