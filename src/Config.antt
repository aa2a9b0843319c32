-- ===== src/Config.antt =====
-- app/core/config.py: the settings that the modelled code reads. Numbers of seconds are not negative;
-- a negative time to live acts as zero does.
pub mod Backoff
use notification_test.Base.{ℕ, ◌*◌, List}

pub record Settings : Type 0 where
  pub max_retries : ℕ
  pub retry_backoff_list : List ℕ
  pub idempotency_ttl_seconds : ℕ
  pub idempotency_lock_ttl_seconds : ℕ
  pub processing_lock_ttl_seconds : ℕ
  pub outbox_claim_timeout_seconds : ℕ
  pub outbox_batch_size : ℕ
  pub outbox_max_attempts : ℕ

-- `timedelta(seconds=n)`, in microseconds
abbrev pub seconds : ℕ → ℕ
seconds n = n * 1000000
