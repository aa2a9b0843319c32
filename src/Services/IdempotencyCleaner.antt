-- ===== src/Services/IdempotencyCleaner.antt =====
-- app/services/idempotency_cleaner.py: one round of the cleaner. Its loop sleeps and starts the next.
pub mod Rounds
pub mod Race
use notification_test.Base.{ℕ}
use notification_test.Exec.{Exec}
use notification_test.Platform.{Env}
use notification_test.World.{World, transaction}
use notification_test.Services.Idempotency.{cleanup_expired}

module _ {E : Env} where
  unfoldable pub cleanup_once : Exec (World E) ℕ
  cleanup_once = transaction cleanup_expired
