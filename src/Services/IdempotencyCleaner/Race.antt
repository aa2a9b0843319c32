-- ===== src/Services/IdempotencyCleaner/Race.antt =====
-- app/services/idempotency_cleaner.py: a record that expires between the two readings of the clock.
use notification_test.Base.{suc, ◌≤◌, ◌<◌, ◌≡◌, ◌≢◌, ◌∙◌, none, some, le→leb, Has}
use notification_test.Exec.{err, idempotency_in_progress}
use notification_test.Models.{NotificationBatch, IdempotencyKey, BulkNotificationRequest}
use notification_test.Platform.{Env}
use notification_test.Config.{Settings}
use notification_test.World.{World}
use notification_test.Services.Idempotency.Owners.{expired, gone, release_batches-apart}
use notification_test.Services.IdempotencyCleaner.{cleanup_once}
use notification_test.Services.IdempotencyCleaner.Rounds.{
  once_lem, deleted_at, after, cleanup_once_deletes, delete_keys-batches,
}
use notification_test.Services.BulkRows.{lock_key_of}
use notification_test.Services.Notifications.{create_bulk}
use notification_test.Services.Notifications.Locking.{Answers}
use notification_test.Services.Notifications.Orphans.{create_bulk_orphan}

module _ {E : Env} (settings : Settings) (request : BulkNotificationRequest) (w : World E)
    (r : IdempotencyKey) (x : NotificationBatch) (stored : E.keys.get r.key w.db.keys ≡ some r)
    (there : E.batches.get x.id w.db.batches ≡ some x) (keyed : x.idempotency_key ≡ some r.key)
    (young : E.clock w.reads < r.expires_at) (old : r.expires_at ≤ deleted_at w) where
  -- If a record expires between the two readings, and its batch belongs to none of the records that
  -- had expired before, then after the round a new request under its key, which no other holds, is
  -- answered as in progress, and changes no table, with every call of Redis answered.
  pub cleanup_once_strands :
      Answers E
      → ((s : IdempotencyKey) → Has s (expired w) → s.batch_id ≢ some x.id)
      → let w' = (cleanup_once w).1 in
        E.redis.get (lock_key_of r.key) (E.clock w'.reads) w'.redis ≡ none
        → ((create_bulk settings request r.key w').0 ≡ err idempotency_in_progress)
          × ((create_bulk settings request r.key w').1.db ≡ w'.db)
  cleanup_once_strands answered apart free =
      let (_, _, deletes) = cleanup_once_deletes w in
      let missing = deletes r.key r stored in
      let start : World E = record w { reads = suc w.reads } in
      let same : E.batches.get x.id (cleanup_once w).1.db.batches ≡ some x = rw (once_lem w) (
        rw (delete_keys-batches (gone w) (after w))
          (release_batches-apart (expired w) x.id start apart ∙ there)) in
      create_bulk_orphan settings request r.key answered (cleanup_once w).1 free
        (rw (le→leb r.expires_at (deleted_at w) old) at missing)
        (record { batch = x; stored = same; keyed = keyed })
