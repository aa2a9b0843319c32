-- ===== src/Tests/Cleaner.antt =====
-- The theorems on idempotency keys and their cleaning, on the sample platform.
use notification_test.Base.{
  ℕ, ◌≤◌, ◌≡◌, ◌≢◌, Has, refl, String, none, some, [], ◌∷◌, arith, length, leb, if◌then◌else◌,
  eq_iff,
}
use notification_test.Exec.{ok, err, idempotency_in_progress}
use notification_test.Models.{NotificationBatch, IdempotencyKey}
use notification_test.World.{World}
use notification_test.Services.Idempotency.{is_expired, cleanup_expired, release_batches}
use notification_test.Services.Idempotency.Owners.{IsKeyed, expired}
use notification_test.Services.IdempotencyCleaner.{cleanup_once}
use notification_test.Services.IdempotencyCleaner.Rounds.{
  deleted_at, cleanup_once_deletes, cleanup_once-IsKeyed,
}
use notification_test.Services.IdempotencyCleaner.Race.{cleanup_once_strands}
use notification_test.Services.BulkRows.{new_batch, lock_key_of}
use notification_test.Services.Notifications.{create_bulk}
use notification_test.Services.Notifications.Ownership.{create_bulk-IsKeyed}
use notification_test.Tests.Requests.{request}
use notification_test.Tests.Sample.{sample, settings, empty}

abbrev batch : NotificationBatch
batch = new_batch request "key" "hello" 7 0

abbrev record_till : ℕ → IdempotencyKey
record_till end = record {
  key = "key";
  request_hash = "hello";
  batch_id = some 7;
  response_payload = none;
  created_at = 0;
  expires_at = end;
}

-- The batch and its record, which expires at the given time.
abbrev keeping : ℕ → World sample
keeping end = record empty {
  db = record empty.db { batches = batch ∷ []; keys = record_till end ∷ [] };
}

keeping-IsKeyed : (end : ℕ) → IsKeyed sample (keeping end).db
keeping-IsKeyed end k id x found has =
    (record_till end, ground (arith, found, has, eq_iff "key" k), ground (arith, found, has))

create_bulk-IsKeyed_example :
    IsKeyed sample (create_bulk settings request "key" (keeping 5000)).1.db
create_bulk-IsKeyed_example =
    create_bulk-IsKeyed settings request "key" (keeping 5000) (keeping-IsKeyed 5000)

cleanup_once_deletes_example :
    ((cleanup_once (keeping 0)).0
      ≡ ok (length (sample.keys.select (is_expired 0) (record_till 0 ∷ []))))
    × ((k : String)
        → sample.keys.get k (record_till 0 ∷ []) ≡ none
        → sample.keys.get k (cleanup_once (keeping 0)).1.db.keys ≡ none)
    × ((k : String) (r : IdempotencyKey)
        → sample.keys.get k (record_till 0 ∷ []) ≡ some r
        → sample.keys.get k (cleanup_once (keeping 0)).1.db.keys
          ≡ (if leb r.expires_at (deleted_at (keeping 0)) then none else some r))
cleanup_once_deletes_example = cleanup_once_deletes (keeping 0)

steady :
    (k : String) (r : IdempotencyKey)
    → sample.keys.get k (record_till 0 ∷ []) ≡ some r
    → r.expires_at ≤ deleted_at (keeping 0)
    → r.expires_at ≤ 0
steady k r found old = ground (arith, found)

cleanup_once-IsKeyed_example : IsKeyed sample (cleanup_once (keeping 0)).1.db
cleanup_once-IsKeyed_example = cleanup_once-IsKeyed (keeping 0) steady (keeping-IsKeyed 0)

none_expired : (s : IdempotencyKey) → Has s (expired (keeping 500)) → s.batch_id ≢ some 7
none_expired s has = absurd has

free_lem :
    sample.redis.get
      (lock_key_of "key")
      (sample.clock (cleanup_once (keeping 500)).1.reads)
      (cleanup_once (keeping 500)).1.redis
    ≡ none
unfolding cleanup_once cleanup_expired release_batches
free_lem = refl

read_once : 500 ≤ deleted_at (keeping 500)
unfolding release_batches
read_once = omega arith

cleanup_once_strands_example :
    let w' = (cleanup_once (keeping 500)).1 in
    ((create_bulk settings request "key" w').0 ≡ err idempotency_in_progress)
    × ((create_bulk settings request "key" w').1.db ≡ w'.db)
cleanup_once_strands_example =
    cleanup_once_strands settings request (keeping 500) (record_till 500) batch refl refl refl
      (omega arith) read_once (λ c now s. refl) none_expired free_lem
