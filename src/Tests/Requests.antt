-- ===== src/Tests/Requests.antt =====
-- The theorems on bulk requests, on the sample platform.
use notification_test.Base.{
  ◌≡◌, ◌≢◌, refl, String, none, some, [], ◌∷◌, arith, if◌then◌else◌, str_eq, eq_iff,
}
use notification_test.Exec.{ok, err, idempotency_in_progress, idempotency_conflict}
use notification_test.Models.{
  NotificationBatch, BulkNotificationRequest, BulkNotificationResponse, sms, transactional,
  IdempotencyKey,
}
use notification_test.World.{World}
use notification_test.Services.Idempotency.{reserve_or_get}
use notification_test.Services.BulkRows.{new_batch, from_keys, lock_key_of, response_payload}
use notification_test.Services.Notifications.{
  create_bulk, create_locked, create_block, create_batch, fill_batch, insert_batch,
  insert_notification, add_recipients, add_recipient, add_created_event, response_of,
  already_exists, release_lock, acquire_lock, get_lock, delete_lock,
}
use notification_test.Services.Notifications.Locking.{Answers}
use notification_test.Services.Notifications.Acceptance.{Accepted, create_bulk-Accepted}
use notification_test.Services.Notifications.Replay.{
  create_bulk_in_progress, create_bulk_again, create_bulk_conflict,
}
use notification_test.Services.Notifications.Atomic.{create_bulk_atomic, create_bulk_releases}
use notification_test.Services.Notifications.Orphans.{create_bulk_orphan}
use notification_test.Tests.Sample.{sample, settings, empty, RedisMap}

every : Answers sample
every c now s = refl

abbrev pub request : BulkNotificationRequest
request = record {
  channel = sms;
  type = transactional;
  message = "hello";
  recipient_ids = 5 ∷ 6 ∷ 5 ∷ [];
}

abbrev pub response : BulkNotificationResponse
response = record { batch_id = 101; status = "accepted"; notifications_created = 2 }

pub accepted_lem : (create_bulk settings request "key" empty).0 ≡ ok response
unfolding create_bulk create_locked create_block create_batch fill_batch insert_batch
    insert_notification add_recipients add_recipient add_created_event response_of already_exists
    reserve_or_get acquire_lock release_lock get_lock delete_lock from_keys
accepted_lem = refl

create_bulk-Accepted_example :
    Accepted request "key" response empty.db (create_bulk settings request "key" empty).1.db
create_bulk-Accepted_example =
    create_bulk-Accepted settings request "key" empty response accepted_lem refl

-- Another request holds the lock of the key.
abbrev held : RedisMap
held k = if str_eq k (lock_key_of "key") then some ("holder", 1000) else none

abbrev busy : World sample
busy = record empty { redis = held }

create_bulk_in_progress_example :
    ((create_bulk settings request "key" busy).0 ≡ err idempotency_in_progress)
    × ((create_bulk settings request "key" busy).1.db ≡ empty.db)
    × ((create_bulk settings request "key" busy).1.redis ≡ held)
create_bulk_in_progress_example =
    create_bulk_in_progress settings request "key" busy every "holder" refl

create_bulk_atomic_example : (create_bulk settings request "key" busy).1.db ≡ empty.db
create_bulk_atomic_example =
    create_bulk_atomic settings request "key" busy idempotency_in_progress
      (create_bulk_in_progress settings request "key" busy every "holder" refl).0
      (λ h. ground (arith, h))

create_bulk_releases_example :
    sample.redis.get
      (lock_key_of "key")
      (sample.clock (create_bulk settings request "key" empty).1.reads)
      (create_bulk settings request "key" empty).1.redis
    ≢ some (sample.uuid_str 100)
create_bulk_releases_example =
    create_bulk_releases settings request "key" empty refl (λ h. ground (arith, h, accepted_lem))

-- An answer is stored under the key.
abbrev answer : String → IdempotencyKey
answer hash = record {
  key = "key";
  request_hash = hash;
  batch_id = some 9;
  response_payload = some (response_payload sample 9 2);
  created_at = 0;
  expires_at = 5000;
}

abbrev answered : String → World sample
answered hash = record empty { db = record empty.db { keys = answer hash ∷ [] } }

create_bulk_again_example :
    ((create_bulk settings request "key" (answered "hello")).0
      ≡ ok (record { batch_id = 9; status = "already_exists"; notifications_created = 2 }))
    × ((create_bulk settings request "key" (answered "hello")).1.db ≡ (answered "hello").db)
create_bulk_again_example =
    create_bulk_again settings request "key" (answered "hello") every (answer "hello") refl refl
      (omega arith) 9 2 refl refl

create_bulk_conflict_example :
    ((create_bulk settings request "key" (answered "bye")).0 ≡ err idempotency_conflict)
    × ((create_bulk settings request "key" (answered "bye")).1.db ≡ (answered "bye").db)
create_bulk_conflict_example =
    create_bulk_conflict settings request "key" (answered "bye") every (answer "bye") refl refl
      (omega arith) (λ h. ground (arith, eq_iff "bye" "hello"))

abbrev orphan : NotificationBatch
orphan = new_batch request "key" "hello" 7 0

abbrev orphaned : World sample
orphaned = record empty { db = record empty.db { batches = orphan ∷ [] } }

create_bulk_orphan_example :
    ((create_bulk settings request "key" orphaned).0 ≡ err idempotency_in_progress)
    × ((create_bulk settings request "key" orphaned).1.db ≡ orphaned.db)
create_bulk_orphan_example =
    create_bulk_orphan settings request "key" every orphaned refl refl
      (record { batch = orphan; stored = refl; keyed = refl })
