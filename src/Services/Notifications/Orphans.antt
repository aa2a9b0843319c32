-- ===== src/Services/Notifications/Orphans.antt =====
-- app/services/notification_service.py: what a request meets when a batch has its key and no record
-- does, which the cleaner of app/services/idempotency_service.py can leave.
use notification_test.Base.{
  ℕ, suc, ◌+◌, ◌≡◌, refl, String, true, none, some, List, [], ◌∷◌, arith, Has, eq_iff,
}
use notification_test.Exec.{Exec, ok, err, integrity_error, idempotency_in_progress}
use notification_test.Models.{NotificationBatch, BulkNotificationRequest, IdempotencyKey}
use notification_test.Platform.{Env}
use notification_test.Config.{Settings, seconds}
use notification_test.World.{World}
use notification_test.Services.Idempotency.{reserve_or_get}
use notification_test.Services.BulkRows.{batch_conflict, new_batch, hash_of, lock_key_of}
use notification_test.Services.Notifications.{
  insert_batch, unless_any, create_batch, create_block, create_locked, create_bulk,
}
use notification_test.Services.Notifications.Locking.{Answers}
use notification_test.Services.Notifications.Replay.{create_bulk_free, locked}
use notification_test.Services.Notifications.Atomic.{create_bulk_atomic}

-- Some batch has the key.
pub record Taken (E : Env) (key : String) (s : E.batches.State) : Type 0 where
  pub batch : NotificationBatch
  pub stored : E.batches.get batch.id s ≡ some batch
  pub keyed : batch.idempotency_key ≡ some key

module _ (request : BulkNotificationRequest) (key hash : String) where
  conflict_lem :
      (id now : ℕ) (x : NotificationBatch)
      → x.idempotency_key ≡ some key
      → batch_conflict (new_batch request key hash id now) x ≡ true
  conflict_lem id now x keyed = rw keyed (ground (arith, eq_iff key key))

unless_any_err :
    {E : Env} (rows : List NotificationBatch) (m : Exec (World E) (Unit {0}))
    (x : NotificationBatch) (w : World E)
    → Has x rows
    → unless_any rows m w ≡ (err integrity_error, w)
unless_any_err [] m x w h = absurd h
unless_any_err (_ ∷ rows) m x w h = refl

module _ {E : Env} (request : BulkNotificationRequest) (key hash : String) where
  insert_err :
      (id now : ℕ) (w : World E)
      → Taken E key w.db.batches
      → insert_batch (new_batch request key hash id now) w ≡ (err integrity_error, w)
  unfolding insert_batch
  insert_err id now w taken = unless_any_err _ _ taken.batch w (
      E.batches.select_complete _ w.db.batches taken.batch.id taken.batch taken.stored
        (conflict_lem request key hash id now taken.batch taken.keyed))

  batch_err :
      (r : IdempotencyKey) (w : World E)
      → Taken E key w.db.batches
      → (create_batch request key hash r w).0 ≡ err integrity_error
  unfolding create_batch
  batch_err r w taken =
      let drawn : World E = record w { draws = suc w.draws; reads = suc w.reads } in
      let failed = insert_err (E.uuid4 w.draws) (E.clock w.reads) drawn taken in
      ground (arith, failed)

  reserve_new :
      (ttl : ℕ) (w : World E)
      → E.keys.get key w.db.keys ≡ none
      → (r : IdempotencyKey) × (w' : World E) × (reserve_or_get ttl key hash w ≡ (ok r, w'))
        × (w'.db.batches ≡ w.db.batches)
  unfolding reserve_or_get
  reserve_new ttl w missing =
      let r : IdempotencyKey = record {
        key = key;
        request_hash = hash;
        batch_id = none;
        response_payload = none;
        created_at = E.clock (suc w.reads);
        expires_at = E.clock w.reads + seconds ttl;
      } in
      let after : World E = record w {
        db = record w.db { keys = E.keys.put r w.db.keys };
        reads = suc (suc w.reads);
      } in
      (r, after, ground arith, refl)

module _ {E : Env} (settings : Settings) (request : BulkNotificationRequest) (key : String) where
  block_err :
      (w : World E)
      → E.keys.get key w.db.keys ≡ none
      → Taken E key w.db.batches
      → (create_block settings request key (hash_of E request) w).0 ≡ err integrity_error
  unfolding create_block
  block_err w missing taken =
      let (r, w', reserved, same) =
        reserve_new request key (hash_of E request) settings.idempotency_ttl_seconds w missing in
      let failed = batch_err request key (hash_of E request) r w' (rw same taken) in
      ground (arith, reserved, failed)

  locked_err :
      (w : World E)
      → E.keys.get key w.db.keys ≡ none
      → Taken E key w.db.batches
      → (create_locked settings request key (hash_of E request) w).0 ≡ err idempotency_in_progress
  unfolding create_locked
  locked_err w missing taken = let failed = block_err w missing taken in ground (arith, failed)

  -- While some batch has the key of a request and no record has it, `create_bulk` answers, with the
  -- lock free and every call of Redis answered, that the request is in progress, and leaves every table
  -- as it was.
  pub create_bulk_orphan :
      Answers E
      → (w : World E) → E.redis.get (lock_key_of key) (E.clock w.reads) w.redis ≡ none
      → E.keys.get key w.db.keys ≡ none
      → Taken E key w.db.batches
      → ((create_bulk settings request key w).0 ≡ err idempotency_in_progress)
        × ((create_bulk settings request key w).1.db ≡ w.db)
  create_bulk_orphan answered w free missing taken =
      let refused : (create_bulk settings request key w).0 ≡ err idempotency_in_progress =
        rw (create_bulk_free settings request key w answered free)
          (locked_err (locked settings request key w) missing taken) in
      (
        refused,
        create_bulk_atomic settings request key w idempotency_in_progress refused
            (λ h. ground (arith, h)),
      )
