-- ===== src/Services/Idempotency.antt =====
-- app/services/idempotency_service.py: the stored answers of bulk requests, by the client's key.
pub mod Reserve
pub mod Owners
pub mod Reservations
use notification_test.Base.{
  ℕ, zero, suc, ◌+◌, String, Bool, true, false, not, Option, none, some, List, [], ◌∷◌, leb, ltb,
  str_eq, length, if◌then◌else◌,
}
use notification_test.Exec.{
  Exec, ok, err, ◌>>=◌, ◌>>◌, pure, raise, gets, modify, integrity_error, idempotency_conflict,
  idempotency_record_exists,
}
use notification_test.Models.{NotificationBatch, IdempotencyKey, Payload}
use notification_test.Platform.{Env}
use notification_test.Config.{seconds}
use notification_test.World.{World, utcnow, put_batch, put_key}

-- `expires_at <= utcnow()`, as `_is_expired` and the queries of the cleaner have it
abbrev pub is_expired : ℕ → IdempotencyKey → Bool
is_expired now r = leb r.expires_at now

module _ {E : Env} where
  abbrev pub get_key_record : String → Exec (World E) (Option IdempotencyKey)
  get_key_record key = gets (λ w. E.keys.get key w.db.keys)

  abbrev pub delete_key : String → World E → World E
  delete_key key w = record w { db = record w.db { keys = E.keys.delete key w.db.keys } }

  -- `if batch is not None: batch.idempotency_key = None`
  abbrev pub clear_batch : Option NotificationBatch → Exec (World E) (Unit {0})
  clear_batch none = pure tt
  clear_batch (some b) = do
    now ← utcnow
    modify (put_batch (record b { idempotency_key = none; updated_at = now }))

  -- The batch of a record gives up its key.
  unfoldable pub release_batch : Option ℕ → Exec (World E) (Unit {0})
  release_batch none = pure tt
  release_batch (some batch_id) = do
    batch ← gets (λ w. E.batches.get batch_id w.db.batches)
    clear_batch batch

  -- `existing` after the first block: an expired record is deleted.
  unfoldable pub drop_expired : Option IdempotencyKey → Exec (World E) (Option IdempotencyKey)
  unfolding release_batch
  drop_expired none = pure none
  drop_expired (some r) = do
    now ← utcnow
    if is_expired now r
        then (do release_batch r.batch_id; modify (delete_key r.key); pure none)
        else pure (some r)

  -- The new record, added to the session; the insert fails if the key is there.
  unfoldable pub add_record : ℕ → String → String → Exec (World E) IdempotencyKey
  add_record ttl_seconds key request_hash = do
    now ← utcnow
    created ← utcnow
    let r : IdempotencyKey = record {
      key = key;
      request_hash = request_hash;
      batch_id = none;
      response_payload = none;
      created_at = created;
      expires_at = (now + seconds ttl_seconds);
    }
    present ← get_key_record key
    elim present [ some _ ↦ raise integrity_error | none ↦ (do modify (put_key r); pure r) ]

  abbrev pub stored_answer : IdempotencyKey → Option Payload → Exec (World E) IdempotencyKey
  stored_answer r none = pure r
  stored_answer r (some payload) = raise (idempotency_record_exists payload)

  unfoldable pub reserve_existing :
      ℕ → String → String → Option IdempotencyKey → Exec (World E) IdempotencyKey
  unfolding add_record
  reserve_existing ttl_seconds key request_hash none = add_record ttl_seconds key request_hash
  reserve_existing ttl_seconds key request_hash (some r) =
      if str_eq r.request_hash request_hash
      then stored_answer r r.response_payload
      else raise idempotency_conflict

  unfoldable pub reserve_or_get : ℕ → String → String → Exec (World E) IdempotencyKey
  unfolding drop_expired reserve_existing
  reserve_or_get ttl_seconds key request_hash = do
    found ← get_key_record key
    existing ← drop_expired found
    reserve_existing ttl_seconds key request_hash existing

  -- The loop of `cleanup_expired`.
  unfoldable pub release_batches : List IdempotencyKey → Exec (World E) (Unit {0})
  unfolding release_batch
  release_batches [] = pure tt
  release_batches (r ∷ rs) = do release_batch r.batch_id; release_batches rs

  abbrev pub delete_keys : List IdempotencyKey → World E → World E
  delete_keys [] w = w
  delete_keys (r ∷ rs) w = delete_keys rs (delete_key r.key w)

  -- The clock is read once for the query and once more for the deletion.
  unfoldable pub cleanup_expired : Exec (World E) ℕ
  unfolding release_batches
  cleanup_expired = do
    now ← utcnow
    expired ← gets (λ w. E.keys.select (is_expired now) w.db.keys)
    release_batches expired
    later ← utcnow
    gone ← gets (λ w. E.keys.select (is_expired later) w.db.keys)
    modify (delete_keys gone)
    pure (length expired)
