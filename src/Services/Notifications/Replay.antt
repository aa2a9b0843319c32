-- ===== src/Services/Notifications/Replay.antt =====
-- Requests that are not new: repeated, in conflict, or arriving while another holds the lock; and
-- requests that fail.
use notification_test.Base.{ℕ, suc, ◌<◌, String, ◌≡◌, ◌≢◌, refl, ap, none, some, arith, eq_iff}
use notification_test.Exec.{
  Result, ok, err, idempotency_conflict, idempotency_in_progress, idempotency_record_exists,
}
use notification_test.Models.{IdempotencyKey, Payload, BulkNotificationRequest}
use notification_test.Platform.{Env}
use notification_test.Config.{Settings}
use notification_test.World.{World}
use notification_test.Services.Idempotency.{reserve_or_get}
use notification_test.Services.BulkRows.{response_payload, hash_of, lock_key_of}
use notification_test.Services.Notifications.{
  create_block, create_locked, create_bulk, after_reserve, release_lock,
}
use notification_test.Services.Notifications.Locking.{
  Answers, create_bulk_answered, with_lock_answered, db-release_lock,
}
use notification_test.Services.Notifications.Responses.{already_exists-response_payload}

module _ {E : Env} (ttl : ℕ) (key hash : String) (w : World E) (r : IdempotencyKey)
    (found : E.keys.get key w.db.keys ≡ some r) (fresh : E.clock w.reads < r.expires_at) where
  -- A record that has not expired, under the same hash and with its response, is given again.
  reserve_again :
      (payload : Payload)
      → r.request_hash ≡ hash
      → r.response_payload ≡ some payload
      → reserve_or_get ttl key hash w
        ≡ (err (idempotency_record_exists payload), record w { reads = suc w.reads })
  unfolding reserve_or_get
  reserve_again payload hashed has = ground (arith, eq_iff r.request_hash hash)

  reserve_conflict :
      r.request_hash ≢ hash
      → reserve_or_get ttl key hash w ≡ (err idempotency_conflict, record w { reads = suc w.reads })
  unfolding reserve_or_get
  reserve_conflict other = ground (arith, eq_iff r.request_hash hash)

-- The block goes on from what the reservation returned or raised.
create_block-of :
    {E : Env} (settings : Settings) (request : BulkNotificationRequest) (key : String) (w : World E)
    (rr : Result IdempotencyKey) (w' : World E)
    → reserve_or_get settings.idempotency_ttl_seconds key (hash_of E request) w ≡ (rr, w')
    → create_block settings request key (hash_of E request) w
      ≡ after_reserve request key (hash_of E request) rr w'
unfolding create_block
create_block-of {E} settings request key w rr w' e =
    ap
      (λ (x : Result IdempotencyKey × World E).
        after_reserve request key (hash_of E request) x.0 x.1)
      e

module _ {E : Env} (settings : Settings) (request : BulkNotificationRequest) (key : String)
    (w : World E) where
  open settings use {idempotency_lock_ttl_seconds}

  abbrev pub token : String
  token = E.uuid_str (E.uuid4 w.draws)

  -- The state in which the lock is held.
  abbrev pub locked : World E
  locked = record w {
    draws = suc w.draws;
    redis =
        (E.redis.set_nx_ex (lock_key_of key) token idempotency_lock_ttl_seconds (E.clock w.reads)
          w.redis).1;
  }

  -- With the lock free and every call of Redis answered, `create_bulk` is its block, and then the
  -- lock is released.
  pub create_bulk_free :
      Answers E
      → E.redis.get (lock_key_of key) (E.clock w.reads) w.redis ≡ none
      → let (r, w') = create_locked settings request key (hash_of E request) locked in
        create_bulk settings request key w ≡ (r, (release_lock (lock_key_of key) token w').1)
  create_bulk_free answered free =
      let set =
        E.redis.set_free (lock_key_of key) token idempotency_lock_ttl_seconds (E.clock w.reads)
          w.redis free in
      rw (create_bulk_answered answered settings request key w) (
        rw set (
          with_lock_answered answered (lock_key_of key) token
            (create_locked settings request key (hash_of E request)) locked))

  -- While another request holds the lock of the key, `create_bulk` raises that a request is in
  -- progress and changes nothing, with every call of Redis answered.
  pub create_bulk_in_progress :
      Answers E
      → (holder : String) → E.redis.get (lock_key_of key) (E.clock w.reads) w.redis ≡ some holder
      → (create_bulk settings request key w).0 ≡ err idempotency_in_progress
        × ((create_bulk settings request key w).1.db ≡ w.db)
        × ((create_bulk settings request key w).1.redis ≡ w.redis)
  create_bulk_in_progress answered holder held =
      let kept =
        E.redis.set_held (lock_key_of key) token holder idempotency_lock_ttl_seconds
          (E.clock w.reads) w.redis held in
      rw (create_bulk_answered answered settings request key w) (rw kept (refl, refl, refl))

  module _ (answered : Answers E) (r : IdempotencyKey)
      (free : E.redis.get (lock_key_of key) (E.clock w.reads) w.redis ≡ none)
      (found : E.keys.get key w.db.keys ≡ some r) (fresh : E.clock w.reads < r.expires_at) where
    locked_again :
        (b count : ℕ)
        → r.request_hash ≡ hash_of E request
        → r.response_payload ≡ some (response_payload E b count)
        → create_locked settings request key (hash_of E request) locked ≡ (
          ok (record { batch_id = b; status = "already_exists"; notifications_created = count }),
          record locked { reads = suc w.reads },
        )
    unfolding create_locked
    locked_again b count hashed has =
        let payload = response_payload E b count in
        let reserved =
          reserve_again settings.idempotency_ttl_seconds key (hash_of E request) locked r found
            fresh payload hashed has in
        let after : World E = record locked { reads = suc w.reads } in
        let block = create_block-of settings request key locked _ after reserved in
        ground (arith, block, already_exists-response_payload b count after)

    -- A request that is repeated under its key, before the stored answer expires and while no other
    -- holds the lock, with every call of Redis answered, gets the stored batch and number with the status "already_exists", and no
    -- table changes.
    pub create_bulk_again :
        (b count : ℕ)
        → r.request_hash ≡ hash_of E request
        → r.response_payload ≡ some (response_payload E b count)
        → ((create_bulk settings request key w).0
            ≡ ok
                (record { batch_id = b; status = "already_exists"; notifications_created = count }))
          × ((create_bulk settings request key w).1.db ≡ w.db)
    create_bulk_again b count hashed has =
        rw (create_bulk_free answered free)
          (rw (locked_again b count hashed has) (refl, db-release_lock _ _ _))

    locked_conflict :
        r.request_hash ≢ hash_of E request
        → create_locked settings request key (hash_of E request) locked
          ≡ (err idempotency_conflict, record locked { reads = suc w.reads })
    unfolding create_locked
    locked_conflict other =
        let reserved =
          reserve_conflict settings.idempotency_ttl_seconds key (hash_of E request) locked r found
            fresh other in
        let after : World E = record locked { reads = suc w.reads } in
        let block = create_block-of settings request key locked _ after reserved in
        ground (arith, block)

    -- A request with another body under the same key, before that expires, is refused as a conflict,
    -- and no table changes, while no other holds the lock and every call of Redis is answered.
    pub create_bulk_conflict :
        r.request_hash ≢ hash_of E request
        → ((create_bulk settings request key w).0 ≡ err idempotency_conflict)
          × ((create_bulk settings request key w).1.db ≡ w.db)
    create_bulk_conflict other =
        rw (create_bulk_free answered free)
          (rw (locked_conflict other) (refl, db-release_lock _ _ _))
