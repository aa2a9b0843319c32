-- ===== src/Services/Notifications/Atomic.antt =====
-- A request that fails leaves the tables alone, and the lock of a request does not outlive it.
use notification_test.Base.{
  ℕ, suc, String, ◌≡◌, ◌≢◌, inl, inr, refl, Bool, true, false, Option, none, some, arith, length,
  Option-cases,
}
use notification_test.Exec.{Result, ok, err, Error, integrity_error, redis_error}
use notification_test.Models.{
  IdempotencyKey, Payload, BulkNotificationResponse, BulkNotificationRequest,
}
use notification_test.Platform.{Env}
use notification_test.Config.{Settings}
use notification_test.World.{World, transaction, transaction_ok, transaction_err}
use notification_test.Services.BulkRows.{response_payload, from_keys, hash_of, lock_key_of}
use notification_test.Services.Notifications.{
  create_block, create_locked, create_bulk, Outcome, answered, accepted, after_transaction,
  recover_from, release_lock, with_lock, response_of,
}
use notification_test.Services.Notifications.Responses.{
  response_of-response_payload, already_exists_pure,
}
use notification_test.Services.Notifications.Locking.{
  db-release_lock, create_bulk_asks, release_lock_ends, after_release_err, released, was_free,
  IsReleased,
}
use notification_test.Services.Notifications.Acceptance.{block_accepted}

module _ {E : Env} where
  pub recover_pure :
      (hash : String) (found : Option IdempotencyKey) (w : World E)
      → (recover_from hash found w).1 ≡ w
  recover_pure hash none w = refl
  recover_pure hash (some r) w = elim (Option-cases r.response_payload) [
    | inl e ↦ ground arith
    | inr (p, e) ↦ ground (arith, already_exists_pure p w)
  ]

  end_atomic :
      (key hash : String) (rt : Result Outcome) (w w₁ : World E) (e : Error)
      → ((payload : Payload)
          → rt ≡ ok (accepted payload)
          → (b count : ℕ) × (payload ≡ response_payload E b count))
      → ((x : Error) → rt ≡ err x → w₁.db ≡ w.db)
      → (after_transaction key hash rt w₁).0 ≡ err e
      → (after_transaction key hash rt w₁).1.db ≡ w.db
  end_atomic key hash (ok (answered again)) w w₁ e new old h = ground arith
  end_atomic key hash (ok (accepted payload)) w w₁ e new old h =
      let (b, count, is) = new payload refl in
      let answer : BulkNotificationResponse = record {
        batch_id = b;
        status = "accepted";
        notifications_created = count;
      } in
      let ran : response_of payload w₁ ≡ (ok answer, w₁) =
        rw is (response_of-response_payload b count w₁) in
      ground (arith, ran)
  end_atomic key hash (err integrity_error) w w₁ e new old h =
      rw (recover_pure hash (E.keys.get key w₁.db.keys) w₁) (old integrity_error refl)
  end_atomic key hash (err x) w w₁ e new old h = old x refl

module _ {E : Env} (settings : Settings) (request : BulkNotificationRequest) (key : String) where
  locked_atomic :
      (w : World E) (e : Error)
      → (create_locked settings request key (hash_of E request) w).0 ≡ err e
      → (create_locked settings request key (hash_of E request) w).1.db ≡ w.db
  unfolding create_locked
  locked_atomic w e h =
      let block = create_block settings request key (hash_of E request) in
      let done = transaction block w in
      end_atomic key (hash_of E request) done.0 w done.1 e
        (λ payload is.
          let (b, answer, _) =
            block_accepted settings request key w payload (transaction_ok block w is).0 in
          (b, length (from_keys request.recipient_ids), answer))
        (λ x is. transaction_err block w is) h

  -- The lock is taken or not, and the block runs under it or not at all.
  with_lock_atomic :
      (acquired : Bool) (lock_key token : String) (w : World E) (e : Error)
      → e ≢ redis_error
      → (with_lock lock_key token
          (create_locked settings request key (hash_of E request))
          acquired
          w).0
        ≡ err e
      → (with_lock lock_key token
          (create_locked settings request key (hash_of E request))
          acquired
          w).1.db
        ≡ w.db
  with_lock_atomic false lock_key token w e other h = refl
  with_lock_atomic true lock_key token w e other h =
      let locked = create_locked settings request key (hash_of E request) w in
      let failed =
        after_release_err locked.0 (release_lock lock_key token locked.1).0
          (release_lock_ends lock_key token locked.1) other h in
      rw (db-release_lock lock_key token locked.1) (locked_atomic w e failed)

  -- Whatever `create_bulk` raises, other than the exception of a call of Redis, it leaves every table as
  -- it was.
  pub create_bulk_atomic :
      (w : World E) (e : Error)
      → (create_bulk settings request key w).0 ≡ err e
      → e ≢ redis_error
      → (create_bulk settings request key w).1.db ≡ w.db
  create_bulk_atomic w e h other =
      let (redis, asked) = create_bulk_asks settings request key w in
      let w₁ : World E = record w { draws = suc w.draws; redis = redis } in
      elim asked [
        | inl same ↦
            rw same
              (with_lock_atomic (was_free settings request key w) _ _ w₁ e other (rw same at h))
        | inr same ↦ rw same refl
      ]

  released_after :
      (w₁ : World E) (token : String)
      → (with_lock
          (lock_key_of key)
          token
          (create_locked settings request key (hash_of E request))
          true
          w₁).0
        ≢ err redis_error
      → IsReleased
          (lock_key_of key)
          token
          (with_lock
            (lock_key_of key)
            token
            (create_locked settings request key (hash_of E request))
            true
            w₁).1
  released_after w₁ token h =
      let locked = create_locked settings request key (hash_of E request) w₁ in
      elim (release_lock_ends (lock_key_of key) token locked.1) [
        | inl returned ↦ released (lock_key_of key) token locked.1 returned
        | inr raised ↦ absurd (h (rw raised refl))
      ]

  -- When `create_bulk` found the lock of its key free, the lock does not hold its token after it,
  -- whether it returned or raised, unless it raised the exception of a call of Redis.
  pub create_bulk_releases :
      (w : World E)
      → E.redis.get (lock_key_of key) (E.clock w.reads) w.redis ≡ none
      → (create_bulk settings request key w).0 ≢ err redis_error
      → let w' = (create_bulk settings request key w).1 in
        E.redis.get (lock_key_of key) (E.clock w'.reads) w'.redis
        ≢ some (E.uuid_str (E.uuid4 w.draws))
  create_bulk_releases w free h =
      let token = E.uuid_str (E.uuid4 w.draws) in
      let (redis, asked) = create_bulk_asks settings request key w in
      let w₁ : World E = record w { draws = suc w.draws; redis = redis } in
      let set =
        E.redis.set_free (lock_key_of key) token settings.idempotency_lock_ttl_seconds
          (E.clock w.reads) w.redis free in
      elim asked [
        | inl same ↦ rw (same, set) (released_after w₁ token (rw set at (rw same at h)))
        | inr same ↦ absurd (h (rw same refl))
      ]
