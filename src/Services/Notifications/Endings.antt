-- ===== src/Services/Notifications/Endings.antt =====
-- How `create_bulk` comes to answer "accepted": by a transaction that ended with a new batch.
use notification_test.Base.{
  ℕ, suc, String, ◌≡◌, inl, inr, refl, Bool, true, false, Option, none, some, arith, length, eq_iff,
  Option-cases,
}
use notification_test.Exec.{Result, ok, err, integrity_error, idempotency_record_exists}
use notification_test.Models.{
  IdempotencyKey, Payload, BulkNotificationResponse, BulkNotificationRequest,
}
use notification_test.Platform.{Env}
use notification_test.Config.{Settings}
use notification_test.World.{Db, World, transaction, transaction_ok}
use notification_test.Services.Idempotency.{reserve_or_get}
use notification_test.Services.BulkRows.{from_keys, response_payload, hash_of, lock_key_of}
use notification_test.Services.Notifications.{
  create_block, create_locked, create_bulk, response_of, Outcome, answered, accepted, after_reserve,
  after_transaction, recover_from, release_lock,
}
use notification_test.Services.Notifications.Locking.{
  after_release_ok, create_bulk_asks, db-release_lock, locking, was_free,
}
use notification_test.Services.Notifications.Responses.{
  response_of-response_payload, already_exists-status,
}

differs : (s : String) → s ≡ "already_exists" → s ≡ "accepted" → ⊥
differs s h k = ground (arith, eq_iff "already_exists" "accepted")

-- The answer to a request whose batch was made.
abbrev pub answer_of : BulkNotificationRequest → ℕ → BulkNotificationResponse
answer_of request b = record {
  batch_id = b;
  status = "accepted";
  notifications_created = length (from_keys request.recipient_ids);
}

module _ {E : Env} (settings : Settings) (request : BulkNotificationRequest) (key : String) where
  -- A response that the transaction gives again says so.
  after_reserve-answered :
      (hash : String) (rr : Result IdempotencyKey) (w : World E)
      (response : BulkNotificationResponse)
      → (after_reserve request key hash rr w).0 ≡ ok (answered response)
      → response.status ≡ "already_exists"
  after_reserve-answered hash (ok r) w response h = ground arith
  after_reserve-answered hash (err (idempotency_record_exists p)) w response h =
      already_exists-status p w response (ground arith)
  after_reserve-answered hash (err _) w response h = ground arith

  recover_answered :
      (hash : String) (found : Option IdempotencyKey) (w : World E)
      (response : BulkNotificationResponse)
      → (recover_from hash found w).0 ≡ ok response
      → response.status ≡ "already_exists"
  recover_answered hash none w response h = ground arith
  recover_answered hash (some r) w response h = elim (Option-cases r.response_payload) [
    | inl e ↦ ground arith
    | inr (p, e) ↦ already_exists-status p w response (ground arith)
  ]

  block_answered :
      (w : World E) (response : BulkNotificationResponse)
      → (create_block settings request key (hash_of E request) w).0 ≡ ok (answered response)
      → response.status ≡ "already_exists"
  unfolding create_block
  block_answered w response h =
      let reserved = reserve_or_get settings.idempotency_ttl_seconds key (hash_of E request) w in
      after_reserve-answered (hash_of E request) reserved.0 reserved.1 response h

  -- What holds of the answer and the tables when the transaction ended with a new batch, holds of
  -- those of `create_bulk` when it answers "accepted".
  module _ (P : BulkNotificationResponse → Db E → Type 0) where
    -- What a run of the block with that result has to show.
    abbrev New : Result Outcome → World E → Type 0
    New rt w₁ =
        (payload : Payload)
        → rt ≡ ok (accepted payload)
        → (b : ℕ) × (payload ≡ response_payload E b (length (from_keys request.recipient_ids)))
          × P (answer_of request b) w₁.db

    end_accepted :
        (rt : Result Outcome) (w₁ : World E) (response : BulkNotificationResponse)
        → New rt w₁
        → ((again : BulkNotificationResponse)
            → rt ≡ ok (answered again)
            → again.status ≡ "already_exists")
        → (after_transaction key (hash_of E request) rt w₁).0 ≡ ok response
        → response.status ≡ "accepted"
        → P response (after_transaction key (hash_of E request) rt w₁).1.db
    end_accepted (ok (answered again)) w₁ response new old h s =
        absurd (differs response.status (old response (ground arith)) s)
    end_accepted (ok (accepted payload)) w₁ response new old h s =
        let (b, e, made) = new payload refl in
        let ran : response_of payload w₁ ≡ (ok (answer_of request b), w₁) =
          rw e (response_of-response_payload b (length (from_keys request.recipient_ids)) w₁) in
        let same : answer_of request b ≡ response = ground arith in rw (← same) (rw ran made)
    end_accepted (err integrity_error) w₁ response new old h s = absurd (
        differs response.status
          (recover_answered (hash_of E request) (E.keys.get key w₁.db.keys) w₁ response h) s)
    end_accepted (err _) w₁ response new old h s = ground arith

    locked_accepted :
        (w : World E) (response : BulkNotificationResponse)
        → (let r = create_block settings request key (hash_of E request) w in New r.0 r.1)
        → (create_locked settings request key (hash_of E request) w).0 ≡ ok response
        → response.status ≡ "accepted"
        → P response (create_locked settings request key (hash_of E request) w).1.db
    unfolding create_locked
    locked_accepted w response new h s =
        let block = create_block settings request key (hash_of E request) in
        let done = transaction block w in
        end_accepted done.0 done.1 response
          (λ payload e.
            let (ran, same) = transaction_ok block w e in
            let (b, answer, made) = new payload ran in (b, answer, rw same made))
          (λ again e. block_answered w again (transaction_ok block w e).0) h s

    pub create_bulk_accepted :
        (w : World E) (response : BulkNotificationResponse)
        → ((w₁ : World E)
            → w₁.db ≡ w.db
            → let r = create_block settings request key (hash_of E request) w₁ in New r.0 r.1)
        → (create_bulk settings request key w).0 ≡ ok response
        → response.status ≡ "accepted"
        → P response (create_bulk settings request key w).1.db
    create_bulk_accepted w response new h s =
        let (redis, asked) = create_bulk_asks settings request key w in
        let w₁ : World E = record w { draws = suc w.draws; redis = redis } in
        elim asked [
          | inl same ↦ rw same (go (was_free settings request key w) w₁ refl (rw same at h))
          | inr same ↦ ground (arith, rw same at h)
        ]
      where
        go :
            (acquired : Bool) (w₁ : World E)
            → w₁.db ≡ w.db
            → (locking settings request key w acquired w₁).0 ≡ ok response
            → P response (locking settings request key w acquired w₁).1.db
        go false w₁ kept h = ground arith
        go true w₁ kept h =
            let token = E.uuid_str (E.uuid4 w.draws) in
            let locked = create_locked settings request key (hash_of E request) w₁ in
            let (ran, _) =
              after_release_ok locked.0 (release_lock (lock_key_of key) token locked.1).0 h in
            rw (db-release_lock (lock_key_of key) token locked.1)
              (locked_accepted w₁ response (new w₁ kept) ran s)
