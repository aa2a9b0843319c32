-- ===== src/Services/Notifications/Ownership.antt =====
-- app/services/notification_service.py: `create_bulk` keeps the batches and the records of their keys
-- together.
use notification_test.Base.{
  ℕ, suc, String, ◌≡◌, ◌≢◌, inl, inr, refl, ap, sym, ◌∙◌, Bool, true, false, some, List, [], ◌∷◌,
  arith, ◌==◌, eq_iff, Has, Bool-cases, length,
}
use notification_test.Exec.{
  pure, Result, Result-cases, ok, err, >>=_ok, integrity_error, idempotency_record_exists,
}
use notification_test.Models.{IdempotencyKey, Payload, BulkNotificationRequest}
use notification_test.Platform.{Env}
use notification_test.Config.{Settings}
use notification_test.World.{World, transaction, transaction_ok, transaction_err, put_batch}
use notification_test.Services.Idempotency.{reserve_or_get}
use notification_test.Services.Idempotency.Owners.{Owned, IsKeyed, Free}
use notification_test.Services.Idempotency.Reserve.{reserve_ok}
use notification_test.Services.Idempotency.Reservations.{
  Touches, reserve_answers, Touches-Owned, reserve_or_get-Touches,
}
use notification_test.Services.BulkRows.{
  batch_conflict, new_batch, response_payload, from_keys, hash_of,
}
use notification_test.Services.Notifications.{
  Outcome, answered, accepted, insert_batch, insert_notification, add_recipient, add_recipients,
  finish_batch, fill_batch, create_batch, after_reserve, create_block, create_locked, create_bulk,
  already_exists, after_transaction, with_lock,
}
use notification_test.Services.Notifications.Locking.{db-release_lock, create_bulk_asks, was_free}
use notification_test.Services.Notifications.Responses.{already_exists_pure, response_of_pure}
use notification_test.Services.Notifications.Atomic.{recover_pure}

module _ {E : Env} (request : BulkNotificationRequest) where
  -- The loop over the recipients writes neither batches nor keys.
  abbrev Aside : World E → World E → Type 0
  Aside w w' = (w'.db.batches ≡ w.db.batches) × (w'.db.keys ≡ w.db.keys)

  add_recipient-Aside : (b r : ℕ) (w : World E) → Aside w (add_recipient request b r w).1
  unfolding add_recipient insert_notification
  add_recipient-Aside b r w = ground arith

  add_recipients-Aside :
      (b : ℕ) (rs : List ℕ) (w : World E) → Aside w (add_recipients request b rs w).1
  unfolding add_recipients
  add_recipients-Aside b [] w = (refl, refl)
  add_recipients-Aside b (r ∷ rs) w =
      ground (
        arith,
        add_recipient-Aside b r w,
        add_recipients-Aside b rs (add_recipient request b r w).1,
      )

module _ {E : Env} (request : BulkNotificationRequest) (key hash : String) where
  -- A batch is inserted where no batch has its key.
  insert_batch_ok :
      (id now : ℕ) (w : World E)
      → (insert_batch (new_batch request key hash id now) w).0 ≡ ok tt
      → ((insert_batch (new_batch request key hash id now) w).1
          ≡ put_batch (new_batch request key hash id now) w)
        × Free E key w.db
  unfolding insert_batch
  insert_batch_ok id now w h =
      let b = new_batch request key hash id now in
      let empty : E.batches.select (batch_conflict b) w.db.batches ≡ [] = ground arith in
      (
        ground arith,
        λ j x found has.
            let met : batch_conflict b x ≡ true = rw has (ground (arith, eq_iff key key)) in
            let here : Has x (E.batches.select (batch_conflict b) w.db.batches) =
              E.batches.select_complete (batch_conflict b) w.db.batches j x found met in
            absurd (rw empty at here),
      )

  fill_batch_ok :
      (r : IdempotencyKey) (b : ℕ) (w : World E) (payload : Payload)
      → (fill_batch request r b w).0 ≡ ok payload
      → ((fill_batch request r b w).1.db.batches ≡ w.db.batches)
        × ((fill_batch request r b w).1.db.keys
            ≡ E.keys.put
                (record r { batch_id = some b; response_payload = some payload })
                w.db.keys)
  unfolding fill_batch
  fill_batch_ok r b w payload h =
      let ids = from_keys request.recipient_ids in
      let (_, added, same) =
        >>=_ok (add_recipients request b ids) (λ _. finish_batch request r b) w h in
      let aside = add_recipients-Aside request b ids w in
      let answer : payload ≡ response_payload E b (length ids) = ground arith in
      rw same (rw answer (ground arith))

  -- The new batch and its record go in together.
  create_batch-IsKeyed :
      (r : IdempotencyKey) (w : World E) (payload : Payload)
      → r.key ≡ key
      → ((k : String) → key ≢ k → Owned E k w.db)
      → (create_batch request key hash r w).0 ≡ ok payload
      → IsKeyed E (create_batch request key hash r w).1.db
  unfolding create_batch
  create_batch-IsKeyed r w payload own others h =
      let b = new_batch request key hash (E.uuid4 w.draws) (E.clock w.reads) in
      let w₀ : World E = record w { draws = suc w.draws; reads = suc w.reads } in
      let (_, inserted, same) = >>=_ok (insert_batch b) (λ _. fill_batch request r b.id) w₀ h in
      let (put, free) = insert_batch_ok b.id (E.clock w.reads) w₀ inserted in
      let (batches, keys) =
        fill_batch_ok r b.id (put_batch b w₀) payload (rw put at (rw same at h)) in
      rw same (
        rw put (λ k id x found has. elim (Bool-cases (b.id == id)) [
          | inl new ↦
              let is : b ≡ x =
                ground (arith, found, batches, E.batches.get-put id b w.db.batches) in
              let mine : key ≡ k = ground (arith, has) in
              (
                record r { batch_id = some b.id; response_payload = some payload },
                ground (
                  arith,
                  keys,
                  E.keys.get-put k
                      (record r { batch_id = some b.id; response_payload = some payload })
                      w.db.keys,
                  eq_iff r.key k,
                ),
                ground arith,
              )
          | inr old ↦
              let before : E.batches.get id w.db.batches ≡ some x =
                ground (arith, found, batches, E.batches.get-put id b w.db.batches) in
              let other : key ≢ k = λ e. free id x before (has ∙ ap some (sym e)) in
              let (s, stored, of) = others k other id x before has in
              (
                s,
                ground (
                  arith,
                  keys,
                  stored,
                  own,
                  other,
                  E.keys.get-put k
                      (record r { batch_id = some b.id; response_payload = some payload })
                      w.db.keys,
                  eq_iff r.key k,
                ),
                of,
              )
        ]))

module _ {E : Env} (settings : Settings) (request : BulkNotificationRequest) (key : String) where
  after_reserve-IsKeyed :
      (rr : Result IdempotencyKey) (w w₁ : World E) (o : Outcome)
      → ((r : IdempotencyKey) → rr ≡ ok r → r.key ≡ key)
      → ((p : Payload) → rr ≡ err (idempotency_record_exists p) → w₁.db ≡ w.db)
      → Touches key w.db w₁.db
      → (after_reserve request key (hash_of E request) rr w₁).0 ≡ ok o
      → IsKeyed E w.db
      → IsKeyed E (after_reserve request key (hash_of E request) rr w₁).1.db
  after_reserve-IsKeyed (ok r) w w₁ o own same touches h keyed =
      let (payload, made, done) =
        >>=_ok (create_batch request key (hash_of E request) r) (λ payload. pure (accepted payload))
          w₁ h in
      rw done (
        create_batch-IsKeyed request key (hash_of E request) r w₁ payload (own r refl)
          (λ k other. Touches-Owned key k w.db w₁.db other touches (keyed k)) made)
  after_reserve-IsKeyed (err (idempotency_record_exists p)) w w₁ o own same touches h keyed =
      let (again, said, done) =
        >>=_ok (already_exists p) (λ response. pure (answered response)) w₁ h in
      rw done (rw (already_exists_pure p w₁) (rw (same p refl) keyed))
  after_reserve-IsKeyed (err _) w w₁ o own same touches h keyed = ground arith

  block-IsKeyed :
      (w : World E) (o : Outcome)
      → (create_block settings request key (hash_of E request) w).0 ≡ ok o
      → IsKeyed E w.db
      → IsKeyed E (create_block settings request key (hash_of E request) w).1.db
  unfolding create_block
  block-IsKeyed w o h keyed =
      let ttl = settings.idempotency_ttl_seconds in
      let reserved = reserve_or_get ttl key (hash_of E request) w in
      after_reserve-IsKeyed reserved.0 w reserved.1 o
        (λ r e. (reserve_ok ttl key (hash_of E request) w r e).0)
        (λ p e. reserve_answers key ttl (hash_of E request) w p e)
        (reserve_or_get-Touches key ttl (hash_of E request) w) h keyed

  -- What comes after the transaction writes nothing.
  pub after_transaction_pure :
      (rt : Result Outcome) (w : World E) → (after_transaction key (hash_of E request) rt w).1 ≡ w
  after_transaction_pure (ok (answered again)) w = refl
  after_transaction_pure (ok (accepted payload)) w = response_of_pure payload w
  after_transaction_pure (err integrity_error) w =
      recover_pure (hash_of E request) (E.keys.get key w.db.keys) w
  after_transaction_pure (err _) w = refl

  locked-IsKeyed :
      (w : World E)
      → IsKeyed E w.db
      → IsKeyed E (create_locked settings request key (hash_of E request) w).1.db
  unfolding create_locked
  locked-IsKeyed w keyed =
      let block = create_block settings request key (hash_of E request) in
      let done = transaction block w in
      rw (after_transaction_pure done.0 done.1) (elim (Result-cases done.0) [
        | inl (o, e) ↦
            let (ran, same) = transaction_ok block w e in rw same (block-IsKeyed w o ran keyed)
        | inr (x, e) ↦ rw (transaction_err block w e) keyed
      ])

  with_lock-IsKeyed :
      (acquired : Bool) (lock_key token : String) (w : World E)
      → IsKeyed E w.db
      → IsKeyed E
          (with_lock lock_key token
            (create_locked settings request key (hash_of E request))
            acquired
            w).1.db
  with_lock-IsKeyed false lock_key token w keyed = keyed
  with_lock-IsKeyed true lock_key token w keyed = rw db-release_lock (locked-IsKeyed w keyed)

  -- Every batch that has a key is known to the record of that key after `create_bulk`, whatever it
  -- returns or raises, when all were before it.
  pub create_bulk-IsKeyed :
      (w : World E) → IsKeyed E w.db → IsKeyed E (create_bulk settings request key w).1.db
  create_bulk-IsKeyed w keyed =
      let (redis, asked) = create_bulk_asks settings request key w in
      let w₁ : World E = record w { draws = suc w.draws; redis = redis } in
      elim asked [
        | inl same ↦ rw same (with_lock-IsKeyed (was_free settings request key w) _ _ w₁ keyed)
        | inr same ↦ rw same keyed
      ]
