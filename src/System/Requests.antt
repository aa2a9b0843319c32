-- ===== src/System/Requests.antt =====
-- What holds of every request because it holds of the work on one recipient.
use notification_test.Base.{inl, inr, ℕ, suc, refl, String, Bool, true, false, List, [], ◌∷◌, arith}
use notification_test.Exec.{Result, ok, err, pure, idempotency_record_exists}
use notification_test.Models.{IdempotencyKey, NotificationBatch, BulkNotificationRequest}
use notification_test.Platform.{Env}
use notification_test.Config.{Settings}
use notification_test.World.{World, transaction}
use notification_test.Services.Idempotency.{reserve_or_get}
use notification_test.Services.BulkRows.{from_keys, hash_of, lock_key_of, new_batch}
use notification_test.Services.Notifications.{
  answered, accepted, finish_batch, release_lock, insert_batch, add_recipient, add_recipients,
  fill_batch, create_batch, after_reserve, create_block, create_locked, create_bulk, already_exists,
  with_lock,
}
use notification_test.Services.Notifications.Locking.{
  db-release_lock, create_bulk_asks, locking, release_lock-Called, was_free,
}
use notification_test.Services.Notifications.Responses.{already_exists_pure}
use notification_test.Services.Notifications.Ownership.{after_transaction_pure}
use notification_test.System.Changes.{
  Onward, stays, Steady, Steady-Change, unchanged-Steady, transaction-Change, bind-Steady,
}
use notification_test.System.Keys.{Quiet-Steady, reserve_or_get-Steady, Quiet}

module _ {E : Env} where
  release_lock-Onward :
      (lock_key token : String) (w : World E) → Onward w (release_lock lock_key token w).1
  release_lock-Onward lock_key token w =
      let (redis, ends) = release_lock-Called lock_key token w in
      elim ends [
        | inl e ↦ rw e (omega arith, omega arith)
        | inr e ↦ rw e (omega arith, omega arith)
      ]

  insert_batch-Quiet : (b : NotificationBatch) (w : World E) → Quiet w (insert_batch b w).1
  unfolding insert_batch
  insert_batch-Quiet b w = ground arith

module _ {E : Env} {R : World E → World E → Type 0} (s : Steady R)
    (request : BulkNotificationRequest)
    (adds : (b r : ℕ) (w : World E) → R w (add_recipient request b r w).1) where
  add_recipients-Steady :
      (b : ℕ) (rs : List ℕ) (w : World E) → R w (add_recipients request b rs w).1
  unfolding add_recipients
  add_recipients-Steady b [] w = unchanged-Steady s w w (stays w) refl
  add_recipients-Steady b (r ∷ rs) w =
      bind-Steady s (add_recipient request b r) (λ _. add_recipients request b rs) w (adds b r w)
        (λ _. add_recipients-Steady b rs (add_recipient request b r w).1)

  fill_batch-Steady : (r : IdempotencyKey) (b : ℕ) (w : World E) → R w (fill_batch request r b w).1
  unfolding fill_batch
  fill_batch-Steady r b w =
      let ids = from_keys request.recipient_ids in
      bind-Steady s (add_recipients request b ids) (λ _. finish_batch request r b) w
        (add_recipients-Steady b ids w)
        (λ _.
          let w₁ = (add_recipients request b ids w).1 in
          Quiet-Steady s w₁ (finish_batch request r b w₁).1 (stays w₁, refl, refl, refl))

  create_batch-Steady :
      (key hash : String) (r : IdempotencyKey) (w : World E)
      → R w (create_batch request key hash r w).1
  unfolding create_batch
  create_batch-Steady key hash r w =
      let b = new_batch request key hash (E.uuid4 w.draws) (E.clock w.reads) in
      let w₀ : World E = record w { draws = suc w.draws; reads = suc w.reads } in
      s.trans w w₀ (create_batch request key hash r w).1
        (unchanged-Steady s w w₀ (omega arith, omega arith) refl)
        (bind-Steady s (insert_batch b) (λ _. fill_batch request r b.id) w₀
          (Quiet-Steady s w₀ (insert_batch b w₀).1 (insert_batch-Quiet b w₀))
          (λ _. fill_batch-Steady r b.id (insert_batch b w₀).1))

  after_reserve-Steady :
      (key hash : String) (rr : Result IdempotencyKey) (w : World E)
      → R w (after_reserve request key hash rr w).1
  after_reserve-Steady key hash (ok r) w =
      bind-Steady s (create_batch request key hash r) (λ payload. pure (accepted payload)) w
        (create_batch-Steady key hash r w)
        (λ _.
          let w₁ = (create_batch request key hash r w).1 in
          unchanged-Steady s w₁ w₁ (stays w₁) refl)
  after_reserve-Steady key hash (err (idempotency_record_exists p)) w =
      bind-Steady s (already_exists p) (λ response. pure (answered response)) w
        (rw (already_exists_pure p w) (unchanged-Steady s w w (stays w) refl))
        (λ _. let w₁ = (already_exists {E = E} p w).1 in unchanged-Steady s w₁ w₁ (stays w₁) refl)
  after_reserve-Steady key hash (err _) w = unchanged-Steady s w w (stays w) refl

  module _ (settings : Settings) (key : String) where
    block-Steady : (w : World E) → R w (create_block settings request key (hash_of E request) w).1
    unfolding create_block
    block-Steady w =
        let reserved = reserve_or_get settings.idempotency_ttl_seconds key (hash_of E request) w in
        s.trans w reserved.1 (create_block settings request key (hash_of E request) w).1
          (reserve_or_get-Steady s settings.idempotency_ttl_seconds key (hash_of E request) w)
          (after_reserve-Steady key (hash_of E request) reserved.0 reserved.1)

    locked-Steady : (w : World E) → R w (create_locked settings request key (hash_of E request) w).1
    unfolding create_locked
    locked-Steady w =
        let block = create_block settings request key (hash_of E request) in
        let done = transaction block w in
        rw (after_transaction_pure settings request key done.0 done.1)
          (transaction-Change (Steady-Change s) block w (block-Steady w))

    with_lock-Steady :
        (acquired : Bool) (lock_key token : String) (w : World E)
        → R w
            (with_lock lock_key token
              (create_locked settings request key (hash_of E request))
              acquired
              w).1
    with_lock-Steady false lock_key token w = unchanged-Steady s w w (stays w) refl
    with_lock-Steady true lock_key token w =
        let w₁ = (create_locked settings request key (hash_of E request) w).1 in
        s.trans w w₁ (release_lock lock_key token w₁).1 (locked-Steady w) (
          unchanged-Steady s w₁ (release_lock lock_key token w₁).1
            (release_lock-Onward lock_key token w₁) (db-release_lock lock_key token w₁))

    -- A request, whatever it returns or raises.
    pub create_bulk-Steady : (w : World E) → R w (create_bulk settings request key w).1
    create_bulk-Steady w =
        let (redis, asked) = create_bulk_asks settings request key w in
        let w₁ : World E = record w { draws = suc w.draws; redis = redis } in
        let token = E.uuid_str (E.uuid4 w.draws) in
        let start = unchanged-Steady s w w₁ (omega arith, omega arith) refl in
        elim asked [
          | inl same ↦ rw same (
              s.trans w w₁ (locking settings request key w (was_free settings request key w) w₁).1
                start
                (with_lock-Steady (was_free settings request key w) (lock_key_of key) token w₁))
          | inr same ↦ rw same start
        ]
