-- ===== src/Services/Notifications/Acceptance.antt =====
-- What a client may rely on when `create_bulk` answers "accepted", and when it raises.
use notification_test.Base.{ℕ, suc, String, ◌≡◌, refl, ap, some, arith, length, eq_iff, Has}
use mathlib.Core.Path.{subst}
use notification_test.Exec.{Result, ok, err, >>=_ok, idempotency_record_exists}
use notification_test.Models.{
  Notification, IdempotencyKey, Payload, BulkNotificationResponse, BulkNotificationRequest,
}
use notification_test.Platform.{Env}
use notification_test.Config.{Settings}
use notification_test.World.{Db, World}
use notification_test.Services.Idempotency.{reserve_or_get}
use notification_test.Services.Idempotency.Reserve.{reserve_ok}
use notification_test.Services.BulkRows.{from_keys, new_batch, response_payload, hash_of}
use notification_test.Services.Notifications.{
  insert_batch, add_recipients, create_batch, fill_batch, finish_batch, create_block, create_bulk,
  accepted, after_reserve,
}
use notification_test.Services.Notifications.Recipients.{from_keys_complete}
use notification_test.Services.Notifications.Endings.{answer_of, create_bulk_accepted}
use notification_test.Services.Notifications.Creation.{IsQueued, Queued, Extends, add_recipients_ok}

module _ {E : Env} (request : BulkNotificationRequest) (key hash : String) where
  -- What a successful `create_batch` has made of the tables.
  record Created (r : IdempotencyKey) (payload : Payload) (batch_id : ℕ) (w w' : World E)
      : Type 0 where
    answer : payload ≡ response_payload E batch_id (length (from_keys request.recipient_ids))
    kept : Extends w w'
    all : (i : ℕ) → Has i request.recipient_ids → Queued request batch_id i w'
    stored :
        E.keys.get r.key w'.db.keys
        ≡ some (record r { batch_id = some batch_id; response_payload = some payload })

  insert_batch_keeps :
      (b : _) (w : World E) → (insert_batch b w).1.db.notifications ≡ w.db.notifications
  unfolding insert_batch
  insert_batch_keeps b w = ground arith

  fill_batch_ok :
      (r : IdempotencyKey) (b : ℕ) (w : World E) (payload : Payload)
      → (fill_batch request r b w).0 ≡ ok payload
      → Created r payload b w (fill_batch request r b w).1
  unfolding fill_batch
  fill_batch_ok r b w payload h =
      let ids = from_keys request.recipient_ids in
      let finish = λ (_ : Unit {0}). finish_batch request r b in
      let (_, added, same) = >>=_ok (add_recipients request b ids) finish w h in
      let (kept, all) = add_recipients_ok request b ids w added in
      let answer : payload ≡ response_payload E b (length ids) = ground arith in
      rw same (record {
        answer = answer;
        kept = kept;
        all = λ i has. all i (from_keys_complete request.recipient_ids i has);
        stored = rw (answer, E.keys.get-put, (eq_iff r.key r.key).1 refl);
      })

  create_batch_ok :
      (r : IdempotencyKey) (w : World E) (payload : Payload)
      → (create_batch request key hash r w).0 ≡ ok payload
      → Created r payload (E.uuid4 w.draws) w (create_batch request key hash r w).1
  unfolding create_batch
  create_batch_ok r w payload h =
      let b = E.uuid4 w.draws in
      let row = new_batch request key hash b (E.clock w.reads) in
      let w₀ : World E = record w { draws = suc w.draws; reads = suc w.reads } in
      let (_, inserted, same) = >>=_ok (insert_batch row) (λ _. fill_batch request r b) w₀ h in
      let made = fill_batch_ok r b (insert_batch row w₀).1 payload (rw same at h) in
      rw same (record {
        answer = made.answer;
        kept = λ j m found. made.kept j m (rw (insert_batch_keeps row w₀) found);
        all = made.all;
        stored = made.stored;
      })

-- What stands in the tables `d'` when a request was accepted as `response` over the tables `d`.
pub record Accepted {E : Env} (request : BulkNotificationRequest) (key : String)
    (response : BulkNotificationResponse) (d d' : Db E) : Type 0 where
  pub count : response.notifications_created ≡ length (from_keys request.recipient_ids)
  pub kept :
      (j : ℕ) (n : Notification)
      → E.notifications.get j d.notifications ≡ some n
      → E.notifications.get j d'.notifications ≡ some n
  pub all :
      (i : ℕ)
      → Has i request.recipient_ids
      → (n : Notification) × IsQueued request response.batch_id i n
        × (E.notifications.get n.id d'.notifications ≡ some n)
  pub stored :
      (r : IdempotencyKey) × (E.keys.get key d'.keys ≡ some r)
      × (r.request_hash ≡ hash_of E request)
      × (r.batch_id ≡ some response.batch_id)
      × (r.response_payload
          ≡ some (response_payload E response.batch_id response.notifications_created))

-- The block ends with a new batch only after a reservation.
pub after_reserve_accepted :
    {E : Env} (request : BulkNotificationRequest) (key hash : String) (rr : Result IdempotencyKey)
    (w : World E) (payload : Payload)
    → (after_reserve request key hash rr w).0 ≡ ok (accepted payload)
    → (r : IdempotencyKey) × (rr ≡ ok r)
      × ((create_batch request key hash r w).0 ≡ ok payload)
      × ((after_reserve request key hash rr w).1 ≡ (create_batch request key hash r w).1)
after_reserve_accepted request key hash (ok r) w payload h = (r, refl, ground arith, ground arith)
after_reserve_accepted request key hash (err (idempotency_record_exists p)) w payload h =
    ground arith
after_reserve_accepted request key hash (err _) w payload h = ground arith

module _ {E : Env} (settings : Settings) (request : BulkNotificationRequest) (key : String) where
  pub block_accepted :
      (w : World E) (payload : Payload)
      → (create_block settings request key (hash_of E request) w).0 ≡ ok (accepted payload)
      → (b : ℕ) × (payload ≡ response_payload E b (length (from_keys request.recipient_ids)))
        × Accepted request key
            (record {
              batch_id = b;
              status = "accepted";
              notifications_created = length (from_keys request.recipient_ids);
            })
            w.db
            (create_block settings request key (hash_of E request) w).1.db
  unfolding create_block
  block_accepted w payload h =
      let hash = hash_of E request in
      let reserved = reserve_or_get settings.idempotency_ttl_seconds key hash w in
      let (r, e, filled, same) =
        after_reserve_accepted request key hash reserved.0 reserved.1 payload h in
      let (own, hashed, kept) = reserve_ok settings.idempotency_ttl_seconds key hash w r e in
      let made = create_batch_ok request key hash r reserved.1 payload filled in
      (
        E.uuid4 reserved.1.draws,
        made.answer,
        rw same (record {
          count = refl;
          kept = λ j m found. made.kept j m (rw kept found);
          all = made.all;
          stored = (_, rw own at made.stored, hashed, refl, ap some made.answer);
        }),
      )

  -- If `create_bulk` answers "accepted", then the number in the answer is that of the different
  -- recipients, every one of them has a queued notification of the new batch, no notification that
  -- was there has changed, and the answer is stored under the key with the hash of the request.
  pub create_bulk-Accepted :
      (w : World E) (response : BulkNotificationResponse)
      → (create_bulk settings request key w).0 ≡ ok response
      → response.status ≡ "accepted"
      → Accepted request key response w.db (create_bulk settings request key w).1.db
  create_bulk-Accepted w response =
      create_bulk_accepted settings request key (λ answer d. Accepted request key answer w.db d) w
        response
        (λ w₁ kept payload ran.
          let (b, answer, made) = block_accepted w₁ payload ran in
          (
            b,
            answer,
            subst
                (λ d.
                  Accepted request key (answer_of request b) d
                    (create_block settings request key (hash_of E request) w₁).1.db)
                kept made,
          ))
