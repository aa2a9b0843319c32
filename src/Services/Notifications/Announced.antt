-- ===== src/Services/Notifications/Announced.antt =====
-- app/services/notification_service.py: the events that `create_bulk` writes in the transaction of the
-- batch, one for each recipient.
use notification_test.Base.{ℕ, suc, ◌≡◌, String, arith, Has, length}
use notification_test.Exec.{ok, >>=_ok}
use notification_test.Models.{
  Payload, IdempotencyKey, BulkNotificationRequest, BulkNotificationResponse,
}
use notification_test.Platform.{Env}
use notification_test.Config.{Settings}
use notification_test.World.{Db, World}
use notification_test.Services.Idempotency.{reserve_or_get}
use notification_test.Services.BulkRows.{from_keys, new_batch, hash_of, response_payload}
use notification_test.Services.Notifications.{
  add_recipients, insert_batch, fill_batch, finish_batch, create_batch, create_block, create_bulk,
  accepted,
}
use notification_test.Services.Notifications.Recipients.{from_keys_complete}
use notification_test.Services.Notifications.Acceptance.{after_reserve_accepted}
use notification_test.Services.Notifications.Endings.{create_bulk_accepted}
use notification_test.Services.Notifications.Announcements.{Announced, add_recipients-Announced}

module _ {E : Env} (settings : Settings) (request : BulkNotificationRequest) (key : String)
    (unique : (i j : ℕ) → E.uuid4 i ≡ E.uuid4 j → i ≡ j) where
  abbrev AllAnnounced : ℕ → Db E → Type 0
  AllAnnounced batch_id d = (i : ℕ) → Has i request.recipient_ids → Announced E request batch_id i d

  fill_batch-Announced :
      (r : IdempotencyKey) (b : ℕ) (w : World E) (payload : Payload)
      → (fill_batch request r b w).0 ≡ ok payload
      → (payload ≡ response_payload E b (length (from_keys request.recipient_ids)))
        × AllAnnounced b (fill_batch request r b w).1.db
  unfolding fill_batch
  fill_batch-Announced r b w payload h =
      let ids = from_keys request.recipient_ids in
      let (_, added, same) =
        >>=_ok (add_recipients request b ids) (λ (_ : Unit {0}). finish_batch request r b) w h in
      let all = add_recipients-Announced request b unique ids w added in
      (ground arith, rw same (λ i has. all i (from_keys_complete request.recipient_ids i has)))

  create_batch-Announced :
      (r : IdempotencyKey) (w : World E) (payload : Payload)
      → (create_batch request key (hash_of E request) r w).0 ≡ ok payload
      → (payload ≡ response_payload E (E.uuid4 w.draws) (length (from_keys request.recipient_ids)))
        × AllAnnounced (E.uuid4 w.draws) (create_batch request key (hash_of E request) r w).1.db
  unfolding create_batch
  create_batch-Announced r w payload h =
      let b = E.uuid4 w.draws in
      let row = new_batch request key (hash_of E request) b (E.clock w.reads) in
      let w₀ : World E = record w { draws = suc w.draws; reads = suc w.reads } in
      let (_, inserted, same) = >>=_ok (insert_batch row) (λ _. fill_batch request r b) w₀ h in
      let (answer, all) = fill_batch-Announced r b (insert_batch row w₀).1 payload (rw same at h) in
      (answer, rw same all)

  block-Announced :
      (w : World E) (payload : Payload)
      → (create_block settings request key (hash_of E request) w).0 ≡ ok (accepted payload)
      → (b : ℕ) × (payload ≡ response_payload E b (length (from_keys request.recipient_ids)))
        × AllAnnounced b (create_block settings request key (hash_of E request) w).1.db
  unfolding create_block
  block-Announced w payload h =
      let hash = hash_of E request in
      let reserved = reserve_or_get settings.idempotency_ttl_seconds key hash w in
      let (r, e, filled, same) =
        after_reserve_accepted request key hash reserved.0 reserved.1 payload h in
      let (answer, all) = create_batch-Announced r reserved.1 payload filled in
      (E.uuid4 reserved.1.draws, answer, rw same all)

  -- If the UUIDs that are drawn are all different and `create_bulk` answers "accepted", then for every
  -- recipient of the request the tables hold a queued notification of the new batch together with an
  -- event in the outbox that waits to be published, which names that notification as the worker reads
  -- it and has the routing key of its type.
  pub create_bulk-Announced :
      (w : World E) (response : BulkNotificationResponse)
      → (create_bulk settings request key w).0 ≡ ok response
      → response.status ≡ "accepted"
      → (i : ℕ) → Has i request.recipient_ids
      → Announced E request response.batch_id i (create_bulk settings request key w).1.db
  create_bulk-Announced w response =
      create_bulk_accepted settings request key (λ answer d. AllAnnounced answer.batch_id d) w
        response (λ w₁ kept payload ran. block-Announced w₁ payload ran)
