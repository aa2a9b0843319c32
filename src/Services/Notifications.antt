-- ===== src/Services/Notifications.antt =====
-- app/services/notification_service.py: `create_bulk`, which accepts a bulk request once for each
-- idempotency key.
pub mod Responses
pub mod Recipients
pub mod Creation
pub mod Locking
pub mod Endings
pub mod Acceptance
pub mod Replay
pub mod Atomic
pub mod Orphans
pub mod Ownership
pub mod Queries
pub mod Visible
pub mod Announcements
pub mod Announced
use Prim.Native.String.{◌++◌ as ◌+text◌}
use notification_test.Base.{
  ℕ, zero, suc, String, Bool, true, false, ◌&&◌, ◌||◌, Option, none, some, List, [], ◌∷◌, ◌==◌,
  str_eq, length, if◌then◌else◌,
}
use notification_test.Exec.{
  Exec, Result, Error, ok, err, ◌>>=◌, ◌>>◌, pure, raise, gets, modify, lift, integrity_error,
  idempotency_conflict, idempotency_in_progress, idempotency_record_exists, key_error, value_error,
  redis_error,
}
use notification_test.Models.{
  NotificationBatch, Notification, queued, IdempotencyKey, OutboxEvent, Json, text, number, Payload,
  BulkNotificationRequest, BulkNotificationResponse, channel_value, type_value,
}
use notification_test.Platform.{
  Env, RedisReply, answers, raises, get_command, set_command, delete_command,
}
use notification_test.Config.{Settings}
use notification_test.World.{
  World, utcnow, draw_uuid, transaction, add_history, put_batch, put_notification, put_key,
}
use notification_test.Services.OutboxService.{
  dict_get, dict_set, notification_payload, add_outbox_event, routing_key_for_notification_type,
}
use notification_test.Services.Idempotency.{get_key_record, reserve_or_get}
use notification_test.Services.BulkRows.{
  from_keys, same_text?, batch_conflict, notification_conflict, new_batch, queued_row, uuid_field,
  text_field, number_field, response_payload, lock_key_of, hash_of,
}

-- How the transaction of `create_bulk` ends: with a response that is given again, or with the
-- payload of a new batch.
pub data Outcome : Type 0 where
  answered : BulkNotificationResponse → Outcome
  accepted : Payload → Outcome

-- The block ends as it did, unless the `finally` block raises.
abbrev pub after_release :
    Result BulkNotificationResponse → Result (Unit {0}) → Result BulkNotificationResponse
after_release r (ok _) = r
after_release r (err e) = err e

module _ {E : Env} where
  unfoldable pub response_of : Payload → Exec (World E) BulkNotificationResponse
  unfolding dict_get
  response_of payload = do
    batch_id ← lift (uuid_field E (dict_get "batch_id" payload))
    status ← lift (text_field (dict_get "status" payload))
    created ← lift (number_field (dict_get "notifications_created" payload))
    pure (record { batch_id = batch_id; status = status; notifications_created = created })

  -- The stored response, given again.
  unfoldable pub already_exists : Payload → Exec (World E) BulkNotificationResponse
  unfolding response_of dict_set
  already_exists payload = response_of (dict_set "status" (text "already_exists") payload)

  abbrev pub unless_any : {A R : Type 0} → List R → Exec (World E) A → Exec (World E) A
  unless_any [] m = m
  unless_any (_ ∷ _) m = raise integrity_error

  -- `session.add(batch)` and the flush: the insert respects the constraints of the table.
  unfoldable pub insert_batch : NotificationBatch → Exec (World E) (Unit {0})
  insert_batch b = do
    others ← gets (λ w. E.batches.select (batch_conflict b) w.db.batches)
    unless_any others (modify (put_batch b))

  unfoldable pub insert_notification : Notification → Exec (World E) (Unit {0})
  insert_notification n = do
    others ← gets (λ w. E.notifications.select (notification_conflict n) w.db.notifications)
    unless_any others (modify (put_notification n))

  -- `add_outbox_event(…)` in the loop over the recipients.
  unfoldable pub add_created_event :
      BulkNotificationRequest
      → (batch_id recipient_id notification_id : ℕ) → Exec (World E) OutboxEvent
  unfolding add_outbox_event
  add_created_event request batch_id recipient_id notification_id = do
    event_id ← draw_uuid
    created_at ← utcnow
    add_outbox_event notification_id "notification.created"
        (notification_payload E event_id notification_id batch_id recipient_id
          (channel_value request.channel) (type_value request.type) 1 created_at
          (routing_key_for_notification_type (type_value request.type)) none none)
        none

  -- One round of the loop.
  unfoldable pub add_recipient : BulkNotificationRequest → ℕ → ℕ → Exec (World E) (Unit {0})
  unfolding add_created_event add_history
  add_recipient request batch_id recipient_id = do
    notification_id ← draw_uuid
    now ← utcnow
    add_created_event request batch_id recipient_id notification_id
    insert_notification (queued_row request batch_id recipient_id notification_id now)
    add_history notification_id queued none

  unfoldable pub add_recipients : BulkNotificationRequest → ℕ → List ℕ → Exec (World E) (Unit {0})
  add_recipients request batch_id [] = pure tt
  add_recipients request batch_id (r ∷ rs) = do
    add_recipient request batch_id r
    add_recipients request batch_id rs

  -- The record is given the batch and the response.
  abbrev pub finish_batch : BulkNotificationRequest → IdempotencyKey → ℕ → Exec (World E) Payload
  finish_batch request r batch_id = do
    let answer : Payload = response_payload E batch_id (length (from_keys request.recipient_ids))
    modify (put_key (record r { batch_id = some batch_id; response_payload = some answer }))
    pure answer

  -- The lines of the transaction after the batch was flushed.
  unfoldable pub fill_batch : BulkNotificationRequest → IdempotencyKey → ℕ → Exec (World E) Payload
  fill_batch request r batch_id = do
    add_recipients request batch_id (from_keys request.recipient_ids)
    finish_batch request r batch_id

  -- The lines of the transaction after the key was reserved.
  unfoldable pub create_batch :
      BulkNotificationRequest → String → String → IdempotencyKey → Exec (World E) Payload
  create_batch request idempotency_key request_hash r = do
    batch_id ← draw_uuid
    now ← utcnow
    insert_batch (new_batch request idempotency_key request_hash batch_id now)
    fill_batch request r batch_id

  -- `except IdempotencyRecordExists`, inside the transaction, and the lines after it.
  abbrev pub after_reserve :
      BulkNotificationRequest → String → String → Result IdempotencyKey → Exec (World E) Outcome
  after_reserve request key request_hash (ok r) = do
    payload ← create_batch request key request_hash r
    pure (accepted payload)
  after_reserve request key request_hash (err (idempotency_record_exists payload)) = do
    response ← already_exists payload
    pure (answered response)
  after_reserve request key request_hash (err e) = raise e

  unfoldable pub create_block :
      Settings → BulkNotificationRequest → String → String → Exec (World E) Outcome
  create_block settings request key request_hash w =
      let (r, w') = reserve_or_get settings.idempotency_ttl_seconds key request_hash w in
      after_reserve request key request_hash r w'

  -- `async with session.begin()` around the block.
  unfoldable pub create_in_transaction :
      Settings → BulkNotificationRequest → String → String → Exec (World E) Outcome
  create_in_transaction settings request key request_hash =
      transaction (create_block settings request key request_hash)

  abbrev pub answer_again : Option Payload → Exec (World E) BulkNotificationResponse
  answer_again none = raise idempotency_in_progress
  answer_again (some payload) = already_exists payload

  -- `except IntegrityError`: another request took the key first.
  abbrev pub recover_from : String → Option IdempotencyKey → Exec (World E) BulkNotificationResponse
  recover_from request_hash none = raise idempotency_in_progress
  recover_from request_hash (some existing) =
      if str_eq existing.request_hash request_hash
      then answer_again existing.response_payload
      else raise idempotency_conflict

  abbrev pub after_transaction :
      String → String → Result Outcome → Exec (World E) BulkNotificationResponse
  after_transaction key request_hash (ok (answered response)) = pure response
  after_transaction key request_hash (ok (accepted payload)) = response_of payload
  after_transaction key request_hash (err integrity_error) = do
    existing ← get_key_record key
    recover_from request_hash existing
  after_transaction key request_hash (err e) = raise e

  -- The block under the lock.
  unfoldable pub create_locked :
      Settings → BulkNotificationRequest → String → String → Exec (World E) BulkNotificationResponse
  unfolding create_in_transaction
  create_locked settings request key request_hash w =
      let (r, w') = create_in_transaction settings request key request_hash w in
      after_transaction key request_hash r w'

  -- The time of the Redis server when a command runs.
  abbrev pub server_time : World E → ℕ
  server_time w = E.clock w.reads

  -- What a call of Redis returns and the state that it leaves, where the server's part is done.
  abbrev pub call_redis : {A : Type 0} → RedisReply → A → E.redis.State → Exec (World E) A
  call_redis answers a redis w = (ok a, record w { redis = redis })
  call_redis (raises true) a redis w = (err redis_error, record w { redis = redis })
  call_redis (raises false) a redis w = (err redis_error, w)

  -- `redis.set(lock_key, lock_token, nx=True, ex=ttl)`
  unfoldable pub acquire_lock : ℕ → String → String → Exec (World E) Bool
  acquire_lock ttl lock_key lock_token w =
      let (acquired, redis) = E.redis.set_nx_ex lock_key lock_token ttl (server_time w) w.redis in
      call_redis (E.redis.reply set_command (server_time w) w.redis) acquired redis w

  -- `redis.get(lock_key)`
  unfoldable pub get_lock : String → Exec (World E) (Option String)
  get_lock lock_key w =
      call_redis (E.redis.reply get_command (server_time w) w.redis)
        (E.redis.get lock_key (server_time w) w.redis) w.redis w

  -- `redis.delete(lock_key)`
  unfoldable pub delete_lock : String → Exec (World E) (Unit {0})
  delete_lock lock_key w =
      call_redis (E.redis.reply delete_command (server_time w) w.redis) tt
        (E.redis.delete lock_key w.redis) w

  -- The `finally` block: the lock is deleted only if it still holds the token.
  unfoldable pub release_lock : String → String → Exec (World E) (Unit {0})
  unfolding get_lock delete_lock
  release_lock lock_key lock_token = do
    value ← get_lock lock_key
    if same_text? value (some lock_token) then delete_lock lock_key else pure tt

  abbrev pub with_lock :
      String
      → String
      → Exec (World E) BulkNotificationResponse
      → Bool
      → Exec (World E) BulkNotificationResponse
  with_lock lock_key lock_token block false w = (err idempotency_in_progress, w)
  with_lock lock_key lock_token block true w =
      let (r, w') = block w in
      let (released, w'') = release_lock lock_key lock_token w' in (after_release r released, w'')

  unfoldable pub create_bulk :
      Settings → BulkNotificationRequest → String → Exec (World E) BulkNotificationResponse
  unfolding acquire_lock
  create_bulk settings request idempotency_key = do
    let request_hash : String = hash_of E request
    token ← draw_uuid
    let lock_token : String = E.uuid_str token
    let lock_key : String = lock_key_of idempotency_key
    acquired ← acquire_lock settings.idempotency_lock_ttl_seconds lock_key lock_token
    with_lock lock_key lock_token (create_locked settings request idempotency_key request_hash)
        acquired
