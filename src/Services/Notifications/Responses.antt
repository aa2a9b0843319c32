-- ===== src/Services/Notifications/Responses.antt =====
-- The response that `create_bulk` stores, and what a client reads from it.
use notification_test.Base.{ℕ, String, ◌≡◌, some, [], ◌∷◌, arith, eq_iff}
use notification_test.Exec.{ok}
use notification_test.Models.{Json, text, Payload, BulkNotificationResponse}
use notification_test.Platform.{Env}
use notification_test.World.{World}
use notification_test.Services.OutboxService.{dict_get, dict_set}
use notification_test.Services.BulkRows.{response_payload}
use notification_test.Services.Notifications.{response_of, already_exists}

module _ {E : Env} (batch_id created : ℕ) (w : World E) where
  -- The stored payload reads as the batch and the number that it was written from.
  pub response_of-response_payload : response_of (response_payload E batch_id created) w ≡ (
    ok (record { batch_id = batch_id; status = "accepted"; notifications_created = created }),
    w,
  )
  unfolding response_of
  response_of-response_payload = rw (E.uuid_of-uuid_str batch_id)

  -- A repeated request gets the same batch and number, and the status that says so.
  pub already_exists-response_payload : already_exists (response_payload E batch_id created) w ≡ (
    ok (record { batch_id = batch_id; status = "already_exists"; notifications_created = created }),
    w,
  )
  unfolding already_exists
  already_exists-response_payload = rw (E.uuid_of-uuid_str batch_id)

dict_get-dict_set_self :
    (k : String) (v : Json) (d : Payload) → dict_get k (dict_set k v d) ≡ some v
unfolding dict_get dict_set
dict_get-dict_set_self k v [] = ground (arith, eq_iff k k)
dict_get-dict_set_self k v ((j, u) ∷ d) =
    ground (arith, eq_iff k j, eq_iff k k, dict_get-dict_set_self k v d)

-- A response that is given again says so.
pub already_exists-status :
    {E : Env} (payload : Payload) (w : World E) (response : BulkNotificationResponse)
    → (already_exists payload w).0 ≡ ok response
    → response.status ≡ "already_exists"
unfolding already_exists
already_exists-status {E} payload w response h =
    ground (arith, dict_get-dict_set_self "status" (text "already_exists") payload)

pub already_exists_pure :
    {E : Env} (payload : Payload) (w : World E) → (already_exists payload w).1 ≡ w
unfolding already_exists
already_exists_pure payload w = ground arith

pub response_of_pure : {E : Env} (payload : Payload) (w : World E) → (response_of payload w).1 ≡ w
unfolding response_of
response_of_pure payload w = ground arith
