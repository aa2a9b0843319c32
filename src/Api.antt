-- ===== src/Api.antt =====
-- app/api/v1 and app/main.py: the routes, with the errors of the services that they answer. An
-- exception that a route does not answer is the framework's to answer.
pub mod Bulk
pub mod Health
use notification_test.Base.{
  ℕ, suc, ◌+◌, leb, length, String, Bool, true, false, ◌&&◌, Option, none, some, map,
}
use notification_test.Exec.{Exec, Result, ok, err, idempotency_conflict, idempotency_in_progress}
use notification_test.Models.{
  NotificationChannel, NotificationStatus, channel_value, BulkNotificationRequest,
  BulkNotificationResponse,
}
use notification_test.Platform.{Env}
use notification_test.Config.{Settings}
use notification_test.World.{World}
use notification_test.Services.Notifications.{create_bulk}
use notification_test.Services.Notifications.Queries.{
  NotificationItem, NotificationListResponse, get_notification, list_for_subscriber,
}

-- What a route answers, or the HTTPException that it raises, with its detail.
pub data Reply (A : Type 0) : Type 0 where
  reply : (status_code : ℕ) → A → Reply A
  http_exception : (status_code : ℕ) → String → Reply A

abbrev pub text_length : String → ℕ
text_length String.[] = 0
text_length (String.◌∷◌ c s) = suc (text_length s)

-- The constraints of `BulkNotificationRequest`, which hold of every request that reaches a route.
unfoldable pub is_valid_request : BulkNotificationRequest → Bool
is_valid_request r =
    leb 1 (text_length r.message)
    && leb (text_length r.message) 4000
    && leb 1 (length r.recipient_ids)
    && leb (length r.recipient_ids) 10000

-- The `except` clauses of `create_bulk_notifications`.
unfoldable pub answer_bulk :
    Result BulkNotificationResponse → Result (Reply BulkNotificationResponse)
answer_bulk (ok response) = ok (reply 202 response)
answer_bulk (err idempotency_conflict) =
    ok (http_exception 409 "Idempotency key already used with different request body")
answer_bulk (err idempotency_in_progress) =
    ok (http_exception 409 "Request with this Idempotency-Key is already in progress")
answer_bulk (err e) = err e

abbrev pub answer_item : Result (Option NotificationItem) → Result (Reply NotificationItem)
answer_item (ok (some item)) = ok (reply 200 item)
answer_item (ok none) = ok (http_exception 404 "Notification not found")
answer_item (err e) = err e

-- `channel.value if channel else None`
abbrev pub channel_text : Option NotificationChannel → Option String
channel_text none = none
channel_text (some channel) = some (channel_value channel)

module _ {E : Env} where
  unfoldable pub create_bulk_notifications :
      Settings → BulkNotificationRequest → String → Exec (World E) (Reply BulkNotificationResponse)
  unfolding answer_bulk
  create_bulk_notifications settings payload idempotency_key w =
      let (r, w') = create_bulk settings payload idempotency_key w in (answer_bulk r, w')

  unfoldable pub get_notification_route : ℕ → Exec (World E) (Reply NotificationItem)
  get_notification_route notification_id w =
      let (r, w') = get_notification notification_id w in (answer_item r, w')

  unfoldable pub list_subscriber_notifications :
      ℕ
      → Option NotificationStatus
      → Option NotificationChannel
      → (limit offset : ℕ) → Exec (World E) NotificationListResponse
  list_subscriber_notifications subscriber_id status channel limit offset =
      list_for_subscriber subscriber_id status (channel_text channel) limit offset
