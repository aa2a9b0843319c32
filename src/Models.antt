-- ===== src/Models.antt =====
-- app/db/models.py: the enumerations and the rows of the five tables. A UUID and a time are
-- numbers, a time in microseconds. A column that only ever holds the value of an enumeration has
-- that enumeration for its type; `channel` and `type` are compared as texts and stay texts.
use notification_test.Base.{ℕ, String, Bool, true, false, Option, List}

pub data NotificationChannel : Type 0 where
  sms email : NotificationChannel

pub data NotificationType : Type 0 where
  transactional marketing : NotificationType

pub data NotificationStatus : Type 0 where
  queued sent delivered dropped : NotificationStatus

pub data ProviderErrorType : Type 0 where
  temporary permanent : ProviderErrorType

pub data OutboxStatus : Type 0 where
  pending processing published failed : OutboxStatus

abbrev pub channel_value : NotificationChannel → String
channel_value sms = "sms"
channel_value email = "email"

abbrev pub type_value : NotificationType → String
type_value transactional = "transactional"
type_value marketing = "marketing"

-- A value in a JSON object of the program. It builds none but these; a value of another kind that
-- a broker message may hold is only copied.
pub data Json : Type 0 where
  null : Json
  text : String → Json
  number : ℕ → Json

-- A Python dict, in insertion order.
abbrev pub Payload : Type 0
Payload = List (String × Json)

pub record NotificationBatch : Type 0 where
  pub id : ℕ
  pub channel : String
  pub type : String
  pub message : String
  pub idempotency_key : Option String
  pub request_hash : Option String
  pub created_at : ℕ
  pub updated_at : ℕ

pub record Notification : Type 0 where
  pub id : ℕ
  pub batch_id : ℕ
  pub subscriber_id : ℕ
  pub channel : String
  pub type : String
  pub message : String
  pub status : NotificationStatus
  pub attempts : ℕ
  pub provider_message_id : Option String
  pub last_error : Option String
  pub processing_lock_until : Option ℕ
  pub created_at : ℕ
  pub updated_at : ℕ

pub record NotificationStatusHistory : Type 0 where
  pub id : ℕ
  pub notification_id : ℕ
  pub status : NotificationStatus
  pub error_message : Option String
  pub created_at : ℕ

pub record IdempotencyKey : Type 0 where
  pub key : String
  pub request_hash : String
  pub batch_id : Option ℕ
  pub response_payload : Option Payload
  pub created_at : ℕ
  pub expires_at : ℕ

pub record OutboxEvent : Type 0 where
  pub id : ℕ
  pub aggregate_type : String
  pub aggregate_id : ℕ
  pub event_type : String
  pub payload : Payload
  pub status : OutboxStatus
  pub attempts : ℕ
  pub last_error : Option String
  pub created_at : ℕ
  pub available_at : Option ℕ
  pub locked_at : Option ℕ
  pub published_at : Option ℕ

-- `status in {delivered, dropped}`
abbrev pub is_final_status : NotificationStatus → Bool
is_final_status delivered = true
is_final_status dropped = true
is_final_status _ = false

-- app/schemas/notifications.py: the body of a bulk request and its response. A recipient's number
-- is only compared and stored.
pub record BulkNotificationRequest : Type 0 where
  pub channel : NotificationChannel
  pub type : NotificationType
  pub message : String
  pub recipient_ids : List ℕ

pub record BulkNotificationResponse : Type 0 where
  pub batch_id : ℕ
  pub status : String
  pub notifications_created : ℕ
