-- ===== src/Services/Notifications/Queries.antt =====
-- app/services/notification_service.py: the reading methods of `NotificationService`, and the response
-- models of app/schemas/notifications.py that they return.
pub mod Items
pub mod Pages
pub mod Listing
use notification_test.Base.{
  ℕ, ◌==◌, ltb, leb, length, String, Bool, true, false, ◌&&◌, ◌||◌, Option, none, some, List, [],
  ◌∷◌, map, take, drop, str_eq, if◌then◌else◌,
}
use notification_test.Exec.{collect, Exec, Result, ok, err, value_error, ◌>>=◌, pure, gets}
use notification_test.Models.{
  Notification, NotificationChannel, sms, email, NotificationType, transactional, marketing,
  NotificationStatus, queued, sent, delivered, dropped, NotificationStatusHistory, IdempotencyKey,
}
use notification_test.Platform.{Env}
use notification_test.World.{World}

pub record StatusHistoryItem : Type 0 where
  pub status : NotificationStatus
  pub error_message : Option String
  pub created_at : ℕ

pub record NotificationItem : Type 0 where
  pub notification_id : ℕ
  pub batch_id : ℕ
  pub subscriber_id : ℕ
  pub channel : NotificationChannel
  pub type : NotificationType
  pub message : String
  pub current_status : NotificationStatus
  pub attempts : ℕ
  pub provider_message_id : Option String
  pub last_error : Option String
  pub created_at : ℕ
  pub updated_at : ℕ
  pub history : List StatusHistoryItem

pub record NotificationListResponse : Type 0 where
  pub subscriber_id : ℕ
  pub items : List NotificationItem
  pub limit : ℕ
  pub offset : ℕ

-- `NotificationChannel(text)` and `NotificationType(text)`, as the validation of an item applies them.
abbrev pub channel_of : String → Result NotificationChannel
channel_of s =
    if str_eq s "sms" then ok sms else if str_eq s "email" then ok email else err value_error

abbrev pub type_of : String → Result NotificationType
type_of s =
    if str_eq s "transactional"
    then ok transactional
    else if str_eq s "marketing"
    then ok marketing
    else err value_error

abbrev pub status_code : NotificationStatus → ℕ
status_code queued = 0
status_code sent = 1
status_code delivered = 2
status_code dropped = 3

-- A filter that is absent lets everything pass.
abbrev pub status_passes : Option NotificationStatus → Notification → Bool
status_passes none n = true
status_passes (some status) n = status_code n.status == status_code status

abbrev pub channel_passes : Option String → Notification → Bool
channel_passes none n = true
channel_passes (some channel) n = str_eq n.channel channel

-- The conditions of the statement of `list_for_subscriber`.
unfoldable pub listed : ℕ → Option NotificationStatus → Option String → Notification → Bool
listed subscriber_id status channel n =
    n.subscriber_id == subscriber_id && status_passes status n && channel_passes channel n

-- `order_by(created_at.desc(), id.desc())`
unfoldable pub newest_first : Notification → Notification → Bool
newest_first a b = ltb b.created_at a.created_at || (a.created_at == b.created_at && leb b.id a.id)

-- The order of `Notification.history`.
abbrev pub oldest_first : NotificationStatusHistory → NotificationStatusHistory → Bool
oldest_first a b = leb a.created_at b.created_at

abbrev pub history_item : NotificationStatusHistory → StatusHistoryItem
history_item h = record {
  status = h.status;
  error_message = h.error_message;
  created_at = h.created_at;
}

-- `NotificationItem(…)`, with the rows of the notification's history.
abbrev pub item_of :
    Notification
    → List NotificationStatusHistory
    → NotificationChannel
    → NotificationType
    → NotificationItem
item_of n rows channel type = record {
  notification_id = n.id;
  batch_id = n.batch_id;
  subscriber_id = n.subscriber_id;
  channel = channel;
  type = type;
  message = n.message;
  current_status = n.status;
  attempts = n.attempts;
  provider_message_id = n.provider_message_id;
  last_error = n.last_error;
  created_at = n.created_at;
  updated_at = n.updated_at;
  history = map history_item rows;
}

-- Its validation, which raises on a channel or a type that is not one of the enumeration's.
abbrev pub build_item :
    Notification
    → List NotificationStatusHistory
    → Result NotificationChannel
    → Result NotificationType
    → Result NotificationItem
build_item n rows (ok channel) (ok type) = ok (item_of n rows channel type)
build_item n rows (ok channel) (err e) = err e
build_item n rows (err e) type = err e

module _ {E : Env} where
  abbrev pub history_of : World E → Notification → List NotificationStatusHistory
  history_of w n =
      E.history.order_by oldest_first
        (E.history.select (λ h. h.notification_id == n.id) w.db.history)

  unfoldable pub to_item : World E → Notification → Result NotificationItem
  to_item w n = build_item n (history_of w n) (channel_of n.channel) (type_of n.type)

  -- The rows of the statement of `list_for_subscriber`, without its limit and offset, and with them.
  unfoldable pub rows_of :
      World E → ℕ → Option NotificationStatus → Option String → List Notification
  unfolding listed newest_first
  rows_of w subscriber_id status channel =
      E.notifications.order_by newest_first
        (E.notifications.select (listed subscriber_id status channel) w.db.notifications)

  unfoldable pub list_for_subscriber :
      ℕ
      → Option NotificationStatus
      → Option String
      → (limit offset : ℕ) → Exec (World E) NotificationListResponse
  unfolding rows_of to_item collect
  list_for_subscriber subscriber_id status channel limit offset w =
      let notifications = take limit (drop offset (rows_of w subscriber_id status channel)) in
      elim (collect (to_item w) notifications) [
        | err e ↦ (err e, w)
        | ok items ↦ (
          ok (record {
            subscriber_id = subscriber_id;
            items = items;
            limit = limit;
            offset = offset;
          }),
          w,
        )
      ]

  -- `scalar_one_or_none` on the rows with that primary key.
  unfoldable pub get_notification : ℕ → Exec (World E) (Option NotificationItem)
  unfolding to_item
  get_notification id w = elim (E.notifications.get id w.db.notifications) [
    | none ↦ (ok none, w)
    | some n ↦ elim (to_item w n) [ err e ↦ (err e, w) | ok item ↦ (ok (some item), w) ]
  ]

  unfoldable pub count_idempotency_records : Exec (World E) ℕ
  count_idempotency_records w = (ok (length (E.keys.select (λ k. true) w.db.keys)), w)
