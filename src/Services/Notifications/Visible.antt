-- ===== src/Services/Notifications/Visible.antt =====
-- What a client reads back of a request that was accepted.
use notification_test.Base.{ℕ, ◌≡◌, refl, String, some, List, arith, Has}
use notification_test.Exec.{ok}
use notification_test.Models.{
  Notification, NotificationStatusHistory, queued, BulkNotificationRequest,
  BulkNotificationResponse,
}
use notification_test.Platform.{Env}
use notification_test.Config.{Settings}
use notification_test.World.{World}
use notification_test.Services.Notifications.{create_bulk}
use notification_test.Services.Notifications.Creation.{IsQueued}
use notification_test.Services.Notifications.Acceptance.{create_bulk-Accepted}
use notification_test.Services.Notifications.Queries.{
  NotificationItem, channel_of, type_of, item_of, build_item, history_of, to_item, get_notification,
}
use notification_test.Services.Notifications.Queries.Items.{
  channel_of-channel_value, type_of-type_value,
}

-- The item is that of a recipient of the request, before any attempt.
pub record IsWaiting (request : BulkNotificationRequest) (batch_id recipient_id : ℕ)
    (item : NotificationItem) : Type 0 where
  pub batch : item.batch_id ≡ batch_id
  pub subscriber : item.subscriber_id ≡ recipient_id
  pub channel : item.channel ≡ request.channel
  pub type : item.type ≡ request.type
  pub message : item.message ≡ request.message
  pub status : item.current_status ≡ queued
  pub attempts : item.attempts ≡ 0

module _ {E : Env} (request : BulkNotificationRequest) (batch_id i : ℕ) (w : World E)
    (n : Notification) (is : IsQueued request batch_id i n) where
  shown_item :
      (history : List NotificationStatusHistory)
      → build_item n history (channel_of n.channel) (type_of n.type)
        ≡ ok (item_of n history request.channel request.type)
  shown_item history =
      rw (is.channel, is.type)
        (rw (channel_of-channel_value request.channel, type_of-type_value request.type) refl)

  queued_item : to_item w n ≡ ok (item_of n (history_of w n) request.channel request.type)
  unfolding to_item
  queued_item = shown_item (history_of w n)

  waiting : IsWaiting request batch_id i (item_of n (history_of w n) request.channel request.type)
  waiting = record {
    batch = is.batch;
    subscriber = is.subscriber;
    channel = refl;
    type = refl;
    message = is.message;
    status = is.status;
    attempts = is.attempts;
  }

  found_item :
      E.notifications.get n.id w.db.notifications ≡ some n
      → (get_notification n.id w).0
        ≡ ok (some (item_of n (history_of w n) request.channel request.type))
  unfolding get_notification
  found_item stored = ground (arith, stored, queued_item)

-- If `create_bulk` answers "accepted", then for every recipient of the request there is an id under
-- which `get_notification` returns a notification of the new batch to that recipient, with the
-- request's channel, type and message, queued and not yet attempted.
pub create_bulk-IsWaiting :
    {E : Env} (settings : Settings) (request : BulkNotificationRequest) (key : String) (w : World E)
    (response : BulkNotificationResponse)
    → (create_bulk settings request key w).0 ≡ ok response
    → response.status ≡ "accepted"
    → (i : ℕ) → Has i request.recipient_ids
    → (id : ℕ) × (item : NotificationItem) × ((get_notification id
          (create_bulk settings request key w).1).0
        ≡ ok (some item))
      × (item.notification_id ≡ id)
      × IsWaiting request response.batch_id i item
create_bulk-IsWaiting settings request key w response h s i has =
    let after = (create_bulk settings request key w).1 in
    let (n, is, stored) = (create_bulk-Accepted settings request key w response h s).all i has in
    (
      n.id,
      _,
      found_item request response.batch_id i after n is stored,
      refl,
      waiting request response.batch_id i after n is,
    )
