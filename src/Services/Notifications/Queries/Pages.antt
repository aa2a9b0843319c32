-- ===== src/Services/Notifications/Queries/Pages.antt =====
-- app/services/notification_service.py: the rows of a page.
use notification_test.Base.{ℕ, ◌≡◌, inl, inr, String, Option, List, arith, take, drop}
use notification_test.Exec.{collect, Result-cases, ok}
use notification_test.Models.{Notification, NotificationStatus}
use notification_test.Platform.{Env}
use notification_test.World.{World}
use notification_test.Services.Notifications.Queries.{
  NotificationListResponse, to_item, rows_of, list_for_subscriber,
}

module _ {E : Env} (subscriber_id : ℕ) (status : Option NotificationStatus)
    (channel : Option String) (w : World E) where
  abbrev rows : List Notification
  rows = rows_of w subscriber_id status channel

  -- A page that is returned has the items of those rows.
  pub page_items :
      (limit offset : ℕ) (r : NotificationListResponse)
      → (list_for_subscriber subscriber_id status channel limit offset w).0 ≡ ok r
      → collect (to_item w) (take limit (drop offset rows)) ≡ ok r.items
  unfolding list_for_subscriber
  page_items limit offset r h =
      elim (Result-cases (collect (to_item w) (take limit (drop offset rows)))) [
        | inl (items, e) ↦ ground (arith, e, h)
        | inr (x, e) ↦ ground (arith, e, h)
      ]
