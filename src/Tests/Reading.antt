-- ===== src/Tests/Reading.antt =====
-- The theorems on the queries, on the sample platform.
use notification_test.Base.{◌≡◌, refl, none, [], ◌∷◌}
use notification_test.Exec.{ok}
use notification_test.Models.{Notification}
use notification_test.World.{World}
use notification_test.Services.Notifications.Queries.{
  NotificationListResponse, item_of, list_for_subscriber,
}
use notification_test.Services.Notifications.Queries.Listing.{Page, list_for_subscriber-Page}
use notification_test.Models.{sms, transactional}
use notification_test.Tests.Sample.{sample, waiting_row, empty}

abbrev newer_row : Notification
newer_row = record waiting_row { id = 2; batch_id = 8; created_at = 7 }

abbrev two_rows : World sample
two_rows = record empty { db = record empty.db { notifications = waiting_row ∷ newer_row ∷ [] } }

abbrev both : NotificationListResponse
both = record {
  subscriber_id = 5;
  items = item_of newer_row [] sms transactional ∷ item_of waiting_row [] sms transactional ∷ [];
  limit = 2;
  offset = 0;
}

both_lem : (list_for_subscriber 5 none none 2 0 two_rows).0 ≡ ok both
unfolding list_for_subscriber
both_lem = refl

list_for_subscriber-Page_example : Page 5 none none 2 0 two_rows both.items
list_for_subscriber-Page_example = list_for_subscriber-Page 5 none none two_rows 2 0 both both_lem
