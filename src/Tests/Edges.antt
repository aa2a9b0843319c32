-- ===== src/Tests/Edges.antt =====
-- The theorems on the routes, the mock providers and the settings, and those that relate a bulk request
-- to the queries and to the outbox.
use notification_test.Base.{
  ℕ, suc, List, ◌-◌, ◌≡◌, refl, ap, inl, inr, Bool-cases, true, false, some, [], ◌∷◌, arith, str_eq,
  eq_iff,
}
use notification_test.Exec.{ok}
use notification_test.Api.{is_valid_request, create_bulk_notifications}
use notification_test.Api.Bulk.{Ends, create_bulk_notifications-Ends}
use notification_test.Config.Backoff.{
  Texts, ShowAll, no_items, item, parse_backoff, parse_backoff-join,
}
use notification_test.Providers.Mock.{Chance, new_provider, send}
use notification_test.Providers.Mock.Once.{Sending, Answers, send_all, send_once_lem}
use notification_test.Services.Notifications.{create_bulk}
use notification_test.Services.Notifications.Announcements.{Announced}
use notification_test.Services.Notifications.Announced.{create_bulk-Announced}
use notification_test.Services.Notifications.Queries.{NotificationItem, get_notification}
use notification_test.Services.Notifications.Visible.{IsWaiting, create_bulk-IsWaiting}
use notification_test.Tests.Requests.{request, response, accepted_lem}
use notification_test.Tests.Sample.{sample, settings, empty, tally, untally, untally-tally}

create_bulk-Announced_example :
    Announced sample request 101 5 (create_bulk settings request "key" empty).1.db
create_bulk-Announced_example =
    create_bulk-Announced settings request "key" (λ i j e. omega (arith, e)) empty response
      accepted_lem refl 5 (inl refl)

create_bulk-IsWaiting_example :
    (id : ℕ) × (item : NotificationItem) × ((get_notification id
        (create_bulk settings request "key" empty).1).0
      ≡ ok (some item))
    × (item.notification_id ≡ id)
    × IsWaiting request 101 5 item
create_bulk-IsWaiting_example =
    create_bulk-IsWaiting settings request "key" empty response accepted_lem refl 5 (inl refl)

valid_lem : is_valid_request request ≡ true
unfolding is_valid_request
valid_lem = refl

create_bulk_notifications-Ends_example :
    Ends settings request "key" empty
      (create_bulk_notifications settings request "key" empty).0
      (create_bulk_notifications settings request "key" empty).1
create_bulk_notifications-Ends_example =
    create_bulk_notifications-Ends settings request "key" empty valid_lem

abbrev chance : Chance
chance = record { uuid4 = λ prefix n. tally n; is_low = λ prefix n. true; concat = λ a b. a }

abbrev calls : List Sending
calls = (5, "hello", "a") ∷ (6, "hello", "b") ∷ []

send_once_lem_example :
    Answers true
      (send chance 5 "hello" "a"
        (send_all chance calls (new_provider "sms" "temporary_error_once"))).0
send_once_lem_example = send_once_lem chance "sms" calls 5 "hello" "a"

visible : (n : ℕ) → str_eq (tally (suc n)) "" ≡ false
visible n = elim (Bool-cases (str_eq (tally (suc n)) "")) [
  | inl same ↦
      let blank : tally (suc n) ≡ "" = (eq_iff (tally (suc n)) "").0 same in
      let none_ : untally (tally (suc n)) ≡ 0 = ap untally blank in ground (arith, none_)
  | inr other ↦ other
]

int_of_tally : (n : ℕ) → ok (untally (tally (suc n)) - 1) ≡ ok n
int_of_tally n = ground (arith, untally-tally n)

-- Numbers as tallies with one stroke more.
abbrev tallies : Texts
tallies = record {
  strip = λ s. s;
  int = λ s. ok (untally s - 1);
  str = λ n. tally (suc n);
  int-str = int_of_tally;
  str_visible = visible;
}

two_shown : ShowAll tallies ("II" ∷ "IIII" ∷ []) (1 ∷ 3 ∷ [])
two_shown =
    item {x = "II"} {n = 1} (record { free = refl; stripped = refl })
      (item {x = "IIII"} {n = 3} (record { free = refl; stripped = refl }) no_items)

parse_backoff-join_example : parse_backoff tallies "II,IIII" ≡ ok (1 ∷ 3 ∷ [])
parse_backoff-join_example = parse_backoff-join tallies "II" ("IIII" ∷ []) (1 ∷ 3 ∷ []) two_shown
