-- ===== src/Services/Notifications/Queries/Listing.antt =====
-- app/services/notification_service.py: what a page of `list_for_subscriber` has.
use notification_test.Base.{
  ℕ, ◌≤◌, ◌≡◌, ◌⊎◌, Has-cut, inl, inr, ◌==◌, ltb, leb, ◌&&◌, ◌||◌, Bool, true, false, String,
  Option, some, List, arith, take, drop, length, Has, Distinct, Sorted, Has-take, Has-drop,
  Distinct-take, Distinct-drop, Sorted-take, Sorted-drop, length-take-le,
}
use notification_test.Exec.{ok}
use notification_test.Models.{Notification, NotificationStatus}
use notification_test.Platform.{Env}
use notification_test.World.{World}
use notification_test.Services.Notifications.Queries.{
  NotificationItem, NotificationListResponse, listed, newest_first, to_item, rows_of,
  list_for_subscriber,
}
use notification_test.Services.Notifications.Queries.Items.{Shows, to_item-Shows}
use notification_test.Exec.Comprehensions.{
  length-collect, collect_sound, collect_complete, collect-Sorted, collect-Distinct,
}
use notification_test.Services.Notifications.Queries.Pages.{page_items}

-- The order of a page and the identity of its items.
abbrev pub newer : NotificationItem → NotificationItem → Bool
newer a b =
    ltb b.created_at a.created_at
    || (a.created_at == b.created_at && leb b.notification_id a.notification_id)

abbrev pub same_item : NotificationItem → NotificationItem → Bool
same_item a b = a.notification_id == b.notification_id

newest_first_total : (a b : Notification) → newest_first a b ≡ false → newest_first b a ≡ true
unfolding newest_first
newest_first_total a b h = ground arith

newest_first_trans :
    (a b c : Notification)
    → newest_first a b ≡ true
    → newest_first b c ≡ true
    → newest_first a c ≡ true
unfolding newest_first
newest_first_trans a b c h k = ground arith

module _ {E : Env} (w : World E) where
  transfer_newer :
      (b : Bool) (x x' : Notification) (y y' : NotificationItem)
      → to_item w x ≡ ok y
      → to_item w x' ≡ ok y'
      → newest_first x x' ≡ b
      → newer y y' ≡ b
  unfolding newest_first
  transfer_newer b x x' y y' e e' h =
      let s = to_item-Shows w x y e in
      let s' = to_item-Shows w x' y' e' in rw (s.id, s'.id) (rw (s.created, s'.created) h)

  transfer_same :
      (b : Bool) (x x' : Notification) (y y' : NotificationItem)
      → to_item w x ≡ ok y
      → to_item w x' ≡ ok y'
      → (x.id == x'.id) ≡ b
      → same_item y y' ≡ b
  transfer_same b x x' y y' e e' h =
      let s = to_item-Shows w x y e in let s' = to_item-Shows w x' y' e' in rw (s.id, s'.id) h

-- The items of a page: no notification twice, the newest first, no more than the limit, and each
-- shows a notification of the subscriber that passes the filters; and each such notification is among
-- the `offset` rows before the page, or after it, or on it.
pub record Page {E : Env} (subscriber_id : ℕ) (status : Option NotificationStatus)
    (channel : Option String) (limit offset : ℕ) (w : World E) (items : List NotificationItem)
    : Type 0 where
  pub bounded : length items ≤ limit
  pub sorted : Sorted newer items
  pub distinct : Distinct same_item items
  pub sound :
      (item : NotificationItem)
      → Has item items
      → (n : Notification) × (E.notifications.get n.id w.db.notifications ≡ some n)
        × (listed subscriber_id status channel n ≡ true)
        × Shows w n item
  pub complete :
      (n : Notification)
      → E.notifications.get n.id w.db.notifications ≡ some n
      → listed subscriber_id status channel n ≡ true
      → Has n (take offset (rows_of w subscriber_id status channel))
        ⊎ (Has n (drop limit (drop offset (rows_of w subscriber_id status channel)))
            ⊎ ((item : NotificationItem) × Has item items × Shows w n item))

module _ {E : Env} (subscriber_id : ℕ) (status : Option NotificationStatus)
    (channel : Option String) (w : World E) where
  abbrev rows : List Notification
  rows = rows_of w subscriber_id status channel

  rows_sound :
      (n : Notification)
      → Has n rows
      → (listed subscriber_id status channel n ≡ true)
        × (E.notifications.get n.id w.db.notifications ≡ some n)
  unfolding rows_of
  rows_sound n has =
      E.notifications.select_sound (listed subscriber_id status channel) w.db.notifications n
        (E.notifications.order_by_sound newest_first _ n has)

  rows_complete :
      (n : Notification)
      → E.notifications.get n.id w.db.notifications ≡ some n
      → listed subscriber_id status channel n ≡ true
      → Has n rows
  unfolding rows_of
  rows_complete n stored passes = E.notifications.order_by_complete newest_first _ n (
      E.notifications.select_complete (listed subscriber_id status channel) w.db.notifications n.id
        n stored passes)

  rows-Distinct : Distinct (λ a b. a.id == b.id) rows
  unfolding rows_of
  rows-Distinct =
      E.notifications.order_by_distinct newest_first _
        (E.notifications.select_distinct (listed subscriber_id status channel) w.db.notifications)

  rows-Sorted : Sorted newest_first rows
  unfolding rows_of
  rows-Sorted = E.notifications.order_by_sorted newest_first _ newest_first_total newest_first_trans

  -- A page that `list_for_subscriber` returns has no notification twice, the newest first, no more
  -- items than the limit, and each shows a notification of the subscriber that passes the filters,
  -- with its history. Each such notification comes before the page, after it, or is on it.
  pub list_for_subscriber-Page :
      (limit offset : ℕ) (r : NotificationListResponse)
      → (list_for_subscriber subscriber_id status channel limit offset w).0 ≡ ok r
      → Page subscriber_id status channel limit offset w r.items
  list_for_subscriber-Page limit offset r h =
      let shown = take limit (drop offset rows) in
      let e = page_items subscriber_id status channel w limit offset r h in
      record {
        bounded =
            rw (length-collect (to_item w) shown r.items e)
              (length-take-le limit (drop offset rows));
        sorted =
            collect-Sorted (to_item w) newest_first newer (transfer_newer w) shown r.items e
              (Sorted-take newest_first limit _ (Sorted-drop newest_first offset rows rows-Sorted));
        distinct =
            collect-Distinct (to_item w) (λ a b. a.id == b.id) same_item (transfer_same w) shown
              r.items e
              (Distinct-take (λ a b. a.id == b.id) limit _
                (Distinct-drop (λ a b. a.id == b.id) offset rows rows-Distinct));
        sound = λ item has.
            let (n, there, built) = collect_sound (to_item w) shown r.items item e has in
            let (passes, stored) =
              rows_sound n (Has-drop offset rows n (Has-take limit (drop offset rows) n there)) in
            (n, stored, passes, to_item-Shows w n item built);
        complete = λ n stored passes. elim (Has-cut offset rows n (rows_complete n stored passes)) [
          | inl before ↦ inl before
          | inr rest ↦ elim (Has-cut limit (drop offset rows) n rest) [
            | inl here ↦
                let (item, there, built) = collect_complete (to_item w) shown r.items n e here in
                inr (inr (item, there, to_item-Shows w n item built))
            | inr after ↦ inr (inl after)
          ]
        ];
      }
