-- ===== src/Services/Notifications/Queries/Items.antt =====
-- app/services/notification_service.py: what `_to_item` shows of a notification, and
-- `get_notification`.
use notification_test.Base.{
  ℕ, String, ◌≡◌, ◌⊎◌, inl, inr, refl, sym, Option, none, some, List, [], ◌∷◌, map, arith, ◌==◌,
  ==_iff, leb, str_eq, eq_iff, Has, Sorted, Has-map, mapped_from, Bool-cases, Option-cases,
}
use mathlib.Core.Path.{subst}
use notification_test.Exec.{Result-cases, ok, err}
use notification_test.Models.{
  Notification, NotificationChannel, sms, email, NotificationType, transactional, marketing,
  NotificationStatusHistory, channel_value, type_value,
}
use notification_test.Platform.{Env}
use notification_test.World.{World}
use notification_test.Services.Notifications.Queries.{
  NotificationItem, StatusHistoryItem, channel_of, type_of, oldest_first, history_item, item_of,
  history_of, to_item, get_notification,
}

pub channel_of-channel_value : (c : NotificationChannel) → channel_of (channel_value c) ≡ ok c
channel_of-channel_value sms = refl
channel_of-channel_value email = refl

pub type_of-type_value : (t : NotificationType) → type_of (type_value t) ≡ ok t
type_of-type_value transactional = refl
type_of-type_value marketing = refl

channel_value_of :
    (s : String) (c : NotificationChannel) → channel_of s ≡ ok c → channel_value c ≡ s
channel_value_of s c h = elim (Bool-cases (str_eq s "sms")) [
  | inl e ↦ ground (arith, e, h, eq_iff s "sms")
  | inr other ↦ elim (Bool-cases (str_eq s "email")) [
    | inl e ↦ ground (arith, other, e, h, eq_iff s "email")
    | inr neither ↦ ground (arith, other, neither, h)
  ]
]

type_value_of : (s : String) (t : NotificationType) → type_of s ≡ ok t → type_value t ≡ s
type_value_of s t h = elim (Bool-cases (str_eq s "transactional")) [
  | inl e ↦ ground (arith, e, h, eq_iff s "transactional")
  | inr other ↦ elim (Bool-cases (str_eq s "marketing")) [
    | inl e ↦ ground (arith, other, e, h, eq_iff s "marketing")
    | inr neither ↦ ground (arith, other, neither, h)
  ]
]

-- The item shows the row `n`, and its history those rows of the history that belong to `n`, the
-- oldest first.
pub record Shows {E : Env} (w : World E) (n : Notification) (item : NotificationItem) : Type 0 where
  pub id : item.notification_id ≡ n.id
  pub batch : item.batch_id ≡ n.batch_id
  pub subscriber : item.subscriber_id ≡ n.subscriber_id
  pub channel : channel_value item.channel ≡ n.channel
  pub type : type_value item.type ≡ n.type
  pub message : item.message ≡ n.message
  pub status : item.current_status ≡ n.status
  pub attempts : item.attempts ≡ n.attempts
  pub provider_message : item.provider_message_id ≡ n.provider_message_id
  pub error : item.last_error ≡ n.last_error
  pub created : item.created_at ≡ n.created_at
  pub updated : item.updated_at ≡ n.updated_at
  pub history_sorted : Sorted (λ a b. leb a.created_at b.created_at) item.history
  pub history_sound :
      (i : StatusHistoryItem)
      → Has i item.history
      → (h : NotificationStatusHistory) × (E.history.get h.id w.db.history ≡ some h)
        × (h.notification_id ≡ n.id)
        × (i ≡ history_item h)
  pub history_complete :
      (h : NotificationStatusHistory)
      → E.history.get h.id w.db.history ≡ some h
      → h.notification_id ≡ n.id
      → Has (history_item h) item.history

module _ {E : Env} (w : World E) (n : Notification) where
  history-Sorted :
      (l : List NotificationStatusHistory)
      → Sorted oldest_first l
      → Sorted (λ a b. leb a.created_at b.created_at) (map history_item l)
  history-Sorted [] s = tt
  history-Sorted (x ∷ l) s = (
    λ y has.
        let (h, there, e) = mapped_from history_item l y has in
        let later = s.0 h there in ground (arith, later, e),
    history-Sorted l s.1,
  )

  history_sound :
      (i : StatusHistoryItem)
      → Has i (map history_item (history_of w n))
      → (h : NotificationStatusHistory) × (E.history.get h.id w.db.history ≡ some h)
        × (h.notification_id ≡ n.id)
        × (i ≡ history_item h)
  history_sound i has =
      let (h, there, e) = mapped_from history_item (history_of w n) i has in
      let picked = E.history.order_by_sound oldest_first _ h there in
      let (own, stored) =
        E.history.select_sound (λ r. r.notification_id == n.id) w.db.history h picked in
      (h, stored, (==_iff h.notification_id n.id).0 own, sym e)

  history_complete :
      (h : NotificationStatusHistory)
      → E.history.get h.id w.db.history ≡ some h
      → h.notification_id ≡ n.id
      → Has (history_item h) (map history_item (history_of w n))
  history_complete h stored own = Has-map history_item (history_of w n) h (
      E.history.order_by_complete oldest_first _ h (
        E.history.select_complete (λ r. r.notification_id == n.id) w.db.history h.id h stored
          ((==_iff h.notification_id n.id).1 own)))

  ordered : Sorted (λ a b. leb a.created_at b.created_at) (map history_item (history_of w n))
  ordered =
      history-Sorted (history_of w n) (
        E.history.order_by_sorted oldest_first _ (λ a b h. ground arith)
          (λ a b c h k. ground arith))

  shown :
      (c : NotificationChannel) (t : NotificationType)
      → channel_value c ≡ n.channel
      → type_value t ≡ n.type
      → Shows w n (item_of n (history_of w n) c t)
  shown c t cv tv = record {
    id = refl;
    batch = refl;
    subscriber = refl;
    channel = cv;
    type = tv;
    message = refl;
    status = refl;
    attempts = refl;
    provider_message = refl;
    error = refl;
    created = refl;
    updated = refl;
    history_sorted = ordered;
    history_sound = history_sound;
    history_complete = history_complete;
  }

  pub to_item-Shows : (item : NotificationItem) → to_item w n ≡ ok item → Shows w n item
  unfolding to_item
  to_item-Shows item built =
      go (Result-cases (channel_of n.channel)) (Result-cases (type_of n.type))
    where
      go :
          ((c : NotificationChannel) × (channel_of n.channel ≡ ok c))
            ⊎ ((x : _) × (channel_of n.channel ≡ err x))
          → ((t : NotificationType) × (type_of n.type ≡ ok t))
            ⊎ ((x : _) × (type_of n.type ≡ err x))
          → Shows w n item
      go (inl (c, ec)) (inl (t, et)) =
          let cv = channel_value_of n.channel c ec in
          let tv = type_value_of n.type t et in
          let same : item_of n (history_of w n) c t ≡ item = ground (arith, ec, et, built) in
          subst (Shows w n) same (shown c t cv tv)
      go (inl (c, ec)) (inr (x, et)) = ground (arith, ec, et, built)
      go (inr (x, ec)) t = ground (arith, ec, built)

module _ {E : Env} (w : World E) (id : ℕ) where
  -- `get_notification` returns nothing if and only if there is no such notification. What it returns
  -- shows the row with that id, with the whole history of the notification, the oldest entry first.
  pub get_notification-Shows :
      (answer : Option NotificationItem)
      → (get_notification id w).0 ≡ ok answer
      → ((answer ≡ none) × (E.notifications.get id w.db.notifications ≡ none))
        ⊎ ((n : Notification) × (item : NotificationItem) × (answer ≡ some item)
            × (E.notifications.get id w.db.notifications ≡ some n)
            × Shows w n item)
  unfolding get_notification
  get_notification-Shows answer h =
      elim (Option-cases (E.notifications.get id w.db.notifications)) [
        | inl missing ↦ inl (ground (arith, missing, h), missing)
        | inr (n, found) ↦ elim (Result-cases (to_item w n)) [
          | inl (item, built) ↦
              inr (n, item, ground (arith, found, built, h), found, to_item-Shows w n item built)
          | inr (x, raised) ↦ ground (arith, found, raised, h)
        ]
      ]
