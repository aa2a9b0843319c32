-- ===== src/Services/Notifications/Creation.antt =====
-- A request that is accepted: what it adds, and that a request which fails adds nothing.
use notification_test.Base.{
  ℕ, suc, ◌≡◌, inl, inr, refl, Bool, false, some, List, [], ◌∷◌, arith, ◌==◌, ==_iff, Has,
  Bool-cases,
}
use notification_test.Exec.{ok, >>=_ok}
use notification_test.Models.{
  Notification, queued, BulkNotificationRequest, channel_value, type_value,
}
use notification_test.Platform.{Env}
use notification_test.World.{World, put_notification}
use notification_test.Services.BulkRows.{notification_conflict, queued_row}
use notification_test.Services.Notifications.{
  insert_notification, add_recipient, add_recipients, add_created_event,
}

-- A notification of the batch, waiting to be sent to the recipient.
pub record IsQueued (request : BulkNotificationRequest) (batch_id recipient_id : ℕ)
    (n : Notification) : Type 0 where
  pub batch : n.batch_id ≡ batch_id
  pub subscriber : n.subscriber_id ≡ recipient_id
  pub channel : n.channel ≡ channel_value request.channel
  pub type : n.type ≡ type_value request.type
  pub message : n.message ≡ request.message
  pub status : n.status ≡ queued
  pub attempts : n.attempts ≡ 0

module _ (E : Env) where
  open E.notifications use {get, select, select_complete}

  -- What an empty result says of the rows.
  pub none_selected :
      (p : Notification → Bool) (s : E.notifications.State) (j : ℕ) (m : Notification)
      → select p s ≡ []
      → get j s ≡ some m
      → p m ≡ false
  none_selected p s j m empty found = elim (Bool-cases (p m)) [
    | inl met ↦
        let here : Has m (select p s) = select_complete p s j m found met in
        absurd (rw empty at here)
    | inr unmet ↦ unmet
  ]

module _ {E : Env} where
  open E.notifications use {get, put, select, get-put}

  -- The table holds a queued notification for the recipient.
  abbrev pub Queued : BulkNotificationRequest → ℕ → ℕ → World E → Type 0
  Queued request batch_id recipient_id w =
      (n : Notification) × IsQueued request batch_id recipient_id n
      × (get n.id w.db.notifications ≡ some n)

  -- Every row of the first state is in the second, unchanged.
  abbrev pub Extends : World E → World E → Type 0
  Extends w w' =
      (j : ℕ) (n : Notification)
      → get j w.db.notifications ≡ some n
      → get j w'.db.notifications ≡ some n

  no_conflict :
      (n : Notification) (w : World E)
      → (insert_notification n w).0 ≡ ok tt
      → select (notification_conflict n) w.db.notifications ≡ []
  unfolding insert_notification
  no_conflict n w h = ground arith

  pub insert_notification_ok :
      (n : Notification) (w : World E)
      → (insert_notification n w).0 ≡ ok tt
      → (insert_notification n w).1 ≡ put_notification n w
  unfolding insert_notification
  insert_notification_ok n w h = ground arith

  insert_notification-Extends :
      (n : Notification) (w : World E)
      → (insert_notification n w).0 ≡ ok tt
      → Extends w (insert_notification n w).1
  insert_notification-Extends n w h j m found =
      rw (insert_notification_ok n w h) (rw (get-put j n w.db.notifications, apart) found)
    where
      apart : (n.id == j) ≡ false
      apart =
          let met : notification_conflict n m ≡ false =
            none_selected E (notification_conflict n) w.db.notifications j m (no_conflict n w h)
              found in
          let key : m.id ≡ j = E.notifications.get_key j m w.db.notifications found in ground arith

  pub insert_notification-get :
      (n : Notification) (w : World E)
      → (insert_notification n w).0 ≡ ok tt
      → get n.id (insert_notification n w).1.db.notifications ≡ some n
  insert_notification-get n w h =
      rw (insert_notification_ok n w h)
        (rw (get-put n.id n w.db.notifications, (==_iff n.id n.id).1 refl))

  module _ (request : BulkNotificationRequest) (batch_id : ℕ) where
    -- The row that is inserted, and the state that it is inserted into.
    abbrev pub row_of : ℕ → World E → Notification
    row_of r w = queued_row request batch_id r (E.uuid4 w.draws) (E.clock w.reads)

    abbrev pub before_insert : ℕ → World E → World E
    before_insert r w =
        (add_created_event request batch_id r (E.uuid4 w.draws)
          (record w { draws = suc w.draws; reads = suc w.reads })).1

    notifications-before_insert :
        (r : ℕ) (w : World E) → (before_insert r w).db.notifications ≡ w.db.notifications
    unfolding add_created_event
    notifications-before_insert r w = refl

    -- A recipient is added exactly when its row is inserted, and then the table has that row more.
    pub add_recipient_ok :
        (r : ℕ) (w : World E)
        → (add_recipient request batch_id r w).0 ≡ ok tt
        → ((insert_notification (row_of r w) (before_insert r w)).0 ≡ ok tt)
          × ((add_recipient request batch_id r w).1.db.notifications
              ≡ (insert_notification (row_of r w) (before_insert r w)).1.db.notifications)
    unfolding add_recipient
    add_recipient_ok r w h = ground arith

    pub add_recipient-Queued :
        (r : ℕ) (w : World E)
        → (add_recipient request batch_id r w).0 ≡ ok tt
        → Queued request batch_id r (add_recipient request batch_id r w).1
    add_recipient-Queued r w h =
        let (inserted, same) = add_recipient_ok r w h in
        (
          row_of r w,
          ground arith,
          rw same (insert_notification-get (row_of r w) (before_insert r w) inserted),
        )

    pub add_recipient-Extends :
        (r : ℕ) (w : World E)
        → (add_recipient request batch_id r w).0 ≡ ok tt
        → Extends w (add_recipient request batch_id r w).1
    add_recipient-Extends r w h j m found =
        let (inserted, same) = add_recipient_ok r w h in
        rw same (
          insert_notification-Extends (row_of r w) (before_insert r w) inserted j m
            (rw notifications-before_insert found))

    -- When the loop ends, every recipient of the list has a queued notification in the batch, and
    -- the rows that were there are unchanged.
    pub add_recipients_ok :
        (rs : List ℕ) (w : World E)
        → (add_recipients request batch_id rs w).0 ≡ ok tt
        → Extends w (add_recipients request batch_id rs w).1
          × ((r : ℕ)
              → Has r rs
              → Queued request batch_id r (add_recipients request batch_id rs w).1)
    unfolding add_recipients
    add_recipients_ok [] w h = (λ j m found. found, λ r m. absurd m)
    add_recipients_ok (x ∷ rs) w h =
        let w₁ = (add_recipient request batch_id x w).1 in
        let (_, added, rest) =
          >>=_ok (add_recipient request batch_id x) (λ _. add_recipients request batch_id rs) w h in
        let (kept, queued_rest) = add_recipients_ok rs w₁ (rw rest at h) in
        let (n, is, stored) = add_recipient-Queued x w added in
        rw rest (
          λ j m found. kept j m (add_recipient-Extends x w added j m found),
          λ r has. elim has [
            | inl e ↦ rw (← e) (n, is, kept n.id n stored)
            | inr later ↦ queued_rest r later
          ],
        )
