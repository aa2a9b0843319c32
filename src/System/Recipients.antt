-- ===== src/System/Recipients.antt =====
-- What the work on one recipient adds to the outbox: each new notification comes with an event.
use notification_test.Base.{
  ◌≤◌, ℕ, ◌+◌, ◌<◌, ◌≡◌, ◌⊎◌, inl, inr, refl, ap, some, arith, ◌==◌, ==_iff, Bool-cases,
}
use notification_test.Exec.{Result-cases, Error, err}
use notification_test.Models.{Notification, BulkNotificationRequest}
use notification_test.Platform.{Env}
use notification_test.World.{World}
use notification_test.Services.OutboxService.{routing_key_for_notification_type}
use notification_test.Services.Notifications.{insert_notification, add_created_event, add_recipient}
use notification_test.Services.Notifications.Creation.{row_of, add_recipient-Extends}
use notification_test.Services.Notifications.Announcements.{event_of, announcement}
use notification_test.System.Growth.{Grows, event-Grows}
use notification_test.System.Workers.{routing_known}

module _ {E : Env} (request : BulkNotificationRequest) where
  -- What a recipient costs and adds, also when the insert of its row is refused.
  pub add_recipient_lem :
      (b r : ℕ) (w : World E)
      → let w' = (add_recipient request b r w).1 in
        (w.draws + 2 < w'.draws)
        × (w.reads ≤ w'.reads)
        × (w'.db.outbox ≡ E.outbox.put (event_of request b r w) w.db.outbox)
        × ((w'.db.notifications ≡ w.db.notifications)
            ⊎ (w'.db.notifications ≡ E.notifications.put (row_of request b r w) w.db.notifications))
  unfolding add_recipient add_created_event insert_notification
  add_recipient_lem b r w = ground arith

  refused :
      (b r : ℕ) (w : World E) (x : Error)
      → (add_recipient request b r w).0 ≡ err x
      → (add_recipient request b r w).1.db.notifications ≡ w.db.notifications
  unfolding add_recipient add_created_event insert_notification
  refused b r w x h = ground arith

  pub add_recipient_kept :
      (b r : ℕ) (w : World E) (j : ℕ) (n : Notification)
      → E.notifications.get j w.db.notifications ≡ some n
      → E.notifications.get j (add_recipient request b r w).1.db.notifications ≡ some n
  add_recipient_kept b r w j n found = elim (Result-cases (add_recipient request b r w).0) [
    | inl (tt, e) ↦ add_recipient-Extends request b r w e j n found
    | inr (x, e) ↦ rw (refused b r w x e) found
  ]

module _ {E : Env} (unique : (i j : ℕ) → E.uuid4 i ≡ E.uuid4 j → i ≡ j)
    (request : BulkNotificationRequest) where
  pub add_recipient-Grows : (b r : ℕ) (w : World E) → Grows w (add_recipient request b r w).1
  add_recipient-Grows b r w =
      let e = event_of request b r w in
      let n = row_of request b r w in
      let w' = (add_recipient request b r w).1 in
      let is = announcement request b r w in
      let (more, later, put, rows) = add_recipient_lem request b r w in
      event-Grows unique w w' (w.draws + 2) e (omega arith) more later (ap E.uuid4 (omega arith))
        put
        (λ _. record {
          named = is.named;
          key = routing_key_for_notification_type n.type;
          routing = is.routing;
          known = routing_known n.type;
        })
        (λ j (n', found, going). elim rows [
          | inl same ↦ inl (n', rw same at found, going)
          | inr added ↦ elim (Bool-cases (n.id == j)) [
            | inl here ↦ inr (record {
              event = e;
              stored = ground (arith, put, E.outbox.get-put e.id e w.db.outbox, ==_iff e.id e.id);
              own = (==_iff n.id j).0 here;
              notice = refl;
              open_ = refl;
            })
            | inr away ↦ inl (
              n',
              ground (arith, found, added, E.notifications.get-put j n w.db.notifications, away),
              going,
            )
          ]
        ])
        (λ j (n', found, tried). (n', add_recipient_kept request b r w j n' found, tried))
