-- ===== src/Services/Notifications/Announcements.antt =====
-- app/services/notification_service.py: the event that `create_bulk` writes for a recipient.
use notification_test.Base.{
  ℕ, suc, ◌+◌, ◌<◌, ◌≡◌, Bool-cases, inl, inr, refl, ◌∙◌, none, some, List, [], ◌∷◌, arith, Has,
  false, ◌==◌, ==_iff,
}
use notification_test.Exec.{ok, >>=_ok}
use notification_test.Models.{
  Notification, OutboxEvent, pending, channel_value, text, Payload, BulkNotificationRequest,
  type_value,
}
use notification_test.Platform.{Env}
use notification_test.World.{Db, World}
use notification_test.Services.OutboxService.{
  dict_get, notification_payload, routing_key_for_notification_type,
}
use notification_test.Worker.Processor.{notification_id}
use notification_test.Services.Notifications.{add_created_event, add_recipient, add_recipients}
use notification_test.Services.Notifications.Creation.{
  IsQueued, row_of, before_insert, insert_notification_ok, insert_notification-get,
  add_recipient_ok, add_recipients_ok,
}

-- The event of the new notification: it waits to be published, names the notification in the way that
-- the worker reads, and carries the routing key of the notification's type.
pub record IsAnnouncement (E : Env) (n : Notification) (e : OutboxEvent) : Type 0 where
  pub aggregate : e.aggregate_id ≡ n.id
  pub type : e.event_type ≡ "notification.created"
  pub status : e.status ≡ pending
  pub available : e.available_at ≡ none
  pub named : notification_id E e.payload ≡ ok n.id
  pub routing :
      dict_get "routing_key" e.payload ≡ some (text (routing_key_for_notification_type n.type))

-- The recipient has a queued notification of the batch, and the outbox its event.
abbrev pub Announced :
    (E : Env) → BulkNotificationRequest → (batch_id recipient_id : ℕ) → Db E → Type 0
Announced E request batch_id i d =
    (n : Notification) × (e : OutboxEvent) × IsQueued request batch_id i n
    × (E.notifications.get n.id d.notifications ≡ some n)
    × IsAnnouncement E n e
    × (E.outbox.get e.id d.outbox ≡ some e)

drawn_apart :
    (E : Env)
    → ((i j : ℕ) → E.uuid4 i ≡ E.uuid4 j → i ≡ j)
    → (i k : ℕ) → k < i
    → (E.uuid4 i == E.uuid4 k) ≡ false
drawn_apart E unique i k lt = elim (Bool-cases (E.uuid4 i == E.uuid4 k)) [
  | inl same ↦ absurd (omega (arith, lt, unique i k ((==_iff (E.uuid4 i) (E.uuid4 k)).0 same)))
  | inr apart ↦ apart
]

module _ {E : Env} (request : BulkNotificationRequest) (batch_id : ℕ) where
  abbrev payload_of : ℕ → World E → Payload
  payload_of r w =
      notification_payload E (E.uuid4 (suc w.draws)) (E.uuid4 w.draws) batch_id r
        (channel_value request.channel) (type_value request.type) 1 (E.clock (suc w.reads))
        (routing_key_for_notification_type (type_value request.type)) none none

  -- The event that is written for the recipient in the state `w`.
  abbrev pub event_of : ℕ → World E → OutboxEvent
  event_of r w = record {
    id = E.uuid4 (suc (suc w.draws));
    aggregate_type = "notification";
    aggregate_id = E.uuid4 w.draws;
    event_type = "notification.created";
    payload = payload_of r w;
    status = pending;
    attempts = 0;
    last_error = none;
    created_at = E.clock (suc (suc w.reads));
    available_at = none;
    locked_at = none;
    published_at = none;
  }

  payload_named : (r : ℕ) (w : World E) → notification_id E (payload_of r w) ≡ ok (E.uuid4 w.draws)
  unfolding notification_id notification_payload
  payload_named r w = rw (E.uuid_of-uuid_str (E.uuid4 w.draws)) refl

  payload_routing :
      (r : ℕ) (w : World E)
      → dict_get "routing_key" (payload_of r w)
        ≡ some (text (routing_key_for_notification_type (type_value request.type)))
  unfolding dict_get notification_payload
  payload_routing r w = refl

  pub announcement :
      (r : ℕ) (w : World E) → IsAnnouncement E (row_of request batch_id r w) (event_of r w)
  announcement r w = record {
    aggregate = refl;
    type = refl;
    status = refl;
    available = refl;
    named = payload_named r w;
    routing = payload_routing r w;
  }

  -- A recipient costs four UUIDs, and adds one event under the third of them.
  add_recipient-outbox :
      (r : ℕ) (w : World E)
      → (add_recipient request batch_id r w).0 ≡ ok tt
      → ((add_recipient request batch_id r w).1.draws ≡ w.draws + 4)
        × ((add_recipient request batch_id r w).1.db.outbox
            ≡ E.outbox.put (event_of r w) w.db.outbox)
  unfolding add_recipient add_created_event
  add_recipient-outbox r w h =
      let (inserted, _) = add_recipient_ok request batch_id r w h in
      let same =
        insert_notification_ok (row_of request batch_id r w) (before_insert request batch_id r w)
          inserted in
      (ground (arith, inserted, same), ground (arith, inserted, same))

  row-IsQueued : (r : ℕ) (w : World E) → IsQueued request batch_id r (row_of request batch_id r w)
  row-IsQueued r w = record {
    batch = refl;
    subscriber = refl;
    channel = refl;
    type = refl;
    message = refl;
    status = refl;
    attempts = refl;
  }

  add_recipient-stored :
      (r : ℕ) (w : World E)
      → (add_recipient request batch_id r w).0 ≡ ok tt
      → E.notifications.get
          (row_of request batch_id r w).id
          (add_recipient request batch_id r w).1.db.notifications
        ≡ some (row_of request batch_id r w)
  add_recipient-stored r w h =
      let (inserted, same) = add_recipient_ok request batch_id r w h in
      rw same (
        insert_notification-get (row_of request batch_id r w) (before_insert request batch_id r w)
          inserted)

  add_recipient-Announced :
      (r : ℕ) (w : World E)
      → (add_recipient request batch_id r w).0 ≡ ok tt
      → (E.outbox.get (event_of r w).id (add_recipient request batch_id r w).1.db.outbox
          ≡ some (event_of r w))
  add_recipient-Announced r w h =
      let (_, written) = add_recipient-outbox r w h in
      rw written (
        rw
          (
            E.outbox.get-put (event_of r w).id (event_of r w) w.db.outbox,
            (==_iff (event_of r w).id (event_of r w).id).1 refl,
          )
          refl)

  module _ (unique : (i j : ℕ) → E.uuid4 i ≡ E.uuid4 j → i ≡ j) where
    -- The loop keeps the events whose ids were drawn before it.
    events_kept :
        (rs : List ℕ) (w : World E) (k : ℕ)
        → k < w.draws
        → (add_recipients request batch_id rs w).0 ≡ ok tt
        → E.outbox.get (E.uuid4 k) (add_recipients request batch_id rs w).1.db.outbox
          ≡ E.outbox.get (E.uuid4 k) w.db.outbox
    unfolding add_recipients
    events_kept [] w k lt h = refl
    events_kept (x ∷ rs) w k lt h =
        let w₁ = (add_recipient request batch_id x w).1 in
        let (_, added, rest) =
          >>=_ok (add_recipient request batch_id x) (λ _. add_recipients request batch_id rs) w h in
        let (cost, written) = add_recipient-outbox x w added in
        let later = events_kept rs w₁ k (omega arith) (rw rest at h) in
        let apart : ((event_of x w).id == E.uuid4 k) ≡ false =
          drawn_apart E unique (suc (suc w.draws)) k (omega arith) in
        rw rest (
          later
          ∙ rw written (rw (E.outbox.get-put (E.uuid4 k) (event_of x w) w.db.outbox, apart) refl))

    pub add_recipients-Announced :
        (rs : List ℕ) (w : World E)
        → (add_recipients request batch_id rs w).0 ≡ ok tt
        → (r : ℕ) → Has r rs
        → Announced E request batch_id r (add_recipients request batch_id rs w).1.db
    unfolding add_recipients
    add_recipients-Announced [] w h r has = absurd has
    add_recipients-Announced (x ∷ rs) w h r has =
        let w₁ = (add_recipient request batch_id x w).1 in
        let (_, added, rest) =
          >>=_ok (add_recipient request batch_id x) (λ _. add_recipients request batch_id rs) w h in
        let h₁ = rw rest at h in
        let (cost, _) = add_recipient-outbox x w added in
        rw rest (elim has [
          | inr later ↦ add_recipients-Announced rs w₁ h₁ r later
          | inl e ↦
              let (kept, _) = add_recipients_ok request batch_id rs w₁ h₁ in
              rw (← e) (
                row_of request batch_id x w,
                event_of x w,
                row-IsQueued x w,
                kept (row_of request batch_id x w).id _ (add_recipient-stored x w added),
                announcement x w,
                events_kept rs w₁ (suc (suc w.draws)) (omega arith) h₁
                    ∙ add_recipient-Announced x w added,
              )
        ])
