-- ===== src/System/Records.antt =====
-- What the transactions write of the history: each change of a status comes with its record.
use notification_test.Base.{
  ℕ, suc, ◌≤◌, ◌<◌, ◌≡◌, ◌⊎◌, inl, inr, refl, sym, ◌∙◌, ap, Option, none, some, String, arith, ◌==◌,
  ==_iff, Bool-cases,
}
use mathlib.Core.Path.{subst}
use notification_test.Models.{
  Notification, NotificationStatusHistory, queued, Payload, BulkNotificationRequest,
}
use notification_test.Platform.{Env}
use notification_test.Config.{Settings}
use notification_test.World.{World}
use notification_test.Providers.{ProviderResult}
use notification_test.Services.RetryPolicy.{RetryPolicy}
use notification_test.Services.Notifications.{add_recipient, add_created_event, insert_notification}
use notification_test.Services.Notifications.Creation.{row_of}
use notification_test.Worker.OutboxEvents.{add_retry, add_failed}
use notification_test.Worker.Attempts.{drop_before_provider, begin_attempt, reserve}
use notification_test.Worker.ResultHandler.{mark_delivered, schedule_retry, drop, apply}
use notification_test.Worker.ResultHandler.Rows.{failed_row}
use notification_test.System.Changes.{Onward, Onward-trans, Change, Steady-Change}
use notification_test.System.Reserving.{reserve_row-Change, reserve-Change}
use notification_test.System.Applying.{apply_row-Change, apply-Change}
use notification_test.System.Trail.{Trails, status-Trails, entry-Trails, Trails-Steady}

-- A row that is written with the status that it had.
put_status :
    (E : Env) (n row : Notification) (t t' : E.notifications.State) (j : ℕ) (n' : Notification)
    → E.notifications.get n.id t ≡ some n
    → row.id ≡ n.id
    → row.status ≡ n.status
    → t' ≡ E.notifications.put row t
    → E.notifications.get j t' ≡ some n'
    → (x : Notification) × (E.notifications.get j t ≡ some x) × (n'.status ≡ x.status)
put_status E n row t t' j n' found id status written there = elim (Bool-cases (row.id == j)) [
  | inl here ↦
      let own : n.id ≡ j = sym id ∙ (==_iff row.id j).0 here in
      let is : row ≡ n' = ground (arith, there, written, E.notifications.get-put j row t, here) in
      (n, rw (← own) found, ap (λ (x : Notification). x.status) (sym is) ∙ status)
  | inr away ↦ (n', ground (arith, there, written, E.notifications.get-put j row t, away), refl)
]

module _ {E : Env} (unique : (i j : ℕ) → E.uuid4 i ≡ E.uuid4 j → i ≡ j) where
  -- What holds of the work on the row `n` while the table has it.
  abbrev Holding : Notification → World E → World E → Type 0
  Holding n w w' =
      Onward w w' × (E.notifications.get n.id w.db.notifications ≡ some n → Trails w w')

  Holding-Change : (n : Notification) → Change (Holding n)
  Holding-Change n = record {
    onward = λ w w' h. h.0;
    same = λ w w' on same. (on, λ found. (Steady-Change Trails-Steady).same w w' on same);
    later = λ w w₁ w' same draws reads (on, h). (
      Onward-trans w w₁ w' (omega (arith, draws), reads) on,
      λ found. (Steady-Change Trails-Steady).later w w₁ w' same draws reads (h (rw same found)),
    );
  }

  retry-Holding :
      (n : Notification) (payload : Payload) (delay : ℕ) (at : Option ℕ)
      (error reason : Option String) (w : World E)
      → Holding n w (add_retry n payload delay at error reason w).1
  unfolding add_retry
  retry-Holding n payload delay at error reason w = (
    (omega arith, omega arith),
    λ found.
        status-Trails w (add_retry n payload delay at error reason w).1 (omega arith, omega arith)
          refl (λ j n' there. (n', there, refl)),
  )

  drop_before-Holding : (n : Notification) (w : World E) → Holding n w (drop_before_provider n w).1
  unfolding drop_before_provider add_failed
  drop_before-Holding n w = (
    (omega arith, omega arith),
    λ found.
        entry-Trails unique w (drop_before_provider n w).1 w.draws w.reads _ _
          (omega arith, omega arith) (omega arith) (omega arith) (omega arith) (omega arith) refl
          refl refl refl refl refl,
  )

  begin-Holding :
      (n : Notification) (settings : Settings) (w : World E)
      → Holding n w (begin_attempt settings n w).1
  unfolding begin_attempt
  begin-Holding n settings w = (
    (omega arith, omega arith),
    λ found.
        entry-Trails unique w (begin_attempt settings n w).1 w.draws (suc w.reads) _ _
          (omega arith, omega arith) (omega arith) (omega arith) (omega arith) (omega arith) refl
          refl refl refl refl refl,
  )

  delivered-Holding :
      (n : Notification) (result : ProviderResult) (w : World E)
      → Holding n w (mark_delivered n result w).1
  unfolding mark_delivered
  delivered-Holding n result w = (
    (omega arith, omega arith),
    λ found.
        entry-Trails unique w (mark_delivered n result w).1 w.draws w.reads _ _
          (omega arith, omega arith) (omega arith) (omega arith) (omega arith) (omega arith) refl
          refl refl refl refl refl,
  )

  drop-Holding :
      (n : Notification) (payload : Payload) (result : ProviderResult) (w : World E)
      → Holding n w (drop (failed_row n result) payload result.error_message w).1
  unfolding drop add_failed
  drop-Holding n payload result w = (
    (omega arith, omega arith),
    λ found.
        entry-Trails unique w (drop (failed_row n result) payload result.error_message w).1 w.draws
          w.reads _ _ (omega arith, omega arith) (omega arith) (omega arith) (omega arith)
          (omega arith) refl refl refl refl refl refl,
  )

  waiting-Holding :
      (n : Notification) (payload : Payload) (result : ProviderResult) (delay : ℕ) (w : World E)
      → Holding n w (schedule_retry (failed_row n result) payload result delay w).1
  unfolding schedule_retry add_retry
  waiting-Holding n payload result delay w = (
    (omega arith, omega arith),
    λ found.
        status-Trails w (schedule_retry (failed_row n result) payload result delay w).1
          (omega arith, omega arith) refl
          (λ j n' there. put_status E n _ w.db.notifications _ j n' found refl refl refl there),
  )

  pub reserve-Trails :
      (settings : Settings) (id : ℕ) (payload : Payload) (w : World E)
      → Trails w (reserve settings id payload w).1
  reserve-Trails settings id payload w =
      reserve-Change (Steady-Change Trails-Steady) settings id payload w (λ n found.
        let own : n.id ≡ id = E.notifications.get_key id n w.db.notifications found in
        (reserve_row-Change (Holding-Change n) settings n payload (retry-Holding n payload)
            (drop_before-Holding n) (begin-Holding n settings) w).1
          (subst (λ i. E.notifications.get i w.db.notifications ≡ some n) (sym own) found))

  pub apply-Trails :
      (policy : RetryPolicy) (id : ℕ) (payload : Payload) (result : ProviderResult) (w : World E)
      → Trails w (apply policy id payload result w).1
  apply-Trails policy id payload result w =
      apply-Change (Steady-Change Trails-Steady) policy id payload result w (λ n found.
        let own : n.id ≡ id = E.notifications.get_key id n w.db.notifications found in
        (apply_row-Change (Holding-Change n) policy n payload result (delivered-Holding n result)
            (drop-Holding n payload result) (waiting-Holding n payload result) w).1
          (subst (λ i. E.notifications.get i w.db.notifications ≡ some n) (sym own) found))

  -- The record of a new notification, unless the insert of its row is refused.
  recorded : World E → NotificationStatusHistory
  recorded w = record {
    id = E.uuid4 (suc (suc (suc w.draws)));
    notification_id = E.uuid4 w.draws;
    status = queued;
    error_message = none;
    created_at = E.clock (suc (suc (suc w.reads)));
  }

  add_recipient_records :
      (request : BulkNotificationRequest) (b r : ℕ) (w : World E)
      → let w' = (add_recipient request b r w).1 in
        (suc (suc (suc w.draws)) ≤ w'.draws)
        × (suc (suc (suc w.reads)) ≤ w'.reads)
        × (((w'.db.notifications ≡ w.db.notifications) × (w'.db.history ≡ w.db.history))
            ⊎ ((suc (suc (suc w.draws)) < w'.draws)
                × (w'.db.notifications
                    ≡ E.notifications.put (row_of request b r w) w.db.notifications)
                × (w'.db.history ≡ E.history.put (recorded w) w.db.history)))
  unfolding add_recipient add_created_event insert_notification recorded
  add_recipient_records request b r w = ground arith

  pub add_recipient-Trails :
      (request : BulkNotificationRequest) (b r : ℕ) (w : World E)
      → Trails w (add_recipient request b r w).1
  unfolding recorded
  add_recipient-Trails request b r w =
      let w' = (add_recipient request b r w).1 in
      let (draws, reads, rows) = add_recipient_records request b r w in
      elim rows [
        | inl (same, history) ↦
            status-Trails w w' (omega (arith, draws), omega (arith, reads)) history
              (λ j n found. (n, rw same at found, refl))
        | inr (more, written, entered) ↦
            entry-Trails unique w w' (suc (suc (suc w.draws))) (suc (suc (suc w.reads)))
              (recorded w) (row_of request b r w) (omega (arith, draws), omega (arith, reads))
              (omega arith) more (omega arith) reads refl refl refl refl entered written
      ]
