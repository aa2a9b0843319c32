-- ===== src/Worker/ResultHandler/Session.antt =====
-- app/worker/result_handler.py with app/db/session.py: `apply` on the session of `reserve`, which keeps the
-- object of the row that `reserve` handed out and does not load it again.
pub mod Late
use notification_test.Base.{
  ℕ, ◌≡◌, inl, inr, refl, sym, true, false, ◌&&◌, Bool, String, Option, none, some, arith, ◌==◌,
  ==_iff, str_eq, eq_iff, if◌then◌else◌, Bool-cases,
}
use notification_test.Exec.{
  Exec, Result-cases, ok, err, ◌>>=◌, ◌>>◌, pure, modify, or_raise, no_result_found,
}
use notification_test.Models.{
  Notification, NotificationStatus, queued, sent, delivered, dropped, Payload,
}
use notification_test.Platform.{Env}
use notification_test.World.{World, transaction, put_notification}
use notification_test.Providers.{ProviderResult}
use notification_test.Services.RetryPolicy.{RetryPolicy}
use notification_test.Worker.Attempts.{get_notification}
use notification_test.Worker.ResultHandler.{apply_row, apply}

abbrev pub same_status? : NotificationStatus → NotificationStatus → Bool
same_status? queued queued = true
same_status? sent sent = true
same_status? delivered delivered = true
same_status? dropped dropped = true
same_status? _ _ = false

abbrev pub same_option? : {A : Type 0} → (A → A → Bool) → Option A → Option A → Bool
same_option? same none none = true
same_option? same (some a) (some b) = same a b
same_option? same _ _ = false

-- The object agrees with the row.
unfoldable pub is_current : Notification → Notification → Bool
is_current n row =
    n.id == row.id
    && n.batch_id == row.batch_id
    && n.subscriber_id == row.subscriber_id
    && str_eq n.channel row.channel
    && str_eq n.type row.type
    && str_eq n.message row.message
    && same_status? n.status row.status
    && n.attempts == row.attempts
    && same_option? str_eq n.provider_message_id row.provider_message_id
    && same_option? str_eq n.last_error row.last_error
    && same_option? ◌==◌ n.processing_lock_until row.processing_lock_until
    && n.created_at == row.created_at
    && n.updated_at == row.updated_at

-- The row after the flush of the object `n`, which became `object`: only a column whose value changed is
-- written.
abbrev pub merged : Notification → Notification → Notification → Notification
merged n object row = record row {
  status = if same_status? n.status object.status then row.status else object.status;
  provider_message_id =
      if same_option? str_eq n.provider_message_id object.provider_message_id
      then row.provider_message_id
      else object.provider_message_id;
  last_error =
      if same_option? str_eq n.last_error object.last_error
      then row.last_error
      else object.last_error;
  processing_lock_until =
      if same_option? ◌==◌ n.processing_lock_until object.processing_lock_until
      then row.processing_lock_until
      else object.processing_lock_until;
  updated_at = if n.updated_at == object.updated_at then row.updated_at else object.updated_at;
}

module _ {E : Env} where
  abbrev pub write_changes :
      Notification → Notification → Option Notification → Exec (World E) (Unit {0})
  write_changes n row none w = (ok tt, w)
  write_changes n row (some object) w = (ok tt, put_notification (merged n object row) w)

  -- The object is written as `apply_row` leaves it; if the row had changed since it was loaded, the row
  -- keeps its columns where the object did not change.
  unfoldable pub flush : Notification → Notification → Exec (World E) (Unit {0})
  flush n row w =
      if is_current n row
      then (ok tt, w)
      else write_changes n row (E.notifications.get row.id w.db.notifications) w

  unfoldable pub apply_loaded :
      RetryPolicy → Notification → ℕ → Payload → ProviderResult → Exec (World E) (Unit {0})
  apply_loaded policy n id payload result = transaction (do
    found ← get_notification id
    row ← or_raise found no_result_found
    apply_row policy n payload result
    flush n row)

pub same_status_refl : (s : NotificationStatus) → same_status? s s ≡ true
same_status_refl queued = refl
same_status_refl sent = refl
same_status_refl delivered = refl
same_status_refl dropped = refl

same_text_refl : (o : Option String) → same_option? str_eq o o ≡ true
same_text_refl none = refl
same_text_refl (some a) = ground (arith, eq_iff a a)

same_number_refl : (o : Option ℕ) → same_option? ◌==◌ o o ≡ true
same_number_refl none = refl
same_number_refl (some a) = ground (arith, ==_iff a a)

is_current_refl : (n : Notification) → is_current n n ≡ true
unfolding is_current
is_current_refl n = rw (
  (==_iff n.id n.id).1 refl,
  (==_iff n.batch_id n.batch_id).1 refl,
  (==_iff n.subscriber_id n.subscriber_id).1 refl,
  (eq_iff n.channel n.channel).1 refl,
  (eq_iff n.type n.type).1 refl,
  (eq_iff n.message n.message).1 refl,
  same_status_refl n.status,
  (==_iff n.attempts n.attempts).1 refl,
  same_text_refl n.provider_message_id,
  same_text_refl n.last_error,
  same_number_refl n.processing_lock_until,
  (==_iff n.created_at n.created_at).1 refl,
  (==_iff n.updated_at n.updated_at).1 refl,
)

-- While no one else changed the row, this is `apply`.
pub apply_loaded_fresh :
    {E : Env} (policy : RetryPolicy) (n : Notification) (id : ℕ) (payload : Payload)
    (result : ProviderResult) (w : World E)
    → E.notifications.get id w.db.notifications ≡ some n
    → apply_loaded policy n id payload result w ≡ apply policy id payload result w
unfolding apply_loaded apply flush
apply_loaded_fresh policy n id payload result w found =
    elim (Result-cases (apply_row policy n payload result w).0) [
      | inl (u, ran) ↦ ground (arith, found, ran, is_current_refl n)
      | inr (e, raised) ↦ ground (arith, found, raised)
    ]
