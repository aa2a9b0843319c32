-- ===== src/Worker/Attempts.antt =====
-- app/worker/attempts.py: `NotificationAttemptService`, which reserves one attempt of a notification
-- before the provider is called.
pub mod Rows
pub mod Outcomes
pub mod Deferral
pub mod Outstanding
use notification_test.Base.{
  ℕ, suc, ◌+◌, ◌-◌, ◌*◌, ◌/◌, max, String, Bool, true, false, ◌&&◌, Option, none, some, List, [],
  ◌∷◌, ◌==◌, ltb, leb, str_eq, if◌then◌else◌,
}
use notification_test.Exec.{
  Exec, ok, err, multiple_results_found, ◌>>=◌, ◌>>◌, pure, raise, gets, or_raise,
}
use notification_test.Models.{
  Notification, NotificationStatus, queued, sent, delivered, dropped, OutboxEvent, OutboxStatus,
  pending, processing, published, failed, Payload, is_final_status,
}
use notification_test.Platform.{Env}
use notification_test.World.{World, utcnow, transaction, save_notification, add_history}
use notification_test.Config.{Settings, seconds}
use notification_test.Worker.OutboxEvents.{add_failed, add_retry}

-- `.scalar_one_or_none()`
abbrev pub scalar_one_or_none : {S R : Type 0} → List R → Exec S (Option R)
scalar_one_or_none [] s = (ok none, s)
scalar_one_or_none (r ∷ []) s = (ok (some r), s)
scalar_one_or_none (r ∷ _ ∷ _) s = (err multiple_results_found, s)

-- `value is not None and value > now`
abbrev pub is_future : Option ℕ → ℕ → Bool
is_future none now = false
is_future (some value) now = ltb now value

-- `available_at >= lock`: a comparison with NULL selects nothing.
abbrev pub at_or_after : Option ℕ → Option ℕ → Bool
at_or_after (some available_at) (some lock) = leb lock available_at
at_or_after _ _ = false

abbrev pub is_sent : NotificationStatus → Bool
is_sent sent = true
is_sent _ = false

-- `status.in_([pending, processing])`
abbrev pub is_outstanding : OutboxStatus → Bool
is_outstanding pending = true
is_outstanding processing = true
is_outstanding _ = false

-- The condition of the query in `_ensure_deferred_redelivery`.
unfoldable pub redelivers : Notification → OutboxEvent → Bool
redelivers n e =
    e.aggregate_id == n.id
    && str_eq e.event_type "notification.retry_scheduled"
    && at_or_after e.available_at n.processing_lock_until
    && is_outstanding e.status

-- `max(1, ceil(delta.total_seconds()))`; a delta below zero gives 1 as a delta of zero does.
unfoldable pub seconds_until : Option ℕ → ℕ → ℕ
seconds_until none now = 1
seconds_until (some value) now = max 1 ((value - now + 999999) / 1000000)

abbrev pub max_attempts_error : String
max_attempts_error = "Max retry attempts exceeded before provider call"

module _ {E : Env} where
  abbrev pub get_notification : ℕ → Exec (World E) (Option Notification)
  get_notification id = gets (λ w. E.notifications.get id w.db.notifications)

  -- `_seconds_until` reads the clock only when there is a time.
  unfoldable pub seconds_left : Option ℕ → Exec (World E) ℕ
  unfolding seconds_until
  seconds_left none = pure 1
  seconds_left (some value) = do now ← utcnow; pure (seconds_until (some value) now)

  -- `_has_active_processing_lock`: the clock is read when the first two conditions hold.
  unfoldable pub has_active_processing_lock : Notification → Exec (World E) Bool
  has_active_processing_lock n w = elim (is_sent n.status) [
    | false ↦ (ok false, w)
    | true ↦ elim n.processing_lock_until [
      | none ↦ (ok false, w)
      | some value ↦ (do now ← utcnow; pure (ltb now value)) w
    ]
  ]

  -- The end of `_ensure_deferred_redelivery`, on what its query found.
  unfoldable pub schedule_unless :
      Option OutboxEvent → Notification → Payload → Exec (World E) (Unit {0})
  schedule_unless (some _) n payload = pure tt
  schedule_unless none n payload = do
    delay ← seconds_left n.processing_lock_until
    add_retry n payload delay n.processing_lock_until none (some "processing_lock_active")
    pure tt

  -- `_ensure_deferred_redelivery` on the rows of its query.
  unfoldable pub redeliver : List OutboxEvent → Notification → Payload → Exec (World E) (Unit {0})
  unfolding schedule_unless
  redeliver rows n payload = do
    existing ← scalar_one_or_none rows
    schedule_unless existing n payload

  unfoldable pub ensure_deferred_redelivery : Notification → Payload → Exec (World E) (Unit {0})
  unfolding redeliver
  ensure_deferred_redelivery n payload = do
    rows ← gets (λ w. E.outbox.select (redelivers n) w.db.outbox)
    redeliver rows n payload

  unfoldable pub drop_before_provider : Notification → Exec (World E) (Unit {0})
  unfolding save_notification add_history
  drop_before_provider n = do
    let dropped_row : Notification = record n {
      status = dropped;
      last_error = some max_attempts_error;
      processing_lock_until = none;
    }
    add_history n.id dropped (some max_attempts_error)
    add_failed dropped_row none (some max_attempts_error)
    save_notification dropped_row
    pure tt

  -- The last lines of `reserve`, where nothing stands in the way of an attempt.
  unfoldable pub begin_attempt : Settings → Notification → Exec (World E) (Option Notification)
  unfolding save_notification add_history
  begin_attempt settings n = do
    now ← utcnow
    let reserved : Notification = record n {
      attempts = n.attempts + 1;
      status = sent;
      processing_lock_until = some (now + seconds settings.processing_lock_ttl_seconds);
    }
    add_history n.id sent none
    saved ← save_notification reserved
    pure (some saved)

  -- `reserve` once the row is known not to be final and its lock was tested.
  unfoldable pub reserve_unfinished :
      Settings → Notification → Payload → Bool → Exec (World E) (Option Notification)
  reserve_unfinished settings n payload locked =
      if locked
      then (do ensure_deferred_redelivery n payload; pure none)
      else if leb settings.max_retries n.attempts
      then (do drop_before_provider n; pure none)
      else begin_attempt settings n

  -- `reserve` after the row was found: the guards in the order of the source.
  unfoldable pub reserve_row :
      Settings → Notification → Payload → Exec (World E) (Option Notification)
  reserve_row settings n payload =
      if is_final_status n.status
      then pure none
      else do locked ← has_active_processing_lock n; reserve_unfinished settings n payload locked

  abbrev pub reserve_found :
      Settings → Option Notification → Payload → Exec (World E) (Option Notification)
  reserve_found settings none payload = pure none
  reserve_found settings (some n) payload = reserve_row settings n payload

  unfoldable pub reserve : Settings → ℕ → Payload → Exec (World E) (Option Notification)
  reserve settings id payload =
      transaction (do found ← get_notification id; reserve_found settings found payload)
