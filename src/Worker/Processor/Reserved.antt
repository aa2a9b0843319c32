-- ===== src/Worker/Processor/Reserved.antt =====
-- app/worker/attempts.py: what `reserve` makes of a notification that is neither final nor under an
-- active lock.
use notification_test.Base.{
  ℕ, ◌≤◌, ◌<◌, ◌≡◌, refl, ◌∙◌, ap, true, false, none, some, arith, leb, ==_iff,
}
use notification_test.Exec.{pure, ok, >>=-eq}
use notification_test.Models.{Notification, Payload, dropped, is_final_status}
use notification_test.Platform.{Env}
use notification_test.Config.{Settings}
use notification_test.World.{Db, World}
use notification_test.Worker.OutboxEvents.{add_failed}
use notification_test.Worker.Attempts.{
  begin_attempt, drop_before_provider, reserve_unfinished, reserve_row, reserve,
  has_active_processing_lock,
}
use notification_test.Worker.Attempts.Rows.{active, lock-bind, lock_db}

module _ {E : Env} (settings : Settings) (n : Notification) (payload : Payload) where
  begins : (w : World E) → (n' : Notification) × ((begin_attempt settings n w).0 ≡ ok (some n'))
  unfolding begin_attempt
  begins w = (_, refl)

  drops :
      (w : World E)
      → ((drop_before_provider n w).0 ≡ ok tt)
        × ((n' : Notification) × (n'.status ≡ dropped)
            × (n'.id ≡ n.id)
            × ((drop_before_provider n w).1.db.notifications
                ≡ E.notifications.put n' w.db.notifications))
  unfolding drop_before_provider add_failed
  drops w = (refl, (_, refl, refl, refl))

  -- The row is neither final nor under an active lock.
  module _ (w : World E) (going : is_final_status n.status ≡ false)
      (unlocked : active n (E.clock w.reads) ≡ false) where
    row_begins :
        n.attempts < settings.max_retries
        → (n' : Notification) × ((reserve_row settings n payload w).0 ≡ ok (some n'))
    unfolding reserve_row reserve_unfinished
    row_begins left =
        let w₁ = (has_active_processing_lock n w).1 in
        let (n', begun) = begins w₁ in
        let open_ : leb settings.max_retries n.attempts ≡ false = ground arith in
        (
          n',
          rw (going, reserve_row)
              (rw (lock-bind n w (reserve_unfinished settings n payload))
                (rw (unlocked, reserve_unfinished) (rw open_ begun))),
        )

    row_drops :
        settings.max_retries ≤ n.attempts
        → ((reserve_row settings n payload w).0 ≡ ok none)
          × ((n' : Notification) × (n'.status ≡ dropped)
              × (n'.id ≡ n.id)
              × ((reserve_row settings n payload w).1.db.notifications
                  ≡ E.notifications.put n' w.db.notifications))
    unfolding reserve_row reserve_unfinished
    row_drops spent =
        let w₁ = (has_active_processing_lock n w).1 in
        let (returned, (n', is, same, written)) = drops w₁ in
        let shut : leb settings.max_retries n.attempts ≡ true = ground arith in
        rw (going, reserve_row)
          (rw (lock-bind n w (reserve_unfinished settings n payload)) (
            rw (unlocked, reserve_unfinished)
              (rw shut (
                rw (>>=-eq (drop_before_provider n) (λ _. pure none) w₁ returned) (
                  refl,
                  (
                    n',
                    is,
                    same,
                    written
                        ∙ ap (λ (d : Db E). E.notifications.put n' d.notifications) (lock_db n w),
                  ),
                )))))

module _ {E : Env} (settings : Settings) (id : ℕ) (n : Notification) (payload : Payload)
    (w : World E) (found : E.notifications.get id w.db.notifications ≡ some n)
    (going : is_final_status n.status ≡ false) (unlocked : active n (E.clock w.reads) ≡ false) where
  pub reserve_begins :
      n.attempts < settings.max_retries
      → (n' : Notification) × ((reserve settings id payload w).0 ≡ ok (some n'))
  unfolding reserve
  reserve_begins left =
      let (n', begun) = row_begins settings n payload w going unlocked left in
      (n', ground (arith, found, begun))

  pub reserve_drops :
      settings.max_retries ≤ n.attempts
      → ((reserve settings id payload w).0 ≡ ok none)
        × ((n' : Notification) × (n'.status ≡ dropped)
            × (E.notifications.get id (reserve settings id payload w).1.db.notifications ≡ some n'))
  unfolding reserve
  reserve_drops spent =
      let (returned, (n', is, same, written)) =
        row_drops settings n payload w going unlocked spent in
      let here : n'.id ≡ id = same ∙ E.notifications.get_key id n w.db.notifications found in
      (
        ground (arith, found, returned),
        (
          n',
          is,
          ground (
            arith,
            found,
            returned,
            written,
            here,
            E.notifications.get-put id n' w.db.notifications,
            ==_iff n'.id id,
          ),
        ),
      )
