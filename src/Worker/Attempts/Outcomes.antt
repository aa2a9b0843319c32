-- ===== src/Worker/Attempts/Outcomes.antt =====
-- When `reserve` hands out an attempt, and what it hands out.
use notification_test.Base.{
  ℕ, suc, ◌+◌, ◌<◌, ◌≡◌, ◌≤◌, inl, inr, refl, if◌then◌else◌, false, Option, none, some, arith,
  Bool-cases, ==_iff,
}
use notification_test.Exec.{Result, ok}
use notification_test.Models.{Notification, sent, Payload, is_final_status}
use notification_test.Platform.{Env}
use notification_test.Config.{Settings, seconds}
use notification_test.World.{World, transaction, transaction_ok}
use notification_test.Worker.RowSteps.{SameNotice}
use notification_test.Worker.Attempts.{
  begin_attempt, reserve_unfinished, reserve_row, reserve_found, reserve,
  has_active_processing_lock, is_sent,
}
use notification_test.Worker.Attempts.Rows.{active, lock-bind, lock_db}

-- The reading of the clock with which an attempt on `n` begins: the second one of `reserve` if the
-- lock was compared with the clock.
abbrev pub begun_at : Notification → ℕ → ℕ
begun_at n reads =
    if is_sent n.status
    then (elim n.processing_lock_until [ none ↦ reads | some _ ↦ suc reads ])
    else reads

-- The row `n'` that an attempt on the row `n` leaves: the lock was tested at `start` and the attempt
-- was begun at `t`.
pub record Begun (settings : Settings) (start t : ℕ) (n n' : Notification) : Type 0 where
  pub going : is_final_status n.status ≡ false
  pub unlocked : active n start ≡ false
  pub left : n.attempts < settings.max_retries
  pub same : SameNotice n n'
  pub attempts : n'.attempts ≡ suc n.attempts
  pub status : n'.status ≡ sent
  pub later : start ≤ t
  pub lock : n'.processing_lock_until ≡ some (t + seconds settings.processing_lock_ttl_seconds)

module _ {E : Env} (settings : Settings) (n : Notification) (payload : Payload) where
  -- What a state after the reservation of `n` in `w` shows, if a row `n'` was handed out.
  abbrev HandsOut : World E → Result (Option Notification) × World E → Notification → Type 0
  HandsOut w r n' =
      Begun settings (E.clock w.reads) (E.clock (begun_at n w.reads)) n n'
      × (r.1.db.notifications ≡ E.notifications.put n' w.db.notifications)

  lock-reads : (w : World E) → (has_active_processing_lock n w).1.reads ≡ begun_at n w.reads
  unfolding has_active_processing_lock
  lock-reads w = ground arith

  begun_at-later : (w : World E) → E.clock w.reads ≤ E.clock (begun_at n w.reads)
  begun_at-later w = ground (arith, E.clock_mono w.reads)

  begin-HandsOut :
      (w₀ w : World E) (n' : Notification)
      → is_final_status n.status ≡ false
      → active n (E.clock w₀.reads) ≡ false
      → n.attempts < settings.max_retries
      → w.db ≡ w₀.db
      → w.reads ≡ begun_at n w₀.reads
      → (begin_attempt settings n w).0 ≡ ok (some n')
      → HandsOut w₀ (begin_attempt settings n w) n'
  unfolding begin_attempt
  begin-HandsOut w₀ w n' going unlocked left same read e = (
    record {
      going = going;
      unlocked = unlocked;
      left = left;
      same = ground arith;
      attempts = ground arith;
      status = ground arith;
      later = begun_at-later w₀;
      lock = ground (arith, e, read);
    },
    ground arith,
  )

  unfinished-HandsOut :
      (w₀ w : World E) (n' : Notification)
      → is_final_status n.status ≡ false
      → w.db ≡ w₀.db
      → w.reads ≡ begun_at n w₀.reads
      → (reserve_unfinished settings n payload (active n (E.clock w₀.reads)) w).0 ≡ ok (some n')
      → HandsOut w₀ (reserve_unfinished settings n payload (active n (E.clock w₀.reads)) w) n'
  unfolding reserve_unfinished
  unfinished-HandsOut w₀ w n' going same read e = elim (Bool-cases (active n (E.clock w₀.reads))) [
    | inl locked ↦ ground arith
    | inr unlocked ↦ ground (arith, begin-HandsOut w₀ w n' going unlocked)
  ]

  row-HandsOut :
      (w : World E) (n' : Notification)
      → (reserve_row settings n payload w).0 ≡ ok (some n')
      → HandsOut w (reserve_row settings n payload w) n'
  unfolding reserve_row
  row-HandsOut w n' e = elim (Bool-cases (is_final_status n.status)) [
    | inl final ↦ ground arith
    | inr going ↦ ground (
      arith,
      lock-bind n w (reserve_unfinished settings n payload),
      lock_db n w,
      lock-reads w,
      unfinished-HandsOut w (has_active_processing_lock n w).1 n' going (lock_db n w)
          (lock-reads w),
    )
  ]

-- If `reserve` hands out a row, then there was a row with that id which was not final, was not
-- under an active lock and had an attempt left; and the row handed out, which is the one that the
-- table now holds, is that row with one attempt more, in the state `sent` and under a lock that ends
-- the lock's time to live after the attempt began, which is at the first reading of the clock after the
-- lock was tested.
pub reserve_hands_out :
    {E : Env} (settings : Settings) (id : ℕ) (payload : Payload) (w : World E) (n' : Notification)
    → (reserve settings id payload w).0 ≡ ok (some n')
    → (n : Notification) × (E.notifications.get id w.db.notifications ≡ some n)
      × Begun settings (E.clock w.reads) (E.clock (begun_at n w.reads)) n n'
      × (E.notifications.get id (reserve settings id payload w).1.db.notifications ≡ some n')
unfolding reserve
reserve_hands_out {E} settings id payload w n' = go (E.notifications.get id w.db.notifications) refl
  where
    go :
        (found : Option Notification)
        → E.notifications.get id w.db.notifications ≡ found
        → (transaction (reserve_found settings found payload) w).0 ≡ ok (some n')
        → (n : Notification) × (found ≡ some n)
          × Begun settings (E.clock w.reads) (E.clock (begun_at n w.reads)) n n'
          × (E.notifications.get id
                (transaction (reserve_found settings found payload) w).1.db.notifications
              ≡ some n')
    go none missing e = ground arith
    go (some n) found e =
        let (ran, same) = transaction_ok (reserve_row settings n payload) w e in
        let (begun, stored) = row-HandsOut settings n payload w n' ran in
        let here : n'.id ≡ id =
          omega (arith, begun.same.id, E.notifications.get_key id n w.db.notifications found) in
        (
          n,
          refl,
          begun,
          rw same (
              rw stored
                (rw (E.notifications.get-put id n' w.db.notifications, (==_iff n'.id id).1 here))),
        )
