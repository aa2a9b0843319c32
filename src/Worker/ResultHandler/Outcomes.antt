-- ===== src/Worker/ResultHandler/Outcomes.antt =====
-- What `apply` makes of a notification that was sent, for every result of a provider.
use notification_test.Base.{
  ℕ, zero, suc, ◌+◌, ◌-◌, ◌≤◌, ◌<◌, ◌≡◌, ◌⊎◌, inl, inr, refl, ◌∙◌, true, false, ◌&&◌, none, some,
  List, ◌∷◌, arith, leb, leb→le, ==_iff, if◌then◌else◌, Bool-cases,
}
use notification_test.Exec.{Result, ok, >>=-eq}
use notification_test.Models.{Notification, delivered, dropped, Payload, is_final_status}
use notification_test.Platform.{Env}
use notification_test.Config.{seconds}
use notification_test.World.{World}
use notification_test.Providers.{ProviderResult}
use notification_test.Services.RetryPolicy.{RetryPolicy, decide}
use notification_test.Services.RetryPolicy.Decisions.{scheduled, decide-scheduled}
use notification_test.Worker.OutboxEvents.{add_retry, add_failed}
use notification_test.Worker.Attempts.Outstanding.{Followed, redelivers_at, put-Followed}
use notification_test.Worker.ResultHandler.{
  is_temporary, mark_delivered, schedule_retry, schedule_retry_if_needed, drop, apply_row, apply,
}

-- The row `n'` that `apply` leaves of the row `n`, with a limit on the attempts and the delays
-- `d ∷ ds`, when the clock shows `now`.
pub data Outcome (m d : ℕ) (ds : List ℕ) (now : ℕ) (n n' : Notification) (result : ProviderResult)
    : Type 0 where
  arrived :
      result.success && result.delivered ≡ true
      → n'.status ≡ delivered
      → n'.provider_message_id ≡ result.provider_message_id
      → n'.last_error ≡ none
      → n'.processing_lock_until ≡ none
      → Outcome m d ds now n n' result
  retried :
      result.success && result.delivered ≡ false
      → is_temporary result.error_type ≡ true
      → n.attempts < m
      → n'.status ≡ n.status
      → n'.attempts ≡ n.attempts
      → n'.last_error ≡ result.error_message
      → n'.processing_lock_until ≡ some (now + seconds (scheduled d ds (n.attempts - 1)))
      → Outcome m d ds now n n' result
  given_up :
      result.success && result.delivered ≡ false
      → (is_temporary result.error_type ≡ false) ⊎ (m ≤ n.attempts)
      → n'.status ≡ dropped
      → n'.last_error ≡ result.error_message
      → n'.processing_lock_until ≡ none
      → Outcome m d ds now n n' result

abbrev failed_row : Notification → ProviderResult → Notification
failed_row n result = record n { last_error = result.error_message; processing_lock_until = none }

decided :
    (m d : ℕ) (ds : List ℕ) (attempts : ℕ)
    → 0 < attempts
    → decide (record { max_retries = m; backoff_seconds = d ∷ ds }) attempts
      ≡ ok (
          if leb m attempts
          then record { should_retry = false; delay_seconds = none }
          else record { should_retry = true; delay_seconds = some (scheduled d ds (attempts - 1)) })
decided m d ds zero h = absurd (omega arith)
decided m d ds (suc k) h = let e : suc k - 1 ≡ k = omega arith in rw e (decide-scheduled m d k ds)

module _ (policy : RetryPolicy) (d : ℕ) (ds : List ℕ) (delays : policy.backoff_seconds ≡ d ∷ ds)
    (n : Notification) where
  open policy use {max_retries}

  decision :
      0 < n.attempts
      → decide policy n.attempts
        ≡ ok (
            if leb max_retries n.attempts
            then record { should_retry = false; delay_seconds = none }
            else record {
              should_retry = true;
              delay_seconds = some (scheduled d ds (n.attempts - 1));
            })
  decision pos = rw (← delays) at (decided max_retries d ds n.attempts pos)

module _ {E : Env} (policy : RetryPolicy) (d : ℕ) (ds : List ℕ)
    (delays : policy.backoff_seconds ≡ d ∷ ds) (n : Notification) (payload : Payload)
    (result : ProviderResult) where
  open policy use {max_retries}

  -- The block returns, and writes the row of that outcome.
  abbrev Ends : World E → Result (Unit {0}) × World E → Type 0
  Ends w r =
      (r.0 ≡ ok tt)
      × ((n' : Notification) × Outcome max_retries d ds (E.clock w.reads) n n' result
          × (n'.id ≡ n.id)
          × (r.1.db.notifications ≡ E.notifications.put n' w.db.notifications)
          × Followed E r.1.db n')

  delivered-Ends :
      (w : World E) → result.success && result.delivered ≡ true → Ends w (mark_delivered n result w)
  unfolding mark_delivered
  delivered-Ends w h = (refl, (_, arrived h refl refl refl refl, refl, refl, inl refl))

  drop-Ends :
      (w : World E)
      → result.success && result.delivered ≡ false
      → (is_temporary result.error_type ≡ false) ⊎ (max_retries ≤ n.attempts)
      → Ends w (drop (failed_row n result) payload result.error_message w)
  unfolding drop add_failed
  drop-Ends w h why = (refl, (_, given_up h why refl refl refl, refl, refl, inl refl))

  retry-Ends :
      (w : World E)
      → result.success && result.delivered ≡ false
      → is_temporary result.error_type ≡ true
      → n.attempts < max_retries
      → let r =
          schedule_retry (failed_row n result) payload result (scheduled d ds (n.attempts - 1)) w in
        (r.0 ≡ ok true)
        × ((n' : Notification) × Outcome max_retries d ds (E.clock w.reads) n n' result
            × (n'.id ≡ n.id)
            × (r.1.db.notifications ≡ E.notifications.put n' w.db.notifications)
            × Followed E r.1.db n')
  unfolding schedule_retry add_retry
  retry-Ends w h temporary left = (
    refl,
    (
      _,
      retried h temporary left refl refl refl refl,
      refl,
      refl,
      put-Followed E
          (schedule_retry (failed_row n result) payload result (scheduled d ds (n.attempts - 1))
            w).1.db
          w.db.outbox _ _
          (redelivers_at _ _ (E.clock w.reads + seconds (scheduled d ds (n.attempts - 1))) refl refl
            refl refl refl)
          refl,
    ),
  )

  schedule_lem :
      (w : World E)
      → 0 < n.attempts
      → is_temporary result.error_type ≡ true
      → leb max_retries n.attempts ≡ false
      → schedule_retry_if_needed policy (failed_row n result) payload result w
        ≡ schedule_retry (failed_row n result) payload result (scheduled d ds (n.attempts - 1)) w
  unfolding schedule_retry_if_needed
  schedule_lem w pos temporary left =
      rw temporary (rw (decision policy d ds delays n pos) (rw left refl))

  retried-Ends :
      (w : World E)
      → is_final_status n.status ≡ false
      → 0 < n.attempts
      → result.success && result.delivered ≡ false
      → is_temporary result.error_type ≡ true
      → leb max_retries n.attempts ≡ false
      → Ends w (apply_row policy n payload result w)
  unfolding apply_row
  retried-Ends w going pos h temporary left =
      let more : n.attempts < max_retries = ground arith in
      let (returned, ended) = retry-Ends w h temporary more in
      let same = schedule_lem w pos temporary left in
      let ran : (schedule_retry_if_needed policy (failed_row n result) payload result w).0
          ≡ ok true =
        rw same returned in
      rw (going, apply_row)
        (rw h (
          rw (>>=-eq (schedule_retry_if_needed policy (failed_row n result) payload result) _ w ran)
            (rw same (refl, ended))))

  failed-Ends :
      (w : World E)
      → is_final_status n.status ≡ false
      → 0 < n.attempts
      → result.success && result.delivered ≡ false
      → Ends w (apply_row policy n payload result w)
  unfolding apply_row schedule_retry_if_needed
  failed-Ends w going pos h = elim (Bool-cases (is_temporary result.error_type)) [
    | inl temporary ↦ elim (Bool-cases (leb max_retries n.attempts)) [
      | inl spent ↦
          rw (going, apply_row)
            (rw h (
              rw temporary (
                rw (decision policy d ds delays n pos)
                  (rw spent (drop-Ends w h (inr (leb→le max_retries n.attempts spent)))))))
      | inr left ↦ retried-Ends w going pos h temporary left
    ]
    | inr other ↦ rw (going, apply_row) (rw h (rw other (drop-Ends w h (inl other))))
  ]

  row-Ends :
      (w : World E)
      → is_final_status n.status ≡ false
      → 0 < n.attempts
      → Ends w (apply_row policy n payload result w)
  unfolding apply_row
  row-Ends w going pos = elim (Bool-cases (result.success && result.delivered)) [
    | inl arrives ↦ rw (going, apply_row) (rw arrives (delivered-Ends w arrives))
    | inr fails ↦ failed-Ends w going pos fails
  ]

  -- With a delay configured, `apply` returns on every result for a notification that is not final and
  -- was attempted: it is delivered if the provider says so, waits for the next attempt after a
  -- temporary failure with an attempt left, under a lock that ends the scheduled delay after the time at
  -- which `apply` reads the clock, and is dropped else.
  pub apply-Outcome :
      (id : ℕ) (w : World E)
      → E.notifications.get id w.db.notifications ≡ some n
      → is_final_status n.status ≡ false
      → 0 < n.attempts
      → ((apply policy id payload result w).0 ≡ ok tt)
        × ((n' : Notification) × Outcome max_retries d ds (E.clock w.reads) n n' result
            × (E.notifications.get id (apply policy id payload result w).1.db.notifications
                ≡ some n')
            × Followed E (apply policy id payload result w).1.db n')
  unfolding apply
  apply-Outcome id w found going pos =
      let (returned, (n', is, same, written, followed)) = row-Ends w going pos in
      let here : n'.id ≡ id = same ∙ E.notifications.get_key id n w.db.notifications found in
      (
        ground (arith, found, returned),
        (
          n',
          is,
          ground (
            arith,
            found,
            returned,
            written,
            here,
            E.notifications.get-put id n' w.db.notifications,
            ==_iff n'.id id,
          ),
          ground (arith, found, returned, followed),
        ),
      )
