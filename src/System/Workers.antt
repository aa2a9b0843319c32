-- ===== src/System/Workers.antt =====
-- What the transactions of the workers add to the outbox.
use notification_test.Base.{
  ℕ, suc, ◌≤◌, ◌<◌, ◌≡◌, ◌⊎◌, inl, inr, refl, ◌∙◌, ap, String, true, Option, arith, str_eq,
  Bool-cases,
}
use notification_test.Exec.{ok}
use notification_test.Models.{Notification, OutboxEvent, Payload}
use notification_test.Platform.{Env}
use notification_test.Config.{Settings}
use notification_test.World.{Db, World}
use notification_test.Providers.{ProviderResult}
use notification_test.Services.OutboxService.{routing_key_for_notification_type}
use notification_test.Services.RetryPolicy.{RetryPolicy}
use notification_test.Worker.OutboxEvents.{retry_payload, add_retry, add_failed}
use notification_test.Worker.OutboxEvents.Payloads.{dict_get-retry_payload, routing-retry_payload}
use notification_test.Worker.RowSteps.{Evolves}
use notification_test.Worker.Attempts.{drop_before_provider, begin_attempt, reserve}
use notification_test.Worker.Attempts.Rows.{reserve-Evolves}
use notification_test.Worker.ResultHandler.{mark_delivered, schedule_retry, drop, apply}
use notification_test.Worker.ResultHandler.Rows.{failed_row, apply-Evolves}
use notification_test.Worker.Processor.{parse_id, notification_id}
use notification_test.System.Changes.{Onward, Change}
use notification_test.System.Reserving.{reserve_row-Change, reserve-Change}
use notification_test.System.Applying.{apply_row-Change, apply-Change}
use notification_test.System.Growth.{
  is_notice, IsRoutable, Grows, quiet-Grows, event-Grows, Evolves-Going, Evolves-Tried,
}

pub routing_known :
    (type : String)
    → (routing_key_for_notification_type type ≡ "notification.high")
      ⊎ (routing_key_for_notification_type type ≡ "notification.low")
unfolding routing_key_for_notification_type
routing_known type = elim (Bool-cases (str_eq type "transactional")) [
  | inl e ↦ inl (rw e refl)
  | inr e ↦ inr (rw e refl)
]

-- A retry event names what its source names.
retry-named :
    (E : Env) (n : Notification) (payload : Payload) (delay : ℕ) (error reason : Option String)
    → notification_id E (retry_payload n payload delay error reason) ≡ notification_id E payload
unfolding notification_id
retry-named E n payload delay error reason =
    ap (parse_id E) (
      dict_get-retry_payload n payload delay error reason "notification_id" refl refl refl refl
        refl)

retry-IsRoutable :
    (E : Env) (n : Notification) (payload : Payload) (delay : ℕ) (error reason : Option String)
    (e : OutboxEvent)
    → notification_id E payload ≡ ok n.id
    → e.aggregate_id ≡ n.id
    → e.payload ≡ retry_payload n payload delay error reason
    → IsRoutable E e
retry-IsRoutable E n payload delay error reason e named own body = record {
  named = rw body (rw own (retry-named E n payload delay error reason ∙ named));
  key = routing_key_for_notification_type n.type;
  routing = rw body (routing-retry_payload n payload delay error reason);
  known = routing_known n.type;
}

-- What a block adds to the outbox: nothing, or one event under a UUID that it draws.
abbrev pub Emits : (E : Env) → World E → World E → Type 0
Emits E w w' =
    Onward w w'
    × ((w'.db.outbox ≡ w.db.outbox)
        ⊎ ((k : ℕ) × (e : OutboxEvent) × (w.draws ≤ k)
            × (k < w'.draws)
            × (e.id ≡ E.uuid4 k)
            × (w'.db.outbox ≡ E.outbox.put e w.db.outbox)
            × (is_notice e.event_type ≡ true → IsRoutable E e)))

module _ {E : Env} where
  -- A step that only read the clock comes before.
  later-Emits :
      (w w₁ w' : World E)
      → w₁.db ≡ w.db
      → w₁.draws ≡ w.draws
      → w.reads ≤ w₁.reads
      → Emits E w₁ w'
      → Emits E w w'
  later-Emits w w₁ w' same draws reads ((more, on), inl quiet) =
      ((rw draws at more, omega (arith, reads, on)), inl (quiet ∙ ap (λ (d : Db E). d.outbox) same))
  later-Emits w w₁ w' same draws reads ((more, on), inr (k, e, from, below, id, put, routes)) = (
    (rw draws at more, omega (arith, reads, on)),
    inr (
      k,
      e,
      rw draws at from,
      below,
      id,
      put ∙ ap (λ (d : Db E). E.outbox.put e d.outbox) same,
      routes,
    ),
  )

  drop_before-Emits : (n : Notification) (w : World E) → Emits E w (drop_before_provider n w).1
  unfolding drop_before_provider add_failed
  drop_before-Emits n w = (
    (omega arith, omega arith),
    inr (suc (suc w.draws), _, omega arith, omega arith, refl, refl, λ h. ground arith),
  )

  begin-Emits :
      (n : Notification) (settings : Settings) (w : World E)
      → Emits E w (begin_attempt settings n w).1
  unfolding begin_attempt
  begin-Emits n settings w = ((omega arith, omega arith), inl refl)

  delivered-Emits :
      (n : Notification) (result : ProviderResult) (w : World E)
      → Emits E w (mark_delivered n result w).1
  unfolding mark_delivered
  delivered-Emits n result w = ((omega arith, omega arith), inl refl)

  drop-Emits :
      (n : Notification) (payload : Payload) (error : Option String) (w : World E)
      → Emits E w (drop n payload error w).1
  unfolding drop add_failed
  drop-Emits n payload error w = (
    (omega arith, omega arith),
    inr (suc (suc w.draws), _, omega arith, omega arith, refl, refl, λ h. ground arith),
  )

Emits-Change : {E : Env} → Change (Emits E)
Emits-Change = record {
  onward = λ w w' h. h.0;
  same = λ w w' more same. (more, inl (ap (λ (d : Db _). d.outbox) same));
  later = later-Emits;
}

module _ {E : Env} (n : Notification) (payload : Payload)
    (named : notification_id E payload ≡ ok n.id) where
  retry-Emits :
      (delay : ℕ) (at : Option ℕ) (error reason : Option String) (w : World E)
      → Emits E w (add_retry n payload delay at error reason w).1
  unfolding add_retry
  retry-Emits delay at error reason w = (
    (omega arith, omega arith),
    inr (
      w.draws,
      _,
      omega arith,
      omega arith,
      refl,
      refl,
      λ h. retry-IsRoutable E n payload delay error reason _ named refl refl,
    ),
  )

  waiting-Emits :
      (result : ProviderResult) (delay : ℕ) (w : World E)
      → Emits E w (schedule_retry (failed_row n result) payload result delay w).1
  unfolding schedule_retry add_retry
  waiting-Emits result delay w = (
    (omega arith, omega arith),
    inr (
      w.draws,
      _,
      omega arith,
      omega arith,
      refl,
      refl,
      λ h. retry-IsRoutable E _ payload _ _ _ _ named refl refl,
    ),
  )

module _ {E : Env} (unique : (i j : ℕ) → E.uuid4 i ≡ E.uuid4 j → i ≡ j) where
  Emits-Grows :
      (w w' : World E)
      → Emits E w w'
      → ((m : ℕ) × ((j : ℕ)
            → Evolves m
                (E.notifications.get j w.db.notifications)
                (E.notifications.get j w'.db.notifications)))
      → Grows w w'
  Emits-Grows w w' (more, inl same) (m, rows) =
      quiet-Grows w w' more same (λ j. Evolves-Going m w w' j (rows j))
        (λ j. Evolves-Tried m w w' j (rows j))
  Emits-Grows w w' (more, inr (k, e, from, below, id, put, routes)) (m, rows) =
      event-Grows unique w w' k e from below more.1 id put routes
        (λ j going. inl (Evolves-Going m w w' j (rows j) going))
        (λ j. Evolves-Tried m w w' j (rows j))

  -- `reserve` and `apply`, whatever they return or raise.
  pub reserve-Grows :
      (settings : Settings) (id : ℕ) (payload : Payload) (w : World E)
      → notification_id E payload ≡ ok id
      → Grows w (reserve settings id payload w).1
  reserve-Grows settings id payload w named =
      Emits-Grows w (reserve settings id payload w).1
        (reserve-Change Emits-Change settings id payload w (λ n found.
          let own : n.id ≡ id = E.notifications.get_key id n w.db.notifications found in
          reserve_row-Change Emits-Change settings n payload (retry-Emits n payload (rw own named))
            (drop_before-Emits n) (begin-Emits n settings) w))
        (settings.max_retries, λ j. reserve-Evolves settings id j payload w)

  pub apply-Grows :
      (policy : RetryPolicy) (id : ℕ) (payload : Payload) (result : ProviderResult) (w : World E)
      → notification_id E payload ≡ ok id
      → Grows w (apply policy id payload result w).1
  apply-Grows policy id payload result w named =
      Emits-Grows w (apply policy id payload result w).1
        (apply-Change Emits-Change policy id payload result w (λ n found.
          let own : n.id ≡ id = E.notifications.get_key id n w.db.notifications found in
          apply_row-Change Emits-Change policy n payload result (delivered-Emits n result)
            (drop-Emits (failed_row n result) payload result.error_message)
            (waiting-Emits n payload (rw own named) result) w))
        (policy.max_retries, λ j. apply-Evolves policy.max_retries policy id j payload result w)
