-- ===== src/System/Single.antt =====
-- One notification for each recipient of a batch, in the whole service.
use notification_test.Base.{
  ℕ, ◌≡◌, ◌⊎◌, inl, inr, refl, sym, ◌∙◌, ap, true, false, Option, none, some, [], arith, ◌==◌,
  ==_iff, Bool-cases, some_inj,
}
use mathlib.Core.Path.{subst}
use notification_test.Models.{Notification, Payload, BulkNotificationRequest}
use notification_test.Platform.{Env}
use notification_test.Config.{Settings}
use notification_test.World.{World}
use notification_test.Providers.{ProviderResult}
use notification_test.Services.BulkRows.{notification_conflict}
use notification_test.Services.Notifications.{add_recipient, add_created_event, insert_notification}
use notification_test.Services.Notifications.Creation.{row_of, none_selected}
use notification_test.Messaging.Topology.{Names}
use notification_test.Worker.RowSteps.{Evolves}
use notification_test.Worker.Attempts.{reserve}
use notification_test.Worker.Attempts.Rows.{reserve-Evolves}
use notification_test.Worker.ResultHandler.{apply}
use notification_test.Worker.ResultHandler.Rows.{apply-Evolves}
use notification_test.Worker.Processor.{policy_of}
use notification_test.System.Changes.{Onward, Onward-trans, Steady}
use notification_test.System.Rabbit.{Rabbit}
use notification_test.System.Keys.{cleanup_once-Steady}
use notification_test.System.Requests.{create_bulk-Steady}
use notification_test.System.Recipients.{add_recipient_lem}
use notification_test.System.Tracking.{Tracked, steps-Tracked}
use notification_test.System.Steps.{Service, IsFresh, Steps}

-- The rows of the table have different recipients in each batch.
abbrev pub IsSingle : (E : Env) → E.notifications.State → Type 0
IsSingle E t =
    (i j : ℕ) (n m : Notification)
    → E.notifications.get i t ≡ some n
    → E.notifications.get j t ≡ some m
    → n.batch_id ≡ m.batch_id
    → n.subscriber_id ≡ m.subscriber_id
    → i ≡ j

-- A row that was there before, for the same recipient.
evolved_from :
    (m : ℕ) (a b : Option Notification) (n' : Notification)
    → Evolves m a b
    → b ≡ some n'
    → (n : Notification) × (a ≡ some n)
      × (n'.batch_id ≡ n.batch_id)
      × (n'.subscriber_id ≡ n.subscriber_id)
evolved_from m none none n' h is = ground (arith, is)
evolved_from m none (some x) n' h is = absurd h
evolved_from m (some n) none n' h is = absurd h
evolved_from m (some n) (some x) n' (inl same) is =
    let one : n' ≡ n = sym (some_inj is) ∙ same in (n, refl, rw one refl, rw one refl)
evolved_from m (some n) (some x) n' (inr (step, same)) is =
    let one : n' ≡ x = sym (some_inj is) in
    (n, refl, rw one same.batch_id, rw one same.subscriber_id)

module _ (E : Env) where
  open E.notifications use {get, put, select, get-put}

  Evolves-IsSingle :
      (m : ℕ) (t t' : E.notifications.State)
      → ((j : ℕ) → Evolves m (get j t) (get j t'))
      → IsSingle E t
      → IsSingle E t'
  Evolves-IsSingle m t t' steps single i j n n' found other batch subscriber =
      let (x, was, xb, xs) = evolved_from m (get i t) (get i t') n (steps i) found in
      let (y, is, yb, ys) = evolved_from m (get j t) (get j t') n' (steps j) other in
      single i j x y was is (ground (arith, xb, yb, batch)) (ground (arith, xs, ys, subscriber))

  add_recipient_single :
      (request : BulkNotificationRequest) (b r : ℕ) (w : World E)
      → let w' = (add_recipient request b r w).1 in
        (w'.db.notifications ≡ w.db.notifications)
        ⊎ ((w'.db.notifications ≡ put (row_of request b r w) w.db.notifications)
            × (select (notification_conflict (row_of request b r w)) w.db.notifications ≡ []))
  unfolding add_recipient add_created_event insert_notification
  add_recipient_single request b r w = ground arith

  -- No row is for the recipient of a row that may be inserted.
  other_recipient :
      (n : Notification) (t : E.notifications.State)
      → select (notification_conflict n) t ≡ []
      → (j : ℕ) (y : Notification) → get j t ≡ some y
      → n.batch_id ≡ y.batch_id
      → n.subscriber_id ≡ y.subscriber_id
      → ⊥
  other_recipient n t free j y stored batch subscriber =
      let apart = none_selected E (notification_conflict n) t j y free stored in
      ground (
        arith,
        apart,
        batch,
        subscriber,
        ==_iff y.batch_id n.batch_id,
        ==_iff y.subscriber_id n.subscriber_id,
      )

  put-IsSingle :
      (n : Notification) (t : E.notifications.State)
      → select (notification_conflict n) t ≡ []
      → IsSingle E t
      → IsSingle E (put n t)
  put-IsSingle n t free single i j x y found other batch subscriber =
      elim (Bool-cases (n.id == i)) [
        | inl here ↦ elim (Bool-cases (n.id == j)) [
          | inl there ↦ sym ((==_iff n.id i).0 here) ∙ (==_iff n.id j).0 there
          | inr away ↦
              let is : n ≡ x = new i x here found in
              absurd (
                other_recipient n t free j y (old j y away other)
                  (ap (λ (z : Notification). z.batch_id) is ∙ batch)
                  (ap (λ (z : Notification). z.subscriber_id) is ∙ subscriber))
        ]
        | inr far ↦ elim (Bool-cases (n.id == j)) [
          | inl there ↦
              let is : n ≡ y = new j y there other in
              absurd (
                other_recipient n t free i x (old i x far found)
                  (ap (λ (z : Notification). z.batch_id) is ∙ sym batch)
                  (ap (λ (z : Notification). z.subscriber_id) is ∙ sym subscriber))
          | inr away ↦ single i j x y (old i x far found) (old j y away other) batch subscriber
        ]
      ]
    where
      old :
          (k : ℕ) (z : Notification)
          → (n.id == k) ≡ false
          → get k (put n t) ≡ some z
          → get k t ≡ some z
      old k z away stored = ground (arith, stored, get-put k n t, away)

      new : (k : ℕ) (z : Notification) → (n.id == k) ≡ true → get k (put n t) ≡ some z → n ≡ z
      new k z here stored = ground (arith, stored, get-put k n t, here)

module _ {E : Env} where
  -- A step that keeps this.
  abbrev Keeps : World E → World E → Type 0
  Keeps w w' = IsSingle E w.db.notifications → IsSingle E w'.db.notifications

  same-Keeps : (w w' : World E) → w'.db.notifications ≡ w.db.notifications → Keeps w w'
  same-Keeps w w' same single = subst (IsSingle E) (sym same) single

  Single-Steady : Steady (λ (w w' : World E). Onward w w' × Keeps w w')
  Single-Steady = record {
    onward = λ w w' k. k.0;
    trans = λ w w₁ w₂ k l. (Onward-trans w w₁ w₂ k.0 l.0, λ single. l.1 (k.1 single));
    quiet = λ w w' on outbox rows history. (on, same-Keeps w w' rows);
  }

  add_recipient-Keeps :
      (request : BulkNotificationRequest) (b r : ℕ) (w : World E)
      → Onward w (add_recipient request b r w).1 × Keeps w (add_recipient request b r w).1
  add_recipient-Keeps request b r w =
      let w' = (add_recipient request b r w).1 in
      let (draws, reads, put, _) = add_recipient_lem request b r w in
      (
        (omega (arith, draws), reads),
        λ single. elim (add_recipient_single E request b r w) [
          | inl same ↦ same-Keeps w w' same single
          | inr (added, free) ↦
              subst (IsSingle E) (sym added)
                (put-IsSingle E (row_of request b r w) w.db.notifications free single)
        ],
      )

  reserve-Keeps :
      (settings : Settings) (id : ℕ) (payload : Payload) (w : World E)
      → Keeps w (reserve settings id payload w).1
  reserve-Keeps settings id payload w =
      Evolves-IsSingle E settings.max_retries w.db.notifications
        (reserve settings id payload w).1.db.notifications
        (λ j. reserve-Evolves settings id j payload w)

  apply-Keeps :
      (settings : Settings) (id : ℕ) (payload : Payload) (result : ProviderResult) (w : World E)
      → Keeps w (apply (policy_of settings) id payload result w).1
  apply-Keeps settings id payload result w =
      Evolves-IsSingle E settings.max_retries w.db.notifications
        (apply (policy_of settings) id payload result w).1.db.notifications
        (λ j. apply-Evolves settings.max_retries (policy_of settings) id j payload result w)

Single-Tracked : {E : Env} (settings : Settings) → Tracked settings (Keeps {E = E})
Single-Tracked settings = record {
  stay = λ w single. single;
  trans = λ w w₁ w₂ k l single. l (k single);
  creates = λ request key w.
      (create_bulk-Steady Single-Steady request (add_recipient-Keeps request) settings key w).1;
  cleans = λ w. (cleanup_once-Steady Single-Steady w).1;
  marks = λ Sent w w' m. same-Keeps w w' m.notifications;
  reserves = reserve-Keeps settings;
  applies = apply-Keeps settings;
}

module _ {E : Env} {B M : Type 0} {names : Names} (rabbit : Rabbit B M names)
    (settings : Settings) where
  -- In whatever order the requests, the cleaner, the publishers and the workers take their steps from
  -- an empty database, a batch has at most one notification for each recipient.
  pub steps-IsSingle :
      (s s' : Service E B)
      → IsFresh s
      → Steps rabbit settings s s'
      → IsSingle E s'.world.db.notifications
  steps-IsSingle s s' fresh steps =
      steps-Tracked rabbit settings (Single-Tracked settings) s s' steps
        (λ i j n m found. ground (arith, found, fresh.notifications i))
