-- ===== src/Worker/Progress.antt =====
-- app/worker: a notification comes to an end, however the workers and their messages interleave.
use notification_test.Base.{
  ℕ, zero, suc, ◌≤◌, ◌<◌, ◌≡◌, ◌⊎◌, inl, inr, refl, sym, ◌∙◌, ap, String, true, false, Option, none,
  some, List, [], ◌∷◌, arith, Bool-cases, some_inj,
}
use notification_test.Exec.{Result, Result-cases, ok}
use notification_test.Models.{Notification, Payload, is_final_status}
use notification_test.Platform.{Env}
use notification_test.Config.{Settings}
use notification_test.World.{World, Node}
use notification_test.Worker.Attempts.{reserve}
use notification_test.Worker.Attempts.Rows.{active}
use notification_test.Worker.Attempts.Outcomes.{reserve_hands_out}
use notification_test.Worker.Processor.Calls.{outcome, process_sends, process_idle}
use mathlib.Core.Path.{subst}
use notification_test.Providers.{ProviderResult}
use notification_test.Services.RetryPolicy.{RetryPolicy}
use notification_test.Worker.ResultHandler.{apply}
use notification_test.Worker.ResultHandler.Session.{apply_loaded, apply_loaded_fresh}
use notification_test.Worker.RowSteps.{Keeps, Keeping}
use notification_test.Worker.Runs.{
  Call, reserves, applies, run, run-Keeps, attempts-sends, attempts_of,
}
use notification_test.Worker.Processor.{Send, notification_id, find_provider, process, policy_of}
use notification_test.Worker.Processor.Rounds.{process-Advances}

-- The object that `reserve` returned is the row as long as no other worker came in between.
loaded_lem :
    {E : Env} (policy : RetryPolicy) (id : ℕ) (n : Notification) (payload : Payload)
    (result : ProviderResult) (w : World E)
    → n.id ≡ id
    → E.notifications.get id w.db.notifications ≡ some n
    → apply policy id payload result w ≡ apply_loaded policy n n.id payload result w
loaded_lem {E} policy id n payload result w own found =
    ap (λ i. apply policy i payload result w) (sym own)
    ∙ sym (
        apply_loaded_fresh policy n n.id payload result w
          (ap (λ i. E.notifications.get i w.db.notifications) own ∙ found))

module _ {E : Env} {P : Type 0} (custom : String → Option (Send P))
    (build : String → Result (Send P)) (settings : Settings) (id : ℕ) where
  -- A history of the platform in which `k` messages for the notification were processed by workers
  -- that no crash interrupted, each when the notification was not under an active lock. Between
  -- these, workers run any transactions, and the providers change their state.
  pub data History (s : Node E P) : ℕ → Node E P → Type 0 where
    start : History s zero s
    between :
        {k : ℕ} {t : Node E P}
        → History s k t
        → (cs : List Call) (u : Node E P) → u.world ≡ run settings cs t.world
        → History s k u
    processed :
        {k : ℕ} {t : Node E P}
        → History s k t
        → (payload : Payload) → notification_id E payload ≡ ok id
        → ((n : Notification)
            → E.notifications.get id t.world.db.notifications ≡ some n
            → active n (E.clock t.world.reads) ≡ false)
        → (u : Node E P) → u ≡ (process custom build settings payload t).1
        → History s (suc k) u

  -- A message is processed by the transactions of a run.
  pub process-run :
      (payload : Payload) (s : Node E P) (n : Notification) (send : Send P)
      → notification_id E payload ≡ ok id
      → E.notifications.get id s.world.db.notifications ≡ some n
      → find_provider custom build n.channel ≡ ok send
      → (cs : List Call) × ((process custom build settings payload s).1.world
          ≡ run settings cs s.world)
  unfolding run
  process-run payload s n send named found provided =
      elim (Result-cases (reserve settings id payload s.world).0) [
        | inl (none, e) ↦ (
          reserves id payload ∷ [],
          (process_idle custom build settings payload s id named (λ m h. ground (arith, e, h))).1,
        )
        | inl (some n', e) ↦
            let (m, was, begun, stored) = reserve_hands_out settings id payload s.world n' e in
            let one : m ≡ n = some_inj (sym was ∙ found) in
            let same : n'.channel ≡ n.channel =
              begun.same.channel ∙ ap (λ (x : Notification). x.channel) one in
            (
              reserves id payload
                  ∷ applies n' payload
                      (outcome E (send n'.subscriber_id n'.message (E.uuid_str n'.id) s.outside).0)
                  ∷ [],
              (process_sends custom build settings payload s id named n' send e
                    (rw same provided)).1
                  ∙ ap (λ (x : Result (Unit {0}) × World E). x.1)
                      (loaded_lem (policy_of settings) id n' payload _ _
                        (begun.same.id ∙ E.notifications.get_key id m s.world.db.notifications was)
                        stored),
            )
        | inr (x, e) ↦ (
          reserves id payload ∷ [],
          (process_idle custom build settings payload s id named (λ m h. ground (arith, e, h))).1,
        )
      ]

-- What is known of the row after `k` rounds.
abbrev Known : Settings → String → ℕ → Option Notification → Type 0
Known settings channel k found =
    (n : Notification) × (found ≡ some n)
    × (n.channel ≡ channel)
    × ((is_final_status n.status ≡ true)
        ⊎ ((k ≤ n.attempts) × ((k ≡ 0) ⊎ (k < settings.max_retries))))

pub Keeps-row :
    (a b : Option Notification) (n : Notification)
    → Keeps a b
    → a ≡ some n
    → (n' : Notification) × (b ≡ some n') × Keeping n n'
Keeps-row none none n h e = ground arith
Keeps-row (some m) (some n') n h e = (n', refl, subst (λ x. Keeping x n') (some_inj e) h)
Keeps-row (some m) none n h e = absurd h
Keeps-row none (some m) n h e = absurd h

module _ {E : Env} (settings : Settings) (id : ℕ) (channel : String) where
  run-Known :
      (k : ℕ) (cs : List Call) (w : World E)
      → Known settings channel k (E.notifications.get id w.db.notifications)
      → Known settings channel k (E.notifications.get id (run settings cs w).db.notifications)
  run-Known k cs w (n, found, same, inl final) =
      let (n', found', kept) =
        Keeps-row (E.notifications.get id w.db.notifications) _ n (run-Keeps settings cs w id)
          found in
      (n', found', kept.same.channel ∙ same, inl (kept.ended final))
  run-Known k cs w (n, found, same, inr (spent, left)) =
      let (n', found', kept) =
        Keeps-row (E.notifications.get id w.db.notifications) _ n (run-Keeps settings cs w id)
          found in
      let grown = attempts-sends settings id cs w in
      let before : attempts_of (E.notifications.get id w.db.notifications) ≡ n.attempts =
        rw found refl in
      let now : attempts_of (E.notifications.get id (run settings cs w).db.notifications)
          ≡ n'.attempts =
        rw found' refl in
      (n', found', kept.same.channel ∙ same, inr (omega (arith, grown), left))

module _ {E : Env} {P : Type 0} (custom : String → Option (Send P))
    (build : String → Result (Send P)) (settings : Settings) (d : ℕ) (ds : List ℕ)
    (delays : settings.retry_backoff_list ≡ d ∷ ds) (id : ℕ) (channel : String) (send : Send P)
    (provided : find_provider custom build channel ≡ ok send) where
  processed-Known :
      (k : ℕ) (payload : Payload) (t : Node E P)
      → notification_id E payload ≡ ok id
      → ((n : Notification)
          → E.notifications.get id t.world.db.notifications ≡ some n
          → active n (E.clock t.world.reads) ≡ false)
      → Known settings channel k (E.notifications.get id t.world.db.notifications)
      → Known settings channel (suc k) (
          E.notifications.get id (process custom build settings payload t).1.world.db.notifications)
  processed-Known k payload t named unlocked (n, found, same, known) =
      let has : find_provider custom build n.channel ≡ ok send = rw same provided in
      let (cs, ran) = process-run custom build settings id payload t n send named found has in
      elim (Bool-cases (is_final_status n.status)) [
        | inl final ↦
            let (n', found', kept) =
              Keeps-row (E.notifications.get id t.world.db.notifications) _ n
                (run-Keeps settings cs t.world id) found in
            (n', rw ran found', kept.same.channel ∙ same, inl (kept.ended final))
        | inr going ↦
            let (n', now, step) =
              process-Advances custom build settings d ds delays payload id named t n send found
                going (unlocked n found) has in
            let (m, here, kept) =
              Keeps-row (E.notifications.get id t.world.db.notifications) _ n
                (run-Keeps settings cs t.world id) found in
            let one : m ≡ n' = some_inj (sym here ∙ rw ran at now) in
            (
              n',
              now,
              ap (λ (x : Notification). x.channel) (sym one) ∙ kept.same.channel ∙ same,
              ground (arith, step, known, going),
            )
      ]

  -- A notification whose channel has a provider is final once `max_retries` of its messages, and at
  -- least one, were processed while it was not under an active lock, whatever the providers did and
  -- whatever other workers did in between. A delay has to be configured.
  pub History-final :
      (s t : Node E P) (k : ℕ) (n : Notification)
      → History custom build settings id s k t
      → E.notifications.get id s.world.db.notifications ≡ some n
      → n.channel ≡ channel
      → settings.max_retries ≤ k
      → 0 < k
      → (n' : Notification) × (E.notifications.get id t.world.db.notifications ≡ some n')
        × (is_final_status n'.status ≡ true)
  History-final s t k n h found same enough some_round =
      let (n', now, _, known) = History-Known h (n, found, same, inr (omega arith, inl refl)) in
      (n', now, ground (arith, known, enough, some_round))
    where
      History-Known :
          {k : ℕ} {t : Node E P}
          → History custom build settings id s k t
          → Known settings channel zero (E.notifications.get id s.world.db.notifications)
          → Known settings channel k (E.notifications.get id t.world.db.notifications)
      History-Known start known = known
      History-Known (between {k} {t} h cs u e) known =
          rw e (run-Known settings id channel k cs t.world (History-Known h known))
      History-Known (processed {k} {t} h payload named unlocked u e) known =
          rw e (processed-Known k payload t named unlocked (History-Known h known))
