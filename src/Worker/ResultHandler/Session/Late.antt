-- ===== src/Worker/ResultHandler/Session/Late.antt =====
-- `apply` on an object that may be out of date, because other workers changed the row since it was
-- loaded.
use notification_test.Base.{
  ℕ, ◌≡◌, ◌⊎◌, inl, inr, refl, sym, ap, ◌∙◌, true, false, Option, none, some, arith, ◌==◌, ==_iff,
  str_eq, eq_iff, Bool-cases,
}
use notification_test.Exec.{Exec, Result-cases, ok, ◌>>=◌, or_raise, no_result_found}
use notification_test.Models.{
  Notification, NotificationStatus, queued, sent, delivered, dropped, is_final_status, Payload,
}
use notification_test.Platform.{Env}
use notification_test.World.{World, transaction}
use notification_test.Providers.{ProviderResult}
use notification_test.Services.RetryPolicy.{RetryPolicy}
use notification_test.Worker.RowSteps.{
  RowStep, begun, waiting, finished, SameNotice, Keeping, Keeping-refl, Writes, Evolves,
  Evolves-Keeps, Keeps-trans, step-Keeping,
}
use notification_test.Worker.ResultHandler.{apply_row}
use notification_test.Worker.ResultHandler.Rows.{apply_row-Writes}
use notification_test.Worker.ResultHandler.Session.{
  is_current, merged, flush, write_changes, apply_loaded, same_status?, same_status_refl,
}

-- What `apply` keeps of a row: what every worker does, and the number of attempts.
abbrev pub Touched : Option Notification → Option Notification → Type 0
Touched none none = Unit {0}
Touched (some n) (some n') = Keeping n n' × (n'.attempts ≡ n.attempts)
Touched _ _ = ⊥

Touched-refl : (o : Option Notification) → Touched o o
Touched-refl none = tt
Touched-refl (some n) = (Keeping-refl n, refl)

Evolves-Touched : (a b : Option Notification) → Evolves 0 a b → Touched a b
Evolves-Touched none none h = tt
Evolves-Touched (some n) none h = absurd h
Evolves-Touched none (some n) h = absurd h
Evolves-Touched (some n) (some n') h = (Evolves-Keeps 0 (some n) (some n') h, same h)
  where
    same : Evolves 0 (some n) (some n') → n'.attempts ≡ n.attempts
    same (inl e) = rw e refl
    same (inr (begun _ left _ _, _)) = absurd (omega (arith, left))
    same (inr (waiting _ kept _, _)) = kept
    same (inr (finished _ kept _, _)) = kept

same_status-eq : (s t : NotificationStatus) → same_status? s t ≡ true → s ≡ t
same_status-eq queued queued h = refl
same_status-eq sent sent h = refl
same_status-eq delivered delivered h = refl
same_status-eq dropped dropped h = refl
same_status-eq queued sent h = ground (arith, h)
same_status-eq queued delivered h = ground (arith, h)
same_status-eq queued dropped h = ground (arith, h)
same_status-eq sent queued h = ground (arith, h)
same_status-eq sent delivered h = ground (arith, h)
same_status-eq sent dropped h = ground (arith, h)
same_status-eq delivered queued h = ground (arith, h)
same_status-eq delivered sent h = ground (arith, h)
same_status-eq delivered dropped h = ground (arith, h)
same_status-eq dropped queued h = ground (arith, h)
same_status-eq dropped sent h = ground (arith, h)
same_status-eq dropped delivered h = ground (arith, h)

-- The columns of an object that is current, as far as the steps of the row ask for them.
record Current (n row : Notification) : Type 0 where
  same : SameNotice row n
  attempts : n.attempts ≡ row.attempts
  status : n.status ≡ row.status

current_lem : (n row : Notification) → is_current n row ≡ true → Current n row
unfolding is_current
current_lem n row h =
    let id : (n.id == row.id) ≡ true = ground (arith, h) in
    let batch : (n.batch_id == row.batch_id) ≡ true = ground (arith, h) in
    let subscriber : (n.subscriber_id == row.subscriber_id) ≡ true = ground (arith, h) in
    let channel : str_eq n.channel row.channel ≡ true = ground (arith, h) in
    let type : str_eq n.type row.type ≡ true = ground (arith, h) in
    let message : str_eq n.message row.message ≡ true = ground (arith, h) in
    let status : same_status? n.status row.status ≡ true = ground (arith, h) in
    let attempts : (n.attempts == row.attempts) ≡ true = ground (arith, h) in
    let created : (n.created_at == row.created_at) ≡ true = ground (arith, h) in
    record {
      same = record {
        id = (==_iff n.id row.id).0 id;
        batch_id = (==_iff n.batch_id row.batch_id).0 batch;
        subscriber_id = (==_iff n.subscriber_id row.subscriber_id).0 subscriber;
        channel = (eq_iff n.channel row.channel).0 channel;
        type = (eq_iff n.type row.type).0 type;
        message = (eq_iff n.message row.message).0 message;
        created_at = (==_iff n.created_at row.created_at).0 created;
      };
      attempts = (==_iff n.attempts row.attempts).0 attempts;
      status = same_status-eq n.status row.status status;
    }

-- The object as `apply_row` left it: it did not change the row, or changed its own.
abbrev Left : Notification → Notification → Notification → Type 0
Left n object row = (object ≡ row) ⊎ RowStep 0 n object

merged-ended :
    (n object row : Notification)
    → Left n object row
    → is_final_status row.status ≡ true
    → is_final_status (merged n object row).status ≡ true
merged-ended n object row left final = elim (Bool-cases (same_status? n.status object.status)) [
  | inl same ↦ rw same final
  | inr changed ↦ rw changed (go left changed)
]
  where
    go :
        Left n object row
        → same_status? n.status object.status ≡ false
        → is_final_status object.status ≡ true
    go (inl e) changed = rw e final
    go (inr (begun _ few _ _)) changed = absurd (omega (arith, few))
    go (inr (waiting _ _ kept)) changed =
        let same : same_status? n.status object.status ≡ true =
          rw kept (same_status_refl n.status) in
        ground (arith, same, changed)
    go (inr (finished _ _ over)) changed = over

merged-Touched :
    (n object row : Notification)
    → Left n object row
    → Touched (some row) (some (merged n object row))
merged-Touched n object row left = (
  record { same = ground arith; attempts = omega arith; ended = merged-ended n object row left },
  refl,
)

-- The object was current, and its row was written as `apply_row` left it.
Current-Touched :
    (n object row : Notification)
    → Current n row
    → RowStep 0 n object
    → SameNotice n object
    → Touched (some row) (some object)
Current-Touched n object row c step same =
    let loaded : Keeping row n = record {
      same = c.same;
      attempts = omega (arith, c.attempts);
      ended = λ final. rw c.status final;
    } in
    (
      Keeps-trans (some row) (some n) (some object) loaded (step-Keeping 0 n object step same),
      attempts_lem step ∙ c.attempts,
    )
  where
    attempts_lem : RowStep 0 n object → object.attempts ≡ n.attempts
    attempts_lem (begun _ left _ _) = absurd (omega (arith, left))
    attempts_lem (waiting _ kept _) = kept
    attempts_lem (finished _ kept _) = kept

module _ (E : Env) (n row : Notification) (s : E.notifications.State)
    (found : E.notifications.get row.id s ≡ some row) where
  open E.notifications use {get, put, get-put}

  -- A table that differs from `s` in that row only.
  put-Touched :
      (x : Notification) (s' : E.notifications.State) (j : ℕ)
      → x.id ≡ row.id
      → Touched (some row) (some x)
      → ((row.id == j) ≡ false → get j s' ≡ get j s)
      → Touched (get j s) (get j (put x s'))
  put-Touched x s' j own touched others = elim (Bool-cases (row.id == j)) [
    | inl here ↦
        let e : row.id ≡ j = (==_iff row.id j).0 here in
        let mine : (x.id == j) ≡ true = (==_iff x.id j).1 (own ∙ e) in
        rw (get-put j x s', mine) (rw (← e) (rw found touched))
    | inr away ↦
        let other : (x.id == j) ≡ false = rw own away in
        rw (get-put j x s', other) (rw (others away) (Touched-refl (get j s)))
  ]

  flush-Touched :
      (w : World E) (j : ℕ)
      → n.id ≡ row.id
      → Writes E 0 n s w.db.notifications
      → Touched (get j s) (get j (flush n row w).1.db.notifications)
  unfolding flush
  flush-Touched w j own written = elim (Bool-cases (is_current n row)) [
    | inl current ↦ rw current (unchanged written (current_lem n row current))
    | inr stale ↦ rw stale (changed written)
  ]
    where
      unchanged :
          Writes E 0 n s w.db.notifications
          → Current n row
          → Touched (get j s) (get j w.db.notifications)
      unchanged (inl e) c = rw e (Touched-refl (get j s))
      unchanged (inr (object, step, same, e)) c = rw e (
          put-Touched object s j (same.id ∙ own) (Current-Touched n object row c step same)
            (λ away. refl))

      changed :
          Writes E 0 n s w.db.notifications
          → Touched
              (get j s)
              (get j (write_changes n row (get row.id w.db.notifications) w).1.db.notifications)
      changed (inl e) =
          let here : get row.id w.db.notifications ≡ some row = rw e found in
          rw here (
            put-Touched (merged n row row) w.db.notifications j refl
              (merged-Touched n row row (inl refl)) (λ away. rw e refl))
      changed (inr (object, step, same, e)) =
          let mine : (object.id == row.id) ≡ true = (==_iff object.id row.id).1 (same.id ∙ own) in
          let here : get row.id w.db.notifications ≡ some object =
            rw e (rw (get-put row.id object s, mine) refl) in
          rw here (
            put-Touched (merged n object row) w.db.notifications j refl
              (merged-Touched n object row (inr step))
              (λ away. rw e (
                let other : (object.id == j) ≡ false = rw (same.id ∙ own) away in
                rw (get-put j object s, other) refl)))

flush_ok : {E : Env} (n row : Notification) (w : World E) → (flush n row w).0 ≡ ok tt
unfolding flush
flush_ok {E} n row w = ground arith

-- A block and the flush after it.
transaction_of :
    {E : Env} (block flushing : Exec (World E) (Unit {0})) (w : World E) {u : Unit {0}}
    → (block w).0 ≡ ok u
    → (flushing (block w).1).0 ≡ ok tt
    → (transaction (block >>= λ _. flushing) w).1 ≡ (flushing (block w).1).1
transaction_of block flushing w h k = ground (arith, h, k)

-- Whatever `apply` returns or raises on an object `n` that may be out of date, no row of a notification
-- is added or lost, its recipient, its message and its number of attempts do not change, and once it is
-- delivered or dropped it stays one of these.
pub apply_loaded-Touched :
    {E : Env} (policy : RetryPolicy) (n : Notification) (payload : Payload)
    (result : ProviderResult) (w : World E) (j : ℕ)
    → Touched
        (E.notifications.get j w.db.notifications)
        (E.notifications.get j (apply_loaded policy n n.id payload result w).1.db.notifications)
unfolding apply_loaded
apply_loaded-Touched {E} policy n payload result w j =
    go (E.notifications.get n.id w.db.notifications) refl
  where
    go :
        (found : Option Notification)
        → E.notifications.get n.id w.db.notifications ≡ found
        → Touched (E.notifications.get j w.db.notifications) (
            E.notifications.get j
              (transaction
                (or_raise found no_result_found >>= λ row.
                  apply_row policy n payload result >>= λ _. flush n row)
                w).1.db.notifications)
    go none missing = Touched-refl (E.notifications.get j w.db.notifications)
    go (some row) found =
        let own : row.id ≡ n.id = E.notifications.get_key n.id row w.db.notifications found in
        let ran = apply_row policy n payload result w in
        let written = apply_row-Writes policy n payload result 0 w in
        elim (Result-cases ran.0) [
          | inl (u, e) ↦
              let same =
                transaction_of (apply_row policy n payload result) (flush n row) w e
                  (flush_ok n row ran.1) in
              rw same (
                flush-Touched E n row w.db.notifications
                  (ap (λ i. E.notifications.get i w.db.notifications) own ∙ found) ran.1 j (sym own)
                  written)
          | inr (x, e) ↦
              let same : (transaction (apply_row policy n payload result >>= λ _. flush n row)
                    w).1.db
                  ≡ w.db =
                ground (arith, e) in
              rw same (Touched-refl (E.notifications.get j w.db.notifications))
        ]
