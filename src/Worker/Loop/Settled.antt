-- ===== src/Worker/Loop/Settled.antt =====
-- app/worker/main.py: what a turn of the worker does with the message that it takes.
use notification_test.Base.{
  ℕ, ◌<◌, ◌≡◌, ◌≢◌, ◌⊎◌, inl, inr, refl, String, true, Option, none, some, List, [], ◌∷◌, arith,
  leb, leb→le, Bool-cases, Option-cases, Has,
}
use notification_test.Exec.{Result, Result-cases, ok, err, Error}
use notification_test.Models.{Notification, Payload, OutboxEvent, is_final_status}
use notification_test.Platform.{Env}
use notification_test.World.{Db, World, Node}
use notification_test.Config.{Settings}
use notification_test.Worker.Attempts.{redelivers, reserve, reserve_row}
use notification_test.Worker.Attempts.Rows.{active}
use notification_test.Worker.Attempts.Outcomes.{reserve_hands_out}
use notification_test.Worker.Attempts.Deferral.{Deferred, reserve-Deferred}
use notification_test.Worker.Attempts.Outstanding.{Followed, redelivers_at, put-Followed}
use notification_test.Worker.ResultHandler.Outcomes.{apply-Outcome}
use notification_test.Worker.Processor.{
  Send, notification_id, find_provider, process, policy_of, send_to_provider,
}
use notification_test.Worker.Processor.Calls.{outcome, process_sends, process_idle}
use notification_test.Worker.Processor.Reserved.{reserve_begins, reserve_drops}
use notification_test.Worker.Loop.{Consumer, Body, object, handle, poll, turn}

-- The notification is there, and is final or has an outstanding event.
abbrev pub Kept : (E : Env) → ℕ → Db E → Type 0
Kept E id d =
    (n : Notification) × (E.notifications.get id d.notifications ≡ some n) × Followed E d n

active_until :
    (n : Notification) (now : ℕ)
    → active n now ≡ true
    → (until : ℕ) × (n.processing_lock_until ≡ some until)
active_until n now h = elim (Option-cases n.processing_lock_until) [
  | inl free ↦ ground (arith, free, h)
  | inr (until, e) ↦ (until, e)
]

-- A message that is put off, `rows` being the outstanding events.
Deferred-Kept :
    {E : Env} (id : ℕ) (n : Notification) (payload : Payload) (until : ℕ) (w : World E)
    (r : Result (Option Notification) × World E)
    → E.notifications.get id w.db.notifications ≡ some n
    → n.processing_lock_until ≡ some until
    → (rows : List OutboxEvent) → E.outbox.select (redelivers n) w.db.outbox ≡ rows
    → Deferred n payload until rows w r
    → r.0 ≡ ok none
    → Kept E id r.1.db
Deferred-Kept {E} id n payload until w r found lock [] open_ d answer =
    let (now, e, is, put) = d.added refl in
    (
      n,
      ground (arith, found, d.notifications),
      put-Followed E r.1.db w.db.outbox n e
          (redelivers_at n e until is.aggregate is.type is.status is.available lock) put,
    )
Deferred-Kept {E} id n payload until w r found lock (x ∷ []) open_ d answer =
    let same = d.left x (inl refl) in
    let there : Has x (E.outbox.select (redelivers n) r.1.db.outbox) =
      rw same (rw open_ (inl refl)) in
    (n, ground (arith, found, d.notifications), inr (x, there))
Deferred-Kept {E} id n payload until w r found lock (x ∷ y ∷ rows) open_ d answer =
    ground (arith, d.answer, answer)

module _ {E : Env} (settings : Settings) (id : ℕ) (n : Notification) (payload : Payload)
    (w : World E) (found : E.notifications.get id w.db.notifications ≡ some n) where
  final_reserve :
      is_final_status n.status ≡ true
      → ((reserve settings id payload w).0 ≡ ok none)
        × ((reserve settings id payload w).1.db ≡ w.db)
  unfolding reserve reserve_row
  final_reserve final = (ground (arith, found, final), ground (arith, found, final))

  -- If `reserve` hands out nothing for a notification that is there, then it is final or has an
  -- outstanding event.
  pub idle-Kept :
      (reserve settings id payload w).0 ≡ ok none → Kept E id (reserve settings id payload w).1.db
  idle-Kept answer = elim (Bool-cases (is_final_status n.status)) [
    | inl final ↦ let (_, same) = final_reserve final in (n, rw same found, inl final)
    | inr going ↦ elim (Bool-cases (active n (E.clock w.reads))) [
      | inl held ↦
          let (until, lock) = active_until n (E.clock w.reads) held in
          Deferred-Kept id n payload until w (reserve settings id payload w) found lock _ refl
            (reserve-Deferred settings id n payload until lock w found going held) answer
      | inr unlocked ↦ elim (Bool-cases (leb settings.max_retries n.attempts)) [
        | inl spent ↦
            let (_, (n', is, now)) =
              reserve_drops settings id n payload w found going unlocked
                (leb→le settings.max_retries n.attempts spent) in
            (n', now, inl (rw is refl))
        | inr left ↦
            let more : n.attempts < settings.max_retries = ground arith in
            let (n', handed) = reserve_begins settings id n payload w found going unlocked more in
            ground (arith, answer, handed)
      ]
    ]
  ]

module _ {E : Env} {P : Type 0} (custom : String → Option (Send P))
    (build : String → Result (Send P)) (settings : Settings) (d : ℕ) (ds : List ℕ)
    (delays : settings.retry_backoff_list ≡ d ∷ ds) (payload : Payload) (id : ℕ)
    (named : notification_id E payload ≡ ok id) (s : Node E P) where
  raises :
      (x : Error)
      → (reserve settings id payload s.world).0 ≡ err x
      → (process custom build settings payload s).0 ≡ err x
  unfolding process
  raises x e = ground (arith, named, e)

  unprovided :
      (n : Notification) (x : Error)
      → (reserve settings id payload s.world).0 ≡ ok (some n)
      → find_provider custom build n.channel ≡ err x
      → (process custom build settings payload s).0 ≡ err x
  unfolding process send_to_provider
  unprovided n x handed none_ = ground (arith, named, handed, none_)

  -- After an attempt.
  sent-Kept :
      (n : Notification) (send : Send P)
      → (reserve settings id payload s.world).0 ≡ ok (some n)
      → find_provider custom build n.channel ≡ ok send
      → Kept E id (process custom build settings payload s).1.world.db
  sent-Kept n send handed provided =
      let (m, was, begun, stored) = reserve_hands_out settings id payload s.world n handed in
      let (_, world) =
        process_sends custom build settings payload s id named n send handed provided in
      let (_, (n'', _, now, followed)) =
        apply-Outcome (policy_of settings) d ds delays n payload
          (outcome E (send n.subscriber_id n.message (E.uuid_str n.id) s.outside).0) id
          (reserve settings id payload s.world).1 stored (rw begun.status refl)
          (omega (arith, begun.attempts)) in
      (n'', rw world now, rw world followed)

  pub processed-Kept :
      (n : Notification)
      → E.notifications.get id s.world.db.notifications ≡ some n
      → ((x : Error) → (process custom build settings payload s).0 ≢ err x)
      → Kept E id (process custom build settings payload s).1.world.db
  processed-Kept n found returns = elim (Result-cases (reserve settings id payload s.world).0) [
    | inl (none, answer) ↦
        let (_, world) =
          process_idle custom build settings payload s id named
            (λ m e. ground (arith, answer, e)) in
        rw world (idle-Kept settings id n payload s.world found answer)
    | inl (some n', handed) ↦ elim (Result-cases (find_provider custom build n'.channel)) [
      | inl (send, provided) ↦ sent-Kept n' send handed provided
      | inr (x, missing) ↦ absurd (returns x (unprovided n' x handed missing))
    ]
    | inr (x, e) ↦ absurd (returns x (raises x e))
  ]

  -- A turn that takes a message for a notification that is there gives the message back to its
  -- queue, or acknowledges it and leaves the notification final or with an outstanding event that
  -- brings it back when its lock ends or later. A delay has to be configured.
  pub turn-Kept :
      {B M : Type 0} (consumer : Consumer B M) (loads : M → Body) (queues : List String) (b b' : B)
      (m : M) (n : Notification)
      → poll consumer queues b ≡ (ok (some m), b')
      → loads m ≡ object payload
      → E.notifications.get id s.world.db.notifications ≡ some n
      → let after = (turn custom build settings consumer loads queues (s, b)).1 in
        (after.1 ≡ (consumer.reject true m b').1)
        ⊎ ((after.1 ≡ (consumer.ack m b').1) × Kept E id after.0.world.db)
  unfolding turn handle
  turn-Kept consumer loads queues b b' m n taken body found =
      elim (Result-cases (process custom build settings payload s).0) [
        | inl (a, returned) ↦
            let kept = processed-Kept n found (λ x e. ground (arith, returned, e)) in
            inr (ground (arith, taken, body, returned), ground (arith, taken, body, returned, kept))
        | inr (x, raised) ↦ inl (ground (arith, taken, body, raised))
      ]
