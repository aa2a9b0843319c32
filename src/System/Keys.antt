-- ===== src/System/Keys.antt =====
-- What the work on the idempotency keys leaves of the outbox and of the notifications.
use notification_test.Base.{ℕ, suc, ◌≡◌, refl, String, Option, none, some, List, [], ◌∷◌, arith}
use notification_test.Models.{IdempotencyKey, NotificationBatch}
use notification_test.Platform.{Env}
use notification_test.World.{World}
use notification_test.Services.Idempotency.{
  delete_key, clear_batch, release_batch, drop_expired, add_record, reserve_existing,
  reserve_or_get, release_batches, delete_keys,
}
use notification_test.Services.Idempotency.Owners.{released, gone, expired}
use notification_test.Services.IdempotencyCleaner.{cleanup_once}
use notification_test.Services.IdempotencyCleaner.Rounds.{once_lem}
use notification_test.System.Changes.{Onward, stays, Steady, bind-Steady}

module _ {E : Env} where
  -- The tables of the notifications, of their history and of the events are left alone.
  abbrev pub Quiet : World E → World E → Type 0
  Quiet w w' =
      Onward w w'
      × (w'.db.outbox ≡ w.db.outbox)
      × (w'.db.notifications ≡ w.db.notifications)
      × (w'.db.history ≡ w.db.history)

  pub Quiet-Steady :
      {R : World E → World E → Type 0} (s : Steady R) (w w' : World E) → Quiet w w' → R w w'
  Quiet-Steady s w w' (more, outbox, rows, history) = s.quiet w w' more outbox rows history

  release_batch-Quiet : (b : Option ℕ) (w : World E) → Quiet w (release_batch b w).1
  unfolding release_batch
  release_batch-Quiet none w = (stays w, refl, refl, refl)
  release_batch-Quiet (some id) w = cleared (E.batches.get id w.db.batches)
    where
      cleared : (found : Option NotificationBatch) → Quiet w (clear_batch found w).1
      cleared none = ((omega arith, omega arith), refl, refl, refl)
      cleared (some b) = ((omega arith, omega arith), refl, refl, refl)

  drop_expired-Quiet :
      (found : Option IdempotencyKey) (w : World E) → Quiet w (drop_expired found w).1
  unfolding drop_expired
  drop_expired-Quiet none w = (stays w, refl, refl, refl)
  drop_expired-Quiet (some r) w =
      ground (arith, release_batch-Quiet r.batch_id (record w { reads = suc w.reads }))

  reserve_existing-Quiet :
      (ttl : ℕ) (key hash : String) (found : Option IdempotencyKey) (w : World E)
      → Quiet w (reserve_existing ttl key hash found w).1
  unfolding reserve_existing add_record
  reserve_existing-Quiet ttl key hash none w = ground arith
  reserve_existing-Quiet ttl key hash (some r) w = ground arith

  release_batches-Quiet :
      (rs : List IdempotencyKey) (w : World E) → Quiet w (release_batches rs w).1
  unfolding release_batches
  release_batches-Quiet [] w = (stays w, refl, refl, refl)
  release_batches-Quiet (r ∷ rs) w = ground (
    arith,
    release_batch-Quiet r.batch_id w,
    release_batches-Quiet rs (release_batch r.batch_id w).1,
  )

  delete_keys-Quiet : (rs : List IdempotencyKey) (w : World E) → Quiet w (delete_keys rs w)
  delete_keys-Quiet [] w = (stays w, refl, refl, refl)
  delete_keys-Quiet (r ∷ rs) w = delete_keys-Quiet rs (delete_key r.key w)

module _ {E : Env} {R : World E → World E → Type 0} (s : Steady R) where
  pub reserve_or_get-Steady :
      (ttl : ℕ) (key hash : String) (w : World E) → R w (reserve_or_get ttl key hash w).1
  unfolding reserve_or_get
  reserve_or_get-Steady ttl key hash w =
      bind-Steady s (drop_expired (E.keys.get key w.db.keys)) (reserve_existing ttl key hash) w
        (Quiet-Steady s w (drop_expired (E.keys.get key w.db.keys) w).1
          (drop_expired-Quiet (E.keys.get key w.db.keys) w))
        (λ found.
          let w₁ = (drop_expired (E.keys.get key w.db.keys) w).1 in
          Quiet-Steady s w₁ (reserve_existing ttl key hash found w₁).1
            (reserve_existing-Quiet ttl key hash found w₁))

  -- A round of the cleaner.
  pub cleanup_once-Steady : (w : World E) → R w (cleanup_once w).1
  cleanup_once-Steady w =
      let w₀ : World E = record w { reads = suc w.reads } in
      let w₁ : World E = record (released w) { reads = suc (released w).reads } in
      rw (once_lem w) (
        s.trans w w₁ (delete_keys (gone w) w₁)
          (Quiet-Steady s w w₁ (ground (arith, release_batches-Quiet (expired w) w₀)))
          (Quiet-Steady s w₁ (delete_keys (gone w) w₁) (delete_keys-Quiet (gone w) w₁)))
