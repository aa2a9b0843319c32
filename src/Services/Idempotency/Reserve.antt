-- ===== src/Services/Idempotency/Reserve.antt =====
-- What `reserve_or_get` answers, and what it leaves of the tables.
use notification_test.Base.{ℕ, suc, String, ◌≡◌, refl, ◌∙◌, Option, none, some, arith, eq_iff}
use notification_test.Exec.{ok, >>=_ok}
use notification_test.Models.{IdempotencyKey}
use notification_test.Platform.{Env}
use notification_test.World.{World}
use notification_test.Services.Idempotency.{
  release_batch, drop_expired, reserve_existing, reserve_or_get,
}

module _ {E : Env} where
  release_batch_keeps :
      (b : Option ℕ) (w : World E)
      → ((release_batch b w).0 ≡ ok tt)
        × ((release_batch b w).1.db.notifications ≡ w.db.notifications)
        × ((release_batch b w).1.db.keys ≡ w.db.keys)
  unfolding release_batch
  release_batch_keeps none w = (refl, refl, refl)
  release_batch_keeps (some b) w = (ground arith, ground arith, ground arith)

  drop_keeps :
      (found : Option IdempotencyKey) (w : World E)
      → (drop_expired found w).1.db.notifications ≡ w.db.notifications
  unfolding drop_expired
  drop_keeps none w = refl
  drop_keeps (some r) w =
      ground (arith, release_batch_keeps r.batch_id (record w { reads = suc w.reads }))

  drop_found :
      (found : Option IdempotencyKey) (w : World E) (r : IdempotencyKey)
      → (drop_expired found w).0 ≡ ok (some r)
      → found ≡ some r
  unfolding drop_expired
  drop_found none w r h = ground arith
  drop_found (some s) w r h =
      ground (arith, release_batch_keeps s.batch_id (record w { reads = suc w.reads }))

  existing_ok :
      (ttl : ℕ) (key hash : String) (existing : Option IdempotencyKey) (w : World E)
      (r : IdempotencyKey)
      → ((s : IdempotencyKey) → existing ≡ some s → s.key ≡ key)
      → (reserve_existing ttl key hash existing w).0 ≡ ok r
      → (r.key ≡ key)
        × (r.request_hash ≡ hash)
        × ((reserve_existing ttl key hash existing w).1.db.notifications ≡ w.db.notifications)
  unfolding reserve_existing
  existing_ok ttl key hash none w r own h = (ground arith, ground arith, ground arith)
  existing_ok ttl key hash (some s) w r own h =
      ground (arith, own s refl, eq_iff s.request_hash hash)

  -- A reservation is a record under the key and the hash of the request; it touches no notification.
  pub reserve_ok :
      (ttl : ℕ) (key hash : String) (w : World E) (r : IdempotencyKey)
      → (reserve_or_get ttl key hash w).0 ≡ ok r
      → (r.key ≡ key)
        × (r.request_hash ≡ hash)
        × ((reserve_or_get ttl key hash w).1.db.notifications ≡ w.db.notifications)
  unfolding reserve_or_get
  reserve_ok ttl key hash w r h =
      let found = E.keys.get key w.db.keys in
      let w₁ = (drop_expired found w).1 in
      let (existing, dropped, same) =
        >>=_ok (drop_expired found) (reserve_existing ttl key hash) w h in
      let (own, hashed, kept) =
        existing_ok ttl key hash existing w₁ r
          (λ s e. E.keys.get_key key s w.db.keys (drop_found found w s (rw e at dropped)))
          (rw same at h) in
      (own, hashed, rw same (kept ∙ drop_keeps found w))
