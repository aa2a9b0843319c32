-- ===== src/Services/Idempotency/Reservations.antt =====
-- app/services/idempotency_service.py: a reservation touches its own key only.
use notification_test.Base.{
  ℕ, suc, ◌+◌, String, ◌≡◌, ◌≢◌, ◌⊎◌, inl, inr, refl, ◌∙◌, Option, none, some, arith, eq_iff,
  Bool-cases, Option-cases, leb,
}
use notification_test.Exec.{idempotency_record_exists, ok, err, >>=-eq}
use notification_test.Models.{IdempotencyKey, Payload}
use notification_test.Platform.{Env}
use notification_test.Config.{seconds}
use notification_test.World.{Db, World}
use notification_test.Services.Idempotency.{
  release_batch, drop_expired, reserve_existing, reserve_or_get,
}
use notification_test.Services.Idempotency.Owners.{Owned, Fewer, Fewer-Owned, release_batch_lem}

module _ {E : Env} (key : String) where
  -- Other keys keep their records, and no batch gets a key.
  pub record Touches (d d' : Db E) : Type 0 where
    pub fewer : Fewer E d d'
    pub others : (k : String) → key ≢ k → E.keys.get k d'.keys ≡ E.keys.get k d.keys

  pub Touches-Owned :
      (k : String) (d d' : Db E) → key ≢ k → Touches d d' → Owned E k d → Owned E k d'
  Touches-Owned k d d' other t owned = Fewer-Owned k d d' t.fewer (t.others k other) owned

  Touches-refl : (d d' : Db E) → d' ≡ d → Touches d d'
  Touches-refl d d' e =
      rw e (record { fewer = λ id x k found has. found; others = λ k other. refl })

  Touches-trans : (d d₁ d₂ : Db E) → Touches d d₁ → Touches d₁ d₂ → Touches d d₂
  Touches-trans d d₁ d₂ t u = record {
    fewer = λ id x k found has. t.fewer id x k (u.fewer id x k found has) has;
    others = λ k other. u.others k other ∙ t.others k other;
  }

  -- The first block of `reserve_or_get`: it always comes to an end.
  drop_expired_lem :
      (found : Option IdempotencyKey) (w : World E)
      → E.keys.get key w.db.keys ≡ found
      → (o : Option IdempotencyKey) × ((drop_expired found w).0 ≡ ok o)
        × Touches w.db (drop_expired found w).1.db
        × ((o ≡ none) ⊎ ((drop_expired found w).1.db ≡ w.db))
  unfolding drop_expired
  drop_expired_lem none w is = (none, refl, Touches-refl _ _ refl, inl refl)
  drop_expired_lem (some r) w is =
      let w₀ : World E = record w { reads = suc w.reads } in
      let w₁ = (release_batch r.batch_id w₀).1 in
      let own : r.key ≡ key = E.keys.get_key key r w.db.keys is in
      let (ran, keys, fewer, _) = release_batch_lem r.batch_id w₀ in
      elim (Bool-cases (leb r.expires_at (E.clock w.reads))) [
        | inl old ↦ rw old (
            rw (>>=-eq (release_batch r.batch_id) _ w₀ ran) (
              none,
              refl,
              record {
                fewer = fewer;
                others = λ k other.
                    ground
                      (arith, E.keys.get-delete k r.key w₁.db.keys, eq_iff r.key k, keys, other);
              },
              inl refl,
            ))
        | inr young ↦ rw young (some r, refl, Touches-refl _ _ refl, inr refl)
      ]

  reserve_existing-Touches :
      (ttl : ℕ) (hash : String) (existing : Option IdempotencyKey) (w : World E)
      → Touches w.db (reserve_existing ttl key hash existing w).1.db
  unfolding reserve_existing
  reserve_existing-Touches ttl hash none w =
      let r : IdempotencyKey = record {
        key = key;
        request_hash = hash;
        batch_id = none;
        response_payload = none;
        created_at = E.clock (suc w.reads);
        expires_at = E.clock w.reads + seconds ttl;
      } in
      elim (Option-cases (E.keys.get key w.db.keys)) [
        | inl new ↦ rw new (record {
          fewer = λ id x k found has. found;
          others = λ k other. ground (arith, E.keys.get-put k r w.db.keys, eq_iff key k, other);
        })
        | inr (s, there) ↦ rw there (Touches-refl _ _ refl)
      ]
  reserve_existing-Touches ttl hash (some r) w = Touches-refl _ _ (ground arith)

  existing_answers :
      (ttl : ℕ) (hash : String) (existing : Option IdempotencyKey) (w : World E) (p : Payload)
      → (reserve_existing ttl key hash existing w).0 ≡ err (idempotency_record_exists p)
      → (existing ≢ none) × ((reserve_existing ttl key hash existing w).1.db ≡ w.db)
  unfolding reserve_existing
  existing_answers ttl hash none w p h = ground arith
  existing_answers ttl hash (some r) w p h = (λ e. cc, ground arith)

  -- A stored answer is found without a write.
  pub reserve_answers :
      (ttl : ℕ) (hash : String) (w : World E) (p : Payload)
      → (reserve_or_get ttl key hash w).0 ≡ err (idempotency_record_exists p)
      → (reserve_or_get ttl key hash w).1.db ≡ w.db
  unfolding reserve_or_get
  reserve_answers ttl hash w p h =
      let found = E.keys.get key w.db.keys in
      let (o, ran, _, still) = drop_expired_lem found w refl in
      let w₁ = (drop_expired found w).1 in
      let on = >>=-eq (drop_expired found) (reserve_existing ttl key hash) w ran in
      let (some_there, same) = existing_answers ttl hash o w₁ p (rw on at h) in
      rw on (same ∙ elim still [ inl gone ↦ absurd (some_there gone) | inr kept ↦ kept ])

  -- Whatever `reserve_or_get` returns or raises.
  pub reserve_or_get-Touches :
      (ttl : ℕ) (hash : String) (w : World E) → Touches w.db (reserve_or_get ttl key hash w).1.db
  unfolding reserve_or_get
  reserve_or_get-Touches ttl hash w =
      let found = E.keys.get key w.db.keys in
      let (o, ran, dropped, _) = drop_expired_lem found w refl in
      rw (>>=-eq (drop_expired found) (reserve_existing ttl key hash) w ran) (
        Touches-trans _ (drop_expired found w).1.db _ dropped
          (reserve_existing-Touches ttl hash o (drop_expired found w).1))
