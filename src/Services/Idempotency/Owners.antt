-- ===== src/Services/Idempotency/Owners.antt =====
-- app/services/idempotency_service.py: the batch of an idempotency key and the record of the key
-- belong together.
use notification_test.Base.{
  some_inj, ℕ, suc, String, ◌≡◌, ◌≢◌, inl, inr, refl, sym, ap, ◌∙◌, Option, none, some, List, [],
  ◌∷◌, arith, ==_iff, str_eq, eq_iff, Has, Bool-cases, length,
}
use notification_test.Exec.{ok, >>=-eq}
use notification_test.Models.{NotificationBatch, IdempotencyKey}
use notification_test.Platform.{Env}
use notification_test.World.{Db, World}
use notification_test.Services.Idempotency.{
  is_expired, delete_key, clear_batch, release_batch, release_batches, delete_keys, cleanup_expired,
}

module _ (E : Env) where
  -- The record of the key knows every batch that has the key.
  abbrev pub Owned : String → Db E → Type 0
  Owned k d =
      (id : ℕ) (x : NotificationBatch)
      → E.batches.get id d.batches ≡ some x
      → x.idempotency_key ≡ some k
      → (r : IdempotencyKey) × (E.keys.get k d.keys ≡ some r) × (r.batch_id ≡ some x.id)

  -- Every batch that has a key is known to the record of that key.
  abbrev pub IsKeyed : Db E → Type 0
  IsKeyed d = (k : String) → Owned k d

  -- No batch has the key.
  abbrev pub Free : String → Db E → Type 0
  Free k d =
      (id : ℕ) (x : NotificationBatch)
      → E.batches.get id d.batches ≡ some x
      → x.idempotency_key ≢ some k

  -- The batches of `d'` with a key are batches of `d` with that key.
  abbrev pub Fewer : Db E → Db E → Type 0
  Fewer d d' =
      (id : ℕ) (x : NotificationBatch) (k : String)
      → E.batches.get id d'.batches ≡ some x
      → x.idempotency_key ≡ some k
      → E.batches.get id d.batches ≡ some x

module _ {E : Env} where
  Fewer-refl : (d : Db E) → Fewer E d d
  Fewer-refl d id x k found has = found

  clear_batch_lem :
      (id : ℕ) (found : Option NotificationBatch) (w : World E)
      → E.batches.get id w.db.batches ≡ found
      → ((clear_batch found w).1.db.keys ≡ w.db.keys)
        × Fewer E w.db (clear_batch found w).1.db
        × ((x : NotificationBatch)
            → E.batches.get id (clear_batch found w).1.db.batches ≡ some x
            → x.idempotency_key ≡ none)
  clear_batch_lem id none w is = (refl, Fewer-refl w.db, λ x h. ground arith)
  clear_batch_lem id (some b) w is =
      let cleared : NotificationBatch = record b {
        idempotency_key = none;
        updated_at = E.clock w.reads;
      } in
      let same : b.id ≡ id = E.batches.get_key id b w.db.batches is in
      (
        refl,
        λ j x k found has. ground (arith, E.batches.get-put j cleared w.db.batches),
        λ x h. ground (arith, E.batches.get-put id cleared w.db.batches, ==_iff b.id id),
      )

  -- What the batch of a record gives up, it gives up for good; no other batch changes.
  pub release_batch_lem :
      (b : Option ℕ) (w : World E)
      → ((release_batch b w).0 ≡ ok tt)
        × ((release_batch b w).1.db.keys ≡ w.db.keys)
        × Fewer E w.db (release_batch b w).1.db
        × ((id : ℕ) (x : NotificationBatch)
            → b ≡ some id
            → E.batches.get id (release_batch b w).1.db.batches ≡ some x
            → x.idempotency_key ≡ none)
  unfolding release_batch
  release_batch_lem none w = (refl, refl, Fewer-refl w.db, λ id x h. ground arith)
  release_batch_lem (some b) w =
      let (keys, fewer, clear) = clear_batch_lem b (E.batches.get b w.db.batches) w refl in
      (ground arith, keys, fewer, λ id x e. rw (← some_inj e) (clear x))

  -- Batches that lose their key, or stay, leave the owner of a key alone.
  pub Fewer-Owned :
      (k : String) (d d' : Db E)
      → Fewer E d d'
      → E.keys.get k d'.keys ≡ E.keys.get k d.keys
      → Owned E k d
      → Owned E k d'
  Fewer-Owned k d d' fewer same owned id x found has =
      let (r, stored, of) = owned id x (fewer id x k found has) has in (r, same ∙ stored, of)

  Fewer-Free : (k : String) (d d' : Db E) → Fewer E d d' → Free E k d → Free E k d'
  Fewer-Free k d d' fewer free id x found has = free id x (fewer id x k found has) has

  Free-Owned : (k : String) (d : Db E) → Free E k d → Owned E k d
  Free-Owned k d free id x found has = absurd (free id x found has)

  -- Once the batch of a record has lost its key, no batch has the key of the record.
  release_batch-Free :
      (r : IdempotencyKey) (w : World E)
      → E.keys.get r.key w.db.keys ≡ some r
      → Owned E r.key w.db
      → Free E r.key (release_batch r.batch_id w).1.db
  release_batch-Free r w stored owned id x found has =
      let (_, _, fewer, clear) = release_batch_lem r.batch_id w in
      let before = fewer id x r.key found has in
      let (s, here, of) = owned id x before has in
      let one : r ≡ s = some_inj (sym stored ∙ here) in
      let same : x.id ≡ id = E.batches.get_key id x w.db.batches before in
      let cleared = clear id x (rw one (rw (← same) of)) found in ground arith

  -- The loop of the cleaner: it raises nothing and writes batches only.
  pub release_batches_lem :
      (rs : List IdempotencyKey) (w : World E)
      → ((release_batches rs w).0 ≡ ok tt)
        × ((release_batches rs w).1.db.keys ≡ w.db.keys)
        × Fewer E w.db (release_batches rs w).1.db
  unfolding release_batches
  release_batches_lem [] w = (refl, refl, Fewer-refl w.db)
  release_batches_lem (r ∷ rs) w =
      let (ran, keys, fewer, _) = release_batch_lem r.batch_id w in
      let w₁ = (release_batch r.batch_id w).1 in
      let (rest, keys', fewer') = release_batches_lem rs w₁ in
      rw (>>=-eq (release_batch r.batch_id) (λ _. release_batches rs) w ran)
        (rest, keys' ∙ keys, λ id x k found has. fewer id x k (fewer' id x k found has) has)

  pub release_batches-Free :
      (rs : List IdempotencyKey) (w : World E) (r : IdempotencyKey)
      → Has r rs
      → E.keys.get r.key w.db.keys ≡ some r
      → Owned E r.key w.db
      → Free E r.key (release_batches rs w).1.db
  unfolding release_batches
  release_batches-Free [] w r h stored owned = absurd h
  release_batches-Free (x ∷ rs) w r h stored owned =
      let (ran, keys, fewer, _) = release_batch_lem x.batch_id w in
      let w₁ = (release_batch x.batch_id w).1 in
      rw (>>=-eq (release_batch x.batch_id) (λ _. release_batches rs) w ran) (elim h [
        | inl e ↦
            Fewer-Free r.key w₁.db (release_batches rs w₁).1.db (release_batches_lem rs w₁).2
              (rw e (release_batch-Free r w stored owned))
        | inr later ↦
            release_batches-Free rs w₁ r later (rw keys stored)
              (Fewer-Owned r.key w.db w₁.db fewer (ap (E.keys.get r.key) keys) owned)
      ])

  -- Records whose key no batch has may go.
  pub delete_keys-IsKeyed :
      (rs : List IdempotencyKey) (w : World E)
      → ((r : IdempotencyKey) → Has r rs → Free E r.key w.db)
      → IsKeyed E w.db
      → IsKeyed E (delete_keys rs w).db
  delete_keys-IsKeyed [] w free keyed = keyed
  delete_keys-IsKeyed (r ∷ rs) w free keyed =
      delete_keys-IsKeyed rs (delete_key r.key w) (λ s m. free s (inr m))
        (λ k. elim (Bool-cases (str_eq r.key k)) [
          | inl same ↦
              let e : r.key ≡ k = (eq_iff r.key k).0 same in
              rw (← e) (Free-Owned r.key (delete_key r.key w).db (free r (inl refl)))
          | inr other ↦
              Fewer-Owned k w.db (delete_key r.key w).db (λ id x j found has. found)
                (rw (E.keys.get-delete k r.key w.db.keys, other)) (keyed k)
        ])

  -- A batch that no record of the list has keeps its row.
  clear_batch-apart :
      (id j : ℕ) (found : Option NotificationBatch) (w : World E)
      → E.batches.get id w.db.batches ≡ found
      → id ≢ j
      → E.batches.get j (clear_batch found w).1.db.batches ≡ E.batches.get j w.db.batches
  clear_batch-apart id j none w is apart = refl
  clear_batch-apart id j (some b) w is apart =
      let cleared : NotificationBatch = record b {
        idempotency_key = none;
        updated_at = E.clock w.reads;
      } in
      let same : b.id ≡ id = E.batches.get_key id b w.db.batches is in
      ground (arith, E.batches.get-put j cleared w.db.batches, ==_iff b.id j)

  release_batch-apart :
      (b : Option ℕ) (j : ℕ) (w : World E)
      → b ≢ some j
      → E.batches.get j (release_batch b w).1.db.batches ≡ E.batches.get j w.db.batches
  unfolding release_batch
  release_batch-apart none j w apart = refl
  release_batch-apart (some b) j w apart =
      clear_batch-apart b j (E.batches.get b w.db.batches) w refl (λ e. apart (ap some e))

  pub release_batches-apart :
      (rs : List IdempotencyKey) (j : ℕ) (w : World E)
      → ((r : IdempotencyKey) → Has r rs → r.batch_id ≢ some j)
      → E.batches.get j (release_batches rs w).1.db.batches ≡ E.batches.get j w.db.batches
  unfolding release_batches
  release_batches-apart [] j w apart = refl
  release_batches-apart (r ∷ rs) j w apart =
      let (ran, _, _, _) = release_batch_lem r.batch_id w in
      rw (>>=-eq (release_batch r.batch_id) (λ _. release_batches rs) w ran) (
        release_batches-apart rs j (release_batch r.batch_id w).1 (λ s m. apart s (inr m))
        ∙ release_batch-apart r.batch_id j w (apart r (inl refl)))

module _ {E : Env} (w : World E) where
  -- The records that the cleaner finds, the time of its deletion, and those that it deletes.
  abbrev pub expired : List IdempotencyKey
  expired = E.keys.select (is_expired (E.clock w.reads)) w.db.keys

  abbrev pub released : World E
  released = (release_batches expired (record w { reads = suc w.reads })).1

  abbrev pub gone : List IdempotencyKey
  gone = E.keys.select (is_expired (E.clock released.reads)) released.db.keys

  pub cleanup_expired_lem :
      cleanup_expired w
      ≡ (ok (length expired), delete_keys gone (record released { reads = suc released.reads }))
  unfolding cleanup_expired
  cleanup_expired_lem =
      let (ran, _, _) = release_batches_lem expired (record w { reads = suc w.reads }) in
      ground (arith, ran)
