-- ===== src/Services/IdempotencyCleaner/Rounds.antt =====
-- app/services/idempotency_cleaner.py with app/services/idempotency_service.py: what one round of the
-- cleaner leaves of the keys and of the batches.
use notification_test.Base.{
  ℕ, suc, ◌≤◌, String, ◌≡◌, ◌≢◌, inl, inr, refl, sym, ap, ◌∙◌, none, some, List, [], ◌∷◌, arith,
  some_inj, leb, leb→le, le→leb, eq_iff, Has, Bool-cases, length, if◌then◌else◌,
}
use mathlib.Core.Path.{subst}
use notification_test.Exec.{ok}
use notification_test.Models.{IdempotencyKey}
use notification_test.Platform.{Env}
use notification_test.World.{World}
use notification_test.Services.Idempotency.{is_expired, delete_key, delete_keys}
use notification_test.Services.Idempotency.Owners.{
  IsKeyed, Free, Fewer-Owned, release_batches_lem, release_batches-Free, delete_keys-IsKeyed,
  expired, released, gone, cleanup_expired_lem,
}
use notification_test.Services.IdempotencyCleaner.{cleanup_once}

module _ {E : Env} where
  -- The deletion: the keys of the list go, the others stay.
  delete_keys-get :
      (rs : List IdempotencyKey) (w : World E) (k : String)
      → ((r : IdempotencyKey) → Has r rs → r.key ≢ k)
      → E.keys.get k (delete_keys rs w).db.keys ≡ E.keys.get k w.db.keys
  delete_keys-get [] w k apart = refl
  delete_keys-get (r ∷ rs) w k apart =
      delete_keys-get rs (delete_key r.key w) k (λ s m. apart s (inr m))
      ∙ ground (arith, E.keys.get-delete k r.key w.db.keys, eq_iff r.key k, apart r (inl refl))

  delete_keys-none :
      (rs : List IdempotencyKey) (w : World E) (k : String)
      → E.keys.get k w.db.keys ≡ none
      → E.keys.get k (delete_keys rs w).db.keys ≡ none
  delete_keys-none [] w k missing = missing
  delete_keys-none (r ∷ rs) w k missing =
      delete_keys-none rs (delete_key r.key w) k
        (ground (arith, E.keys.get-delete k r.key w.db.keys))

  delete_keys-gone :
      (rs : List IdempotencyKey) (w : World E) (r : IdempotencyKey)
      → Has r rs
      → E.keys.get r.key (delete_keys rs w).db.keys ≡ none
  delete_keys-gone [] w r h = absurd h
  delete_keys-gone (x ∷ rs) w r (inl e) =
      delete_keys-none rs (delete_key x.key w) r.key
        (ground (arith, E.keys.get-delete r.key x.key w.db.keys, eq_iff x.key r.key))
  delete_keys-gone (x ∷ rs) w r (inr m) = delete_keys-gone rs (delete_key x.key w) r m

  pub delete_keys-batches :
      (rs : List IdempotencyKey) (w : World E) → (delete_keys rs w).db.batches ≡ w.db.batches
  delete_keys-batches [] w = refl
  delete_keys-batches (r ∷ rs) w = delete_keys-batches rs (delete_key r.key w)

module _ {E : Env} (w : World E) where
  pub once_lem : cleanup_once w ≡ (
    ok (length (expired w)),
    delete_keys (gone w) (record (released w) { reads = suc (released w).reads }),
  )
  unfolding cleanup_once
  once_lem = ground (arith, cleanup_expired_lem w)

  released-keys : (released w).db.keys ≡ w.db.keys
  released-keys = (release_batches_lem (expired w) (record w { reads = suc w.reads })).1

  -- The second reading of the clock, at which the records are deleted.
  abbrev pub deleted_at : ℕ
  deleted_at = E.clock (released w).reads

  abbrev pub after : World E
  after = record (released w) { reads = suc (released w).reads }

  -- A record that is there when the deletion begins.
  deleted_lem :
      (k : String) (r : IdempotencyKey)
      → E.keys.get k (released w).db.keys ≡ some r
      → E.keys.get k (delete_keys (gone w) after).db.keys
        ≡ (if leb r.expires_at deleted_at then none else some r)
  deleted_lem k r stored = elim (Bool-cases (leb r.expires_at deleted_at)) [
    | inl old ↦
        let own : r.key ≡ k = E.keys.get_key k r (released w).db.keys stored in
        let found =
          E.keys.select_complete (is_expired deleted_at) (released w).db.keys k r stored old in
        rw old (rw own at (delete_keys-gone (gone w) after r found))
    | inr young ↦ rw young (
        delete_keys-get (gone w) after k (λ s m same.
          let (old, here) = E.keys.select_sound (is_expired deleted_at) (released w).db.keys s m in
          let one : r ≡ s = some_inj (
            sym stored
            ∙ subst (λ (j : String). E.keys.get j (released w).db.keys ≡ some s) same here) in
          cc)
        ∙ stored)
  ]

  -- A round returns the number of the records that had expired when it began, and deletes exactly
  -- those that have expired when it deletes.
  pub cleanup_once_deletes :
      ((cleanup_once w).0 ≡ ok (length (E.keys.select (is_expired (E.clock w.reads)) w.db.keys)))
      × ((k : String)
          → E.keys.get k w.db.keys ≡ none
          → E.keys.get k (cleanup_once w).1.db.keys ≡ none)
      × ((k : String) (r : IdempotencyKey)
          → E.keys.get k w.db.keys ≡ some r
          → E.keys.get k (cleanup_once w).1.db.keys
            ≡ (if leb r.expires_at deleted_at then none else some r))
  cleanup_once_deletes = (
    ap (λ x. x.0) once_lem,
    λ k missing. rw once_lem (delete_keys-none (gone w) after k (rw released-keys missing)),
    λ k r stored. rw once_lem (deleted_lem k r (rw released-keys stored)),
  )

  -- If no record expires between the two readings, every batch that has a key is still known to the
  -- record of that key after the round, when all were before it.
  pub cleanup_once-IsKeyed :
      ((k : String) (r : IdempotencyKey)
        → E.keys.get k w.db.keys ≡ some r
        → r.expires_at ≤ deleted_at
        → r.expires_at ≤ E.clock w.reads)
      → IsKeyed E w.db
      → IsKeyed E (cleanup_once w).1.db
  cleanup_once-IsKeyed steady keyed = rw once_lem (delete_keys-IsKeyed (gone w) after free kept)
    where
      start : World E
      start = record w { reads = suc w.reads }

      kept : IsKeyed E (released w).db
      kept = λ k.
          Fewer-Owned k w.db (released w).db (release_batches_lem (expired w) start).2
            (ap (E.keys.get k) released-keys) (keyed k)

      free : (r : IdempotencyKey) → Has r (gone w) → Free E r.key (released w).db
      free r m =
          let (old, stored) =
            E.keys.select_sound (is_expired deleted_at) (released w).db.keys r m in
          let before : E.keys.get r.key w.db.keys ≡ some r = rw (← released-keys) stored in
          let early = steady r.key r before (leb→le r.expires_at deleted_at old) in
          let found =
            E.keys.select_complete (is_expired (E.clock w.reads)) w.db.keys r.key r before
              (le→leb r.expires_at (E.clock w.reads) early) in
          release_batches-Free (expired w) start r found before (keyed r.key)
