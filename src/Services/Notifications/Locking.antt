-- ===== src/Services/Notifications/Locking.antt =====
-- app/services/notification_service.py: the lock of `create_bulk`, when Redis answers and when a call
-- of it raises.
use notification_test.Base.{
  ℕ, suc, String, ◌≡◌, ◌≢◌, ◌⊎◌, inl, inr, refl, ap, Bool, true, false, Option, some, arith,
  if◌then◌else◌, Bool-cases, eq_iff,
}
use notification_test.Exec.{Exec, Result, ok, err, Error, redis_error, ◌>>=◌, >>=_ok, pure}
use notification_test.Models.{BulkNotificationRequest, BulkNotificationResponse}
use notification_test.Platform.{
  Env, RedisReply, RedisCommand, answers, raises, get_command, set_command, delete_command,
}
use notification_test.Config.{Settings}
use notification_test.World.{World}
use notification_test.Services.BulkRows.{hash_of, lock_key_of, same_text?}
use notification_test.Services.Notifications.{
  create_locked, create_bulk, release_lock, get_lock, delete_lock, acquire_lock, call_redis,
  with_lock, after_release,
}

-- A block goes on from an answer, and ends with an exception.
module _ {S A B : Type 0} (m : Exec S A) (f : A → Exec S B) {s s' : S} where
  goes_on : {a : A} → m s ≡ (ok a, s') → (m >>= f) s ≡ f a s'
  goes_on e = ground (arith, e)

  ends : {x : Error} → m s ≡ (err x, s') → (m >>= f) s ≡ (err x, s')
  ends e = ground (arith, e)

-- Every call of Redis is answered.
abbrev pub Answers : Env → Type 0
Answers E = (c : RedisCommand) (now : ℕ) (s : E.redis.State) → E.redis.reply c now s ≡ answers

module _ {E : Env} where
  abbrev pub at_redis : World E → E.redis.State → World E
  at_redis w s = record w { redis = s }

  -- A call returns, or raises the exception of Redis, and only Redis changed.
  abbrev pub Called : {A : Type 0} → A → World E → Result A × World E → Type 0
  Called a w r =
      (s : E.redis.State) × ((r ≡ (ok a, at_redis w s)) ⊎ (r ≡ (err redis_error, at_redis w s)))

  call_redis-Called :
      {A : Type 0} (reply : RedisReply) (a : A) (s : E.redis.State) (w : World E)
      → Called a w (call_redis reply a s w)
  call_redis-Called answers a s w = (s, inl refl)
  call_redis-Called (raises true) a s w = (s, inr refl)
  call_redis-Called (raises false) a s w = (w.redis, inr refl)

  get_lock-Called :
      (lock_key : String) (w : World E)
      → Called (E.redis.get lock_key (E.clock w.reads) w.redis) w (get_lock lock_key w)
  unfolding get_lock
  get_lock-Called lock_key w =
      call_redis-Called (E.redis.reply get_command (E.clock w.reads) w.redis)
        (E.redis.get lock_key (E.clock w.reads) w.redis) w.redis w

  acquire_lock-Called :
      (ttl : ℕ) (lock_key token : String) (w : World E)
      → Called
          (E.redis.set_nx_ex lock_key token ttl (E.clock w.reads) w.redis).0
          w
          (acquire_lock ttl lock_key token w)
  unfolding acquire_lock
  acquire_lock-Called ttl lock_key token w =
      let asked = E.redis.set_nx_ex lock_key token ttl (E.clock w.reads) w.redis in
      call_redis-Called (E.redis.reply set_command (E.clock w.reads) w.redis) asked.0 asked.1 w

  delete_lock-Called : (lock_key : String) (w : World E) → Called tt w (delete_lock lock_key w)
  unfolding delete_lock
  delete_lock-Called lock_key w = call_redis-Called _ _ _ w

  abbrev delete_if : String → Bool → Exec (World E) (Unit {0})
  delete_if lock_key mine = if mine then delete_lock lock_key else pure tt

  delete_if-Called :
      (lock_key : String) (mine : Bool) (w : World E) → Called tt w (delete_if lock_key mine w)
  delete_if-Called lock_key true w = delete_lock-Called lock_key w
  delete_if-Called lock_key false w = (w.redis, inl refl)

  pub release_lock-Called :
      (lock_key token : String) (w : World E) → Called tt w (release_lock lock_key token w)
  unfolding release_lock
  release_lock-Called lock_key token w =
      let held = E.redis.get lock_key (E.clock w.reads) w.redis in
      let (s, got) = get_lock-Called lock_key w in
      let rest : Option String → Exec (World E) (Unit {0}) =
        λ value. delete_if lock_key (same_text? value (some token)) in
      elim got [
        | inl e ↦
            rw (goes_on (get_lock lock_key) rest e)
              (delete_if-Called lock_key (same_text? held (some token)) (at_redis w s))
        | inr e ↦ (s, inr (rw (ends (get_lock lock_key) rest e) refl))
      ]

  pub db-release_lock :
      (lock_key token : String) (w : World E) → (release_lock lock_key token w).1.db ≡ w.db
  db-release_lock lock_key token w =
      let (s, ends) = release_lock-Called lock_key token w in
      elim ends [ inl e ↦ rw e refl | inr e ↦ rw e refl ]

module _ {E : Env} where
  -- A call that returned was answered.
  call_redis_ok :
      {A : Type 0} (reply : RedisReply) (a b : A) (s : E.redis.State) (w : World E)
      → (call_redis reply a s w).0 ≡ ok b
      → call_redis reply a s w ≡ (ok a, at_redis w s)
  call_redis_ok answers a b s w h = refl
  call_redis_ok (raises true) a b s w h = ground (arith, h)
  call_redis_ok (raises false) a b s w h = ground (arith, h)

  delete_lock_ok :
      (lock_key : String) (w : World E)
      → (delete_lock lock_key w).0 ≡ ok tt
      → delete_lock lock_key w ≡ (ok tt, at_redis w (E.redis.delete lock_key w.redis))
  unfolding delete_lock
  delete_lock_ok lock_key w h =
      call_redis_ok (E.redis.reply delete_command (E.clock w.reads) w.redis) tt tt
        (E.redis.delete lock_key w.redis) w h

  -- The lock does not hold the token.
  abbrev pub IsReleased : String → String → World E → Type 0
  IsReleased lock_key token w = E.redis.get lock_key (E.clock w.reads) w.redis ≢ some token

  get_lock_ok :
      (lock_key : String) (w : World E) (value : Option String)
      → (get_lock lock_key w).0 ≡ ok value
      → get_lock lock_key w ≡ (ok (E.redis.get lock_key (E.clock w.reads) w.redis), w)
  unfolding get_lock
  get_lock_ok lock_key w value h =
      call_redis_ok (E.redis.reply get_command (E.clock w.reads) w.redis)
        (E.redis.get lock_key (E.clock w.reads) w.redis) value w.redis w h

  deleted_if :
      (lock_key token : String) (w : World E)
      → let mine = same_text? (E.redis.get lock_key (E.clock w.reads) w.redis) (some token) in
        (delete_if lock_key mine w).0 ≡ ok tt
        → IsReleased lock_key token (delete_if lock_key mine w).1
  deleted_if lock_key token w h =
      elim (Bool-cases (same_text? (E.redis.get lock_key (E.clock w.reads) w.redis) (some token))) [
        | inl mine ↦
            let ran = delete_lock_ok lock_key w (rw mine at h) in
            rw (mine, ran)
              (ground (
                arith,
                E.redis.get-delete lock_key lock_key (E.clock w.reads) w.redis,
                eq_iff lock_key lock_key,
              ))
        | inr other ↦ rw other (ground (arith, other, eq_iff token token))
      ]

  -- After a `finally` block that returned, the lock does not hold the token.
  pub released :
      (lock_key token : String) (w : World E)
      → (release_lock lock_key token w).0 ≡ ok tt
      → IsReleased lock_key token (release_lock lock_key token w).1
  unfolding release_lock
  released lock_key token w h =
      let rest : Option String → Exec (World E) (Unit {0}) =
        λ value. delete_if lock_key (same_text? value (some token)) in
      let (value, got, _) = >>=_ok (get_lock lock_key) rest w h in
      let ran = get_lock_ok lock_key w value got in
      let same = goes_on (get_lock lock_key) rest ran in
      rw same (deleted_if lock_key token w (rw same at h))

-- What a block under the lock returned, if it returned or raised something else than Redis.
pub after_release_ok :
    (r : Result BulkNotificationResponse) (released : Result (Unit {0}))
    {a : BulkNotificationResponse}
    → after_release r released ≡ ok a
    → (r ≡ ok a) × (released ≡ ok tt)
after_release_ok r (ok u) h = (h, refl)
after_release_ok r (err e) h = ground (arith, h)

pub after_release_err :
    (r : Result BulkNotificationResponse) (released : Result (Unit {0})) {e : Error}
    → (released ≡ ok tt) ⊎ (released ≡ err redis_error)
    → e ≢ redis_error
    → after_release r released ≡ err e
    → r ≡ err e
after_release_err r (ok u) way other h = h
after_release_err r (err x) (inl is) other h = ground (arith, is)
after_release_err r (err x) (inr is) other h = absurd (other (ground (arith, h, is)))

module _ {E : Env} where
  -- The two ways that the `finally` block ends.
  pub release_lock_ends :
      (lock_key token : String) (w : World E)
      → let r = release_lock lock_key token w in (r.0 ≡ ok tt) ⊎ (r.0 ≡ err redis_error)
  release_lock_ends lock_key token w =
      let (s, ends) = release_lock-Called lock_key token w in
      elim ends [ inl e ↦ inl (rw e refl) | inr e ↦ inr (rw e refl) ]

module _ {E : Env} (settings : Settings) (request : BulkNotificationRequest) (key : String)
    (w : World E) where
  abbrev pub locking : Bool → World E → Result BulkNotificationResponse × World E
  locking acquired =
      with_lock (lock_key_of key) (E.uuid_str (E.uuid4 w.draws))
        (create_locked settings request key (hash_of E request)) acquired

  abbrev asking : World E
  asking = record w { draws = suc w.draws }

  -- Whether the server sets the lock.
  abbrev pub was_free : Bool
  was_free =
      (E.redis.set_nx_ex (lock_key_of key) (E.uuid_str (E.uuid4 w.draws))
        settings.idempotency_lock_ttl_seconds (E.clock w.reads) w.redis).0

  -- `create_bulk` goes on with the answer of Redis, or raises its exception.
  pub create_bulk_asks :
      (s : E.redis.State) × ((create_bulk settings request key w
          ≡ locking was_free (at_redis asking s))
        ⊎ (create_bulk settings request key w ≡ (err redis_error, at_redis asking s)))
  unfolding create_bulk
  create_bulk_asks =
      let token = E.uuid_str (E.uuid4 w.draws) in
      let ttl = settings.idempotency_lock_ttl_seconds in
      let ask = acquire_lock ttl (lock_key_of key) token in
      let (s, asked) = acquire_lock-Called ttl (lock_key_of key) token asking in
      (s, elim asked [ inl e ↦ inl (goes_on ask locking e) | inr e ↦ inr (ends ask locking e) ])

module _ {E : Env} (answered : Answers E) where
  call_redis_answered :
      {A : Type 0} (c : RedisCommand) (a : A) (s : E.redis.State) (w : World E)
      → call_redis (E.redis.reply c (E.clock w.reads) w.redis) a s w ≡ (ok a, at_redis w s)
  call_redis_answered c a s w = rw (answered c (E.clock w.reads) w.redis) refl

  acquire_lock_answered :
      (ttl : ℕ) (lock_key token : String) (w : World E)
      → let asked = E.redis.set_nx_ex lock_key token ttl (E.clock w.reads) w.redis in
        acquire_lock ttl lock_key token w ≡ (ok asked.0, at_redis w asked.1)
  unfolding acquire_lock
  acquire_lock_answered ttl lock_key token w = call_redis_answered set_command _ _ w

  delete_if_answered :
      (lock_key : String) (mine : Bool) (w : World E) → (delete_if lock_key mine w).0 ≡ ok tt
  unfolding delete_lock
  delete_if_answered lock_key true w =
      ap (λ (r : Result (Unit {0}) × World E). r.0)
        (call_redis_answered delete_command tt (E.redis.delete lock_key w.redis) w)
  delete_if_answered lock_key false w = refl

  release_lock_answered :
      (lock_key token : String) (w : World E)
      → release_lock lock_key token w ≡ (ok tt, (release_lock lock_key token w).1)
  unfolding release_lock get_lock
  release_lock_answered lock_key token w =
      let held = E.redis.get lock_key (E.clock w.reads) w.redis in
      let rest : Option String → Exec (World E) (Unit {0}) =
        λ value. delete_if lock_key (same_text? value (some token)) in
      let same =
        goes_on (get_lock lock_key) rest (call_redis_answered get_command held w.redis w) in
      rw same (
        ap (λ (x : Result (Unit {0})). (x, (rest held w).1))
          (delete_if_answered lock_key (same_text? held (some token)) w))

  -- With every call answered, `create_bulk` goes on under the lock or without it.
  pub create_bulk_answered :
      (settings : Settings) (request : BulkNotificationRequest) (key : String) (w : World E)
      → let asked =
          E.redis.set_nx_ex
            (lock_key_of key)
            (E.uuid_str (E.uuid4 w.draws))
            settings.idempotency_lock_ttl_seconds
            (E.clock w.reads)
            w.redis in
        create_bulk settings request key w
        ≡ locking settings request key w asked.0 (at_redis (asking settings request key w) asked.1)
  unfolding create_bulk
  create_bulk_answered settings request key w =
      let token = E.uuid_str (E.uuid4 w.draws) in
      let ttl = settings.idempotency_lock_ttl_seconds in
      goes_on (acquire_lock ttl (lock_key_of key) token) (locking settings request key w)
        (acquire_lock_answered ttl (lock_key_of key) token (asking settings request key w))

  -- The block under the lock is followed by its release.
  pub with_lock_answered :
      (lock_key token : String) (block : Exec (World E) BulkNotificationResponse) (w : World E)
      → let (r, w') = block w in
        with_lock lock_key token block true w ≡ (r, (release_lock lock_key token w').1)
  with_lock_answered lock_key token block w =
      rw (release_lock_answered lock_key token (block w).1) refl
