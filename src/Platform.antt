-- ===== src/Platform.antt =====
-- What the program uses and does not implement: the tables of PostgreSQL behind SQLAlchemy, the
-- clock, uuid4 and the text forms of values. Each is a parameter with the documented laws that the
-- program relies on.
pub mod ListTable
use notification_test.Base.{
  ℕ, suc, ◌+◌, ◌*◌, ◌≤◌, ltb, String, Bool, true, false, Option, none, some, List, ◌≡◌, ◌≢◌, ◌==◌,
  Has, Distinct, Sorted, if◌then◌else◌, str_eq,
}
use notification_test.Exec.{Error}
use notification_test.Models.{
  NotificationBatch, Notification, NotificationStatusHistory, IdempotencyKey, OutboxEvent,
  BulkNotificationRequest,
}

-- A table with its primary key. `put` inserts a row or writes its columns; `select` gives the rows
-- that meet a condition; `order_by` sorts the rows of a result.
pub record Table (K R : Type 0) (eq : K → K → Bool) (key : R → K) : Type 1 where
  pub State : Type 0
  pub get : K → State → Option R
  pub put : R → State → State
  pub delete : K → State → State
  pub select : (R → Bool) → State → List R
  pub order_by : (R → R → Bool) → List R → List R
  pub get-put :
      (j : K) (r : R) (s : State) → get j (put r s) ≡ (if eq (key r) j then some r else get j s)
  pub get-delete : (j k : K) (s : State) → get j (delete k s) ≡ (if eq k j then none else get j s)
  pub get_key : (k : K) (r : R) (s : State) → get k s ≡ some r → key r ≡ k
  pub select_sound :
      (p : R → Bool) (s : State) (r : R)
      → Has r (select p s)
      → (p r ≡ true) × (get (key r) s ≡ some r)
  pub select_complete :
      (p : R → Bool) (s : State) (k : K) (r : R)
      → get k s ≡ some r
      → p r ≡ true
      → Has r (select p s)
  pub select_distinct :
      (p : R → Bool) (s : State) → Distinct (λ a b. eq (key a) (key b)) (select p s)
  pub order_by_sound : (le : R → R → Bool) (l : List R) (r : R) → Has r (order_by le l) → Has r l
  pub order_by_complete : (le : R → R → Bool) (l : List R) (r : R) → Has r l → Has r (order_by le l)
  pub order_by_distinct :
      (le : R → R → Bool) (l : List R)
      → Distinct (λ a b. eq (key a) (key b)) l
      → Distinct (λ a b. eq (key a) (key b)) (order_by le l)
  pub order_by_sorted :
      (le : R → R → Bool) (l : List R)
      → ((a b : R) → le a b ≡ false → le b a ≡ true)
      → ((a b c : R) → le a b ≡ true → le b c ≡ true → le a c ≡ true)
      → Sorted le (order_by le l)

-- The commands of Redis that the program uses.
pub data RedisCommand : Type 0 where
  get_command set_command delete_command : RedisCommand

-- A command is answered, or its call raises, after the server ran it or without that.
pub data RedisReply : Type 0 where
  answers : RedisReply
  raises : (reached : Bool) → RedisReply

-- The effect of each command on the server, at a time of the server; a key that has expired is not
-- there. What becomes of a call is up to the server and the network.
pub record RedisClient : Type 1 where
  pub State : Type 0
  pub reply : RedisCommand → (now : ℕ) → State → RedisReply
  pub get : String → (now : ℕ) → State → Option String
  -- SET key value NX EX seconds: whether it was set, and the new state
  pub set_nx_ex : String → String → (seconds : ℕ) → (now : ℕ) → State → Bool × State
  pub delete : String → State → State
  pub set_free :
      (k v : String) (ex now : ℕ) (s : State)
      → get k now s ≡ none
      → (set_nx_ex k v ex now s).0 ≡ true
  pub set_held :
      (k v u : String) (ex now : ℕ) (s : State)
      → get k now s ≡ some u
      → set_nx_ex k v ex now s ≡ (false, s)
  pub get-set :
      (k v j : String) (ex now later : ℕ) (s : State)
      → get k now s ≡ none
      → get j later (set_nx_ex k v ex now s).1 ≡ (
          if str_eq k j
          then (if ltb later (now + ex * 1000000) then some v else none)
          else get j later s)
  pub get-delete :
      (k j : String) (now : ℕ) (s : State)
      → get j now (delete k s) ≡ (if str_eq k j then none else get j now s)

pub record Env : Type 1 where
  -- the value that the n-th call of `datetime.now(UTC)` returns, in microseconds
  pub clock : ℕ → ℕ
  pub clock_mono : (n : ℕ) → clock n ≤ clock (suc n)
  -- the value that the n-th call of `uuid.uuid4()` returns
  pub uuid4 : ℕ → ℕ
  -- str(uuid), uuid.UUID(text), datetime.isoformat, str(int), str(exc)
  pub uuid_str : ℕ → String
  pub uuid_of : String → Option ℕ
  pub uuid_of-uuid_str : (u : ℕ) → uuid_of (uuid_str u) ≡ some u
  pub isoformat : ℕ → String
  pub int_str : ℕ → String
  pub error_str : Error → String
  -- hashlib.sha256(…).hexdigest() of json.dumps(request.model_dump(mode="json"), sort_keys=True, …)
  pub sha256_hexdigest : String → String
  pub canonical_dumps : BulkNotificationRequest → String
  pub redis : RedisClient
  pub batches : Table ℕ NotificationBatch ◌==◌ (λ r. r.id)
  pub notifications : Table ℕ Notification ◌==◌ (λ r. r.id)
  pub history : Table ℕ NotificationStatusHistory ◌==◌ (λ r. r.id)
  pub keys : Table String IdempotencyKey str_eq (λ r. r.key)
  pub outbox : Table ℕ OutboxEvent ◌==◌ (λ r. r.id)
