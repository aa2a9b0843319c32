-- ===== src/Tests/Sample.antt =====
-- A platform to run the program on: tables as lists, a clock that gains a millisecond at each
-- reading, and UUIDs counted from 100, whose text is a tally.
use notification_test.Base.{
  ℕ, zero, suc, Bool, true, false, ltb, if◌then◌else◌, ◌+◌, ◌*◌, ◌≤◌, ◌≡◌, refl, String, Option,
  none, some, [], ◌∷◌, arith, ◌==◌, ==_iff, str_eq, eq_iff,
}
use notification_test.Exec.{Error, other}
use notification_test.Models.{Notification, queued}
use notification_test.Platform.{Env, RedisClient, answers}
use notification_test.Platform.ListTable.{list_table}
use notification_test.Config.{Settings}
use notification_test.World.{World}

abbrev pub tally : ℕ → String
tally zero = ""
tally (suc n) = String.◌∷◌ "I" (tally n)

abbrev pub untally : String → ℕ
untally String.[] = zero
untally (String.◌∷◌ c s) = suc (untally s)

pub untally-tally : (n : ℕ) → some (untally (tally n)) ≡ some n
untally-tally zero = refl
untally-tally (suc n) = ground (arith, untally-tally n)

abbrev pub text_of : Error → String
text_of (other s) = s
text_of _ = ""

pub millis_mono : (n : ℕ) → n * 1000 ≤ suc n * 1000
millis_mono n = omega arith

-- Redis as a function from the keys to their values with the time at which each expires.
abbrev pub live : ℕ → Option (String × ℕ) → Option String
live now none = none
live now (some (v, till)) = if ltb now till then some v else none

abbrev pub RedisMap : Type 0
RedisMap = String → Option (String × ℕ)

abbrev pub redis_get : String → ℕ → RedisMap → Option String
redis_get k now s = live now (s k)

abbrev pub redis_set : Option String → String → String → ℕ → ℕ → RedisMap → Bool × RedisMap
redis_set none k v ex now s = (true, λ j. if str_eq k j then some (v, now + ex * 1000000) else s j)
redis_set (some _) k v ex now s = (false, s)

abbrev pub redis_delete : String → RedisMap → RedisMap
redis_delete k s = λ j. if str_eq k j then none else s j

pub get-set_lem :
    (k v j : String) (ex now later : ℕ) (s : RedisMap) (found : Option String)
    → found ≡ none
    → redis_get j later (redis_set found k v ex now s).1 ≡ (
        if str_eq k j
        then (if ltb later (now + ex * 1000000) then some v else none)
        else redis_get j later s)
get-set_lem k v j ex now later s none h = ground arith
get-set_lem k v j ex now later s (some u) h = ground arith

abbrev pub redis_map : RedisClient
redis_map = record {
  State = RedisMap;
  reply = λ c now s. answers;
  get = redis_get;
  set_nx_ex = λ k v ex now s. redis_set (redis_get k now s) k v ex now s;
  delete = redis_delete;
  set_free = λ k v ex now s h. rw (h, redis_set) refl;
  set_held = λ k v u ex now s h. rw (h, redis_set) refl;
  get-set = λ k v j ex now later s h. get-set_lem k v j ex now later s (redis_get k now s) h;
  get-delete = λ k j now s. ground arith;
}

abbrev pub sample : Env
sample = record {
  clock = λ n. n * 1000;
  clock_mono = millis_mono;
  uuid4 = λ n. n + 100;
  uuid_str = tally;
  uuid_of = λ s. some (untally s);
  uuid_of-uuid_str = untally-tally;
  isoformat = tally;
  int_str = tally;
  error_str = text_of;
  batches = list_table ◌==◌ ==_iff (λ r. r.id);
  notifications = list_table ◌==◌ ==_iff (λ r. r.id);
  history = list_table ◌==◌ ==_iff (λ r. r.id);
  keys = list_table str_eq eq_iff (λ r. r.key);
  sha256_hexdigest = λ s. s;
  canonical_dumps = λ r. r.message;
  redis = redis_map;
  outbox = list_table ◌==◌ ==_iff (λ r. r.id);
}

abbrev pub empty : World sample
empty = record {
  db = record { batches = []; notifications = []; history = []; keys = []; outbox = [] };
  reads = 0;
  draws = 0;
  redis = λ k. none;
}

abbrev pub settings : Settings
settings = record {
  max_retries = 3;
  retry_backoff_list = 5 ∷ 30 ∷ [];
  idempotency_ttl_seconds = 3600;
  idempotency_lock_ttl_seconds = 30;
  processing_lock_ttl_seconds = 60;
  outbox_claim_timeout_seconds = 60;
  outbox_batch_size = 10;
  outbox_max_attempts = 5;
}

abbrev pub waiting_row : Notification
waiting_row = record {
  id = 1;
  batch_id = 7;
  subscriber_id = 5;
  channel = "sms";
  type = "transactional";
  message = "hello";
  status = queued;
  attempts = 0;
  provider_message_id = none;
  last_error = none;
  processing_lock_until = none;
  created_at = 0;
  updated_at = 0;
}

-- The state in which that notification is the only row of its table.
abbrev pub holding : Notification → World sample
holding n = record empty { db = record empty.db { notifications = n ∷ [] } }
