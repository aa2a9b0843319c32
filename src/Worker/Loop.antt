-- ===== src/Worker/Loop.antt =====
-- app/worker/main.py: `Worker`, which takes the messages of the queues one at a time.
pub mod Settled
use notification_test.Base.{
  ℕ, String, Bool, true, false, Option, none, some, List, [], ◌∷◌, str_eq, if◌then◌else◌,
}
use notification_test.Exec.{Exec, Result, ok, err, Error, ◌>>=◌, pure, raise}
use notification_test.Models.{Payload}
use notification_test.Platform.{Env}
use notification_test.World.{Node}
use notification_test.Config.{Settings}
use notification_test.Worker.Processor.{Send, process}

-- The calls of aio_pika: `queue.get(fail=False, timeout=1)`, which may give no message, and the
-- answers to a message.
pub record Consumer (B M : Type 0) : Type 0 where
  pub get : String → Exec B (Option M)
  pub ack : M → Exec B (Unit {0})
  pub reject : (requeue : Bool) → M → Exec B (Unit {0})

-- What `json.loads(message.body.decode("utf-8"))` comes to: an object, a value of another kind, a
-- JSONDecodeError, or any other exception.
pub data Body : Type 0 where
  object : Payload → Body
  value malformed undecodable : Body

pub data Verdict : Type 0 where
  acked : Verdict
  rejected : (requeue : Bool) → Verdict

-- `Worker._queue_names`, for the names of the two queues
unfoldable pub queue_names : (mode high_queue low_queue : String) → List String
queue_names mode high_queue low_queue =
    if str_eq mode "high"
    then high_queue ∷ []
    else if str_eq mode "low"
    then low_queue ∷ []
    else high_queue ∷ low_queue ∷ []

module _ {B M : Type 0} (consumer : Consumer B M) where
  -- The `for` over the queues, which stops at the first message.
  unfoldable pub poll : List String → Exec B (Option M)
  poll [] b = (ok none, b)
  poll (name ∷ names) b =
      let (r, b') = consumer.get name b in
      let rest = poll names b' in
      elim r [ err e ↦ (err e, b') | ok (some m) ↦ (ok (some m), b') | ok none ↦ rest ]

  -- The last call of the `except` and `else` branches.
  abbrev pub settle : Verdict → M → Exec B (Unit {0})
  settle acked m = consumer.ack m
  settle (rejected requeue) m = consumer.reject requeue m

module _ {E : Env} {P : Type 0} (custom : String → Option (Send P))
    (build : String → Result (Send P)) (settings : Settings) where
  -- The `try` around the decoding and the processing, which answers every exception. Subscripting a
  -- value that is no object by "notification_id" is a TypeError.
  unfoldable pub handle : Body → Node E P → Verdict × Node E P
  handle (object payload) s =
      let (r, s') = process custom build settings payload s in
      elim r [ ok _ ↦ (acked, s') | err _ ↦ (rejected true, s') ]
  handle value s = (rejected true, s)
  handle malformed s = (rejected false, s)
  handle undecodable s = (rejected true, s)

  -- One turn of `while True`. With no message it sleeps.
  unfoldable pub turn :
      {B M : Type 0}
      → Consumer B M
      → (M → Body)
      → List String
      → Node E P × B
      → Result (Unit {0}) × (Node E P × B)
  turn consumer loads queues (s, b) =
      let (taken, b') = poll consumer queues b in
      elim taken [
        | err e ↦ (err e, (s, b'))
        | ok none ↦ (ok tt, (s, b'))
        | ok (some m) ↦
            let (verdict, s') = handle (loads m) s in
            let (r, b'') = settle consumer verdict m b' in (r, (s', b''))
      ]
