-- ===== src/Worker/Processor.antt =====
-- app/worker/processor.py: `NotificationProcessor.process`, for one message of a queue.
pub mod Calls
pub mod Reserved
pub mod Sent
pub mod Rounds
use notification_test.Base.{ℕ, String, false, Option, none, some}
use notification_test.Exec.{
  Exec, Result, ok, err, Error, key_error, value_error, ◌>>=◌, ◌>>◌, pure, lift,
}
use notification_test.Models.{Notification, temporary, Json, text, Payload}
use notification_test.Platform.{Env}
use notification_test.World.{Node, on_world}
use notification_test.Config.{Settings}
use notification_test.Providers.{ProviderResult}
use notification_test.Services.OutboxService.{dict_get}
use notification_test.Services.RetryPolicy.{RetryPolicy}
use notification_test.Worker.Attempts.{reserve}
use notification_test.Worker.ResultHandler.Session.{apply_loaded}

-- `NotificationProvider.send(recipient_id, message, idempotency_key)`, an implementation of the
-- protocol of app/providers/base.py. It may change the provider's own state and may raise.
abbrev pub Send : Type 0 → Type 0
Send S = ℕ → String → String → Exec S ProviderResult

pub data ProcessResult : Type 0 where
  ack : ProcessResult

-- `RetryPolicy(settings.max_retries, settings.retry_backoff_list)`, of `ProviderResultHandler`
abbrev pub policy_of : Settings → RetryPolicy
policy_of s = record { max_retries = s.max_retries; backoff_seconds = s.retry_backoff_list }

-- `uuid.UUID(payload["notification_id"])`
unfoldable pub parse_id : (E : Env) → Option Json → Result ℕ
parse_id E none = err key_error
parse_id E (some (text s)) = elim (E.uuid_of s) [ none ↦ err value_error | some u ↦ ok u ]
parse_id E (some _) = err value_error

unfoldable pub notification_id : Env → Payload → Result ℕ
unfolding parse_id dict_get
notification_id E payload = parse_id E (dict_get "notification_id" payload)

-- What `_send_to_provider` returns in the place of an exception.
abbrev pub send_failed : Env → Error → ProviderResult
send_failed E e = record {
  success = false;
  delivered = false;
  provider_message_id = none;
  error_type = some temporary;
  error_message = some (E.error_str e);
}

-- `self.providers.get(channel) or build_provider(channel)`, outside the `try`.
abbrev pub find_provider :
    {P : Type 0}
    → (String → Option (Send P))
    → (String → Result (Send P))
    → String
    → Result (Send P)
find_provider custom build channel = elim (custom channel) [
  | some send ↦ ok send
  | none ↦ build channel
]

module _ {E : Env} {P : Type 0} where
  -- The `try` around the call: an exception becomes a temporary error.
  abbrev pub or_temporary : Exec P ProviderResult → Exec (Node E P) ProviderResult
  or_temporary m s =
      let (r, p) = m s.outside in
      elim r [
        | ok result ↦ (ok result, record s { outside = p })
        | err e ↦ (ok (send_failed E e), record s { outside = p })
      ]

  unfoldable pub send_to_provider :
      (String → Option (Send P))
      → (String → Result (Send P))
      → Notification
      → Exec (Node E P) ProviderResult
  send_to_provider custom build n = do
    send ← lift (find_provider custom build n.channel)
    or_temporary (send n.subscriber_id n.message (E.uuid_str n.id))

  abbrev pub finish :
      (String → Option (Send P))
      → (String → Result (Send P))
      → Settings
      → ℕ
      → Payload
      → Option Notification
      → Exec (Node E P) ProcessResult
  finish custom build settings id payload none = pure ack
  finish custom build settings id payload (some n) = do
    result ← send_to_provider custom build n
    on_world (apply_loaded (policy_of settings) n id payload result)
    pure ack

  unfoldable pub process :
      (String → Option (Send P))
      → (String → Result (Send P))
      → Settings
      → Payload
      → Exec (Node E P) ProcessResult
  process custom build settings payload = do
    id ← lift (notification_id E payload)
    reserved ← on_world (reserve settings id payload)
    finish custom build settings id payload reserved
