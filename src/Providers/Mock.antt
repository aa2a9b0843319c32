-- ===== src/Providers/Mock.antt =====
-- app/providers/mock.py and factory.py: the mock providers, and which provider a channel has.
pub mod Once
use notification_test.Base.{
  ℕ, suc, String, Bool, true, false, ◌++◌, ◌||◌, Option, none, some, List, [], ◌∷◌, str_eq,
  if◌then◌else◌,
}
use notification_test.Exec.{Exec, Result, ok, err, value_error}
use notification_test.Models.{ProviderErrorType, temporary, permanent, sms, email, channel_value}
use notification_test.Providers.{ProviderResult}

-- What the providers use and do not implement: the id that the n-th call of `uuid.uuid4()` by the
-- provider of a prefix gives, as text; whether its n-th call of `random.random()` gives less than
-- 0.2; and `a + b` on texts.
pub record Chance : Type 0 where
  pub uuid4 : String → ℕ → String
  pub is_low : String → ℕ → Bool
  pub concat : String → String → String

-- `ConfigurableMockProvider`, with how often it called the two functions.
pub record MockProvider : Type 0 where
  pub prefix : String
  pub mode : String
  pub calls : List String
  pub temporary_failures : List String
  pub draws : ℕ
  pub rolls : ℕ

unfoldable pub is_among : String → List String → Bool
is_among k [] = false
is_among k (x ∷ xs) = str_eq x k || is_among k xs

abbrev pub new_provider : (prefix mode : String) → MockProvider
new_provider prefix mode = record {
  prefix = prefix;
  mode = mode;
  calls = [];
  temporary_failures = [];
  draws = 0;
  rolls = 0;
}

module _ (chance : Chance) where
  -- `_success`
  unfoldable pub success : Exec MockProvider ProviderResult
  success p = (
    ok (record {
      success = true;
      delivered = true;
      provider_message_id =
          some (chance.concat p.prefix (chance.concat "-mock-" (chance.uuid4 p.prefix p.draws)));
      error_type = none;
      error_message = none;
    }),
    record p { draws = suc p.draws },
  )

  abbrev pub failure : ProviderErrorType → String → MockProvider → ProviderResult
  failure error_type message p = record {
    success = false;
    delivered = false;
    provider_message_id = none;
    error_type = some error_type;
    error_message = some (chance.concat p.prefix message);
  }

  -- The mode "temporary_error_once".
  abbrev pub send_once : String → Exec MockProvider ProviderResult
  send_once key p = if is_among key p.temporary_failures then success p else (
    ok (failure temporary " temporary error" p),
    record p { temporary_failures = key ∷ p.temporary_failures },
  )

  -- The mode "random".
  abbrev pub send_random : Exec MockProvider ProviderResult
  send_random p =
      let p' : MockProvider = record p { rolls = suc p.rolls } in
      if chance.is_low p.prefix p.rolls
      then (ok (failure temporary " random temporary error" p), p')
      else success p'

  -- `send` after the call was noted.
  unfoldable pub send_by_mode : String → String → Exec MockProvider ProviderResult
  unfolding success is_among
  send_by_mode mode key p =
      if str_eq mode "success"
      then success p
      else if str_eq mode "slow_success"
      then success p
      else if str_eq mode "temporary_error_once"
      then send_once key p
      else if str_eq mode "temporary_error_always"
      then (ok (failure temporary " temporary error" p), p)
      else if str_eq mode "permanent_error"
      then (ok (failure permanent " permanent error" p), p)
      else if str_eq mode "random"
      then send_random p
      else success p

  -- `ConfigurableMockProvider.send`; a slow success sleeps for a second.
  unfoldable pub send : ℕ → String → String → Exec MockProvider ProviderResult
  unfolding send_by_mode
  send recipient_id message idempotency_key p =
      send_by_mode p.mode idempotency_key (record p { calls = p.calls ++ idempotency_key ∷ [] })

-- The instances that the cache of `_build_provider` holds, one for each channel; the settings, and
-- with them the modes, do not change.
pub record Mocks : Type 0 where
  pub sms_provider : MockProvider
  pub email_provider : MockProvider

abbrev pub new_mocks : (sms_provider_mode email_provider_mode : String) → Mocks
new_mocks sms_provider_mode email_provider_mode = record {
  sms_provider = new_provider "sms" sms_provider_mode;
  email_provider = new_provider "email" email_provider_mode;
}

module _ (chance : Chance) where
  abbrev pub send_sms : ℕ → String → String → Exec Mocks ProviderResult
  send_sms recipient_id message key s =
      let (r, p) = send chance recipient_id message key s.sms_provider in
      (r, record s { sms_provider = p })

  abbrev pub send_email : ℕ → String → String → Exec Mocks ProviderResult
  send_email recipient_id message key s =
      let (r, p) = send chance recipient_id message key s.email_provider in
      (r, record s { email_provider = p })

  unfoldable pub build_provider : String → Result (ℕ → String → String → Exec Mocks ProviderResult)
  build_provider channel =
      if str_eq channel (channel_value sms)
      then ok send_sms
      else if str_eq channel (channel_value email)
      then ok send_email
      else err value_error
