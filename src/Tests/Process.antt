-- ===== src/Tests/Process.antt =====
-- A message of a queue and a provider, on the sample platform.
use notification_test.Base.{ℕ, ◌≡◌, refl, String, true, Option, none, some, List, [], ◌∷◌}
use notification_test.Exec.{Result, ok, err, value_error}
use notification_test.Models.{Payload, text}
use notification_test.World.{World, Node}
use notification_test.Providers.{ProviderResult}
use notification_test.Worker.Processor.{notification_id, Send}
use notification_test.Tests.Sample.{sample}

abbrev pub body : Payload
body = ("notification_id", text "I") ∷ []

abbrev pub success : ProviderResult
success = record {
  success = true;
  delivered = true;
  provider_message_id = some "sms-1";
  error_type = none;
  error_message = none;
}

-- A provider that notes the numbers it was called with.
abbrev pub send : Send (List ℕ)
send recipient message key calls = (ok success, recipient ∷ calls)

abbrev pub custom : String → Option (Send (List ℕ))
custom channel = some send

abbrev pub build : String → Result (Send (List ℕ))
build channel = err value_error

abbrev pub node : World sample → Node sample (List ℕ)
node w = record { world = w; outside = [] }

pub named : notification_id sample body ≡ ok 1
unfolding notification_id
named = refl
