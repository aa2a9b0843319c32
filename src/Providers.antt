-- ===== src/Providers.antt =====
-- app/providers: what a provider answers (base.py).
pub mod Mock
use notification_test.Base.{Bool, String, Option}
use notification_test.Models.{ProviderErrorType}

pub record ProviderResult : Type 0 where
  pub success : Bool
  pub delivered : Bool
  pub provider_message_id : Option String
  pub error_type : Option ProviderErrorType
  pub error_message : Option String
