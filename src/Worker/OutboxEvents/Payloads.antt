-- ===== src/Worker/OutboxEvents/Payloads.antt =====
-- app/worker/outbox_events.py: what the payload of a retry event names.
use notification_test.Base.{
  ℕ, ◌+◌, ◌≡◌, ◌∙◌, refl, String, false, Option, none, some, [], ◌∷◌, arith, str_eq, eq_iff,
}
use mathlib.Core.Option
use notification_test.Models.{Notification, Json, text, number, Payload}
use notification_test.Services.OutboxService.{
  dict_get, dict_set, set_some, routing_key_for_notification_type,
}
use notification_test.Worker.OutboxEvents.{retry_payload}

pub dict_get-dict_set : (k : String) (v : Json) (d : Payload) → dict_get k (dict_set k v d) ≡ some v
unfolding dict_get dict_set
dict_get-dict_set k v [] = ground (arith, eq_iff k k)
dict_get-dict_set k v ((j, u) ∷ d) = ground (arith, eq_iff k j, eq_iff k k, dict_get-dict_set k v d)

pub dict_get-dict_set_other :
    (k j : String) (v : Json) (d : Payload)
    → str_eq k j ≡ false
    → dict_get k (dict_set j v d) ≡ dict_get k d
unfolding dict_get dict_set
dict_get-dict_set_other k j v [] h = ground (arith, h)
dict_get-dict_set_other k j v ((i, u) ∷ d) h =
    ground (arith, h, eq_iff j i, eq_iff k j, eq_iff k i, dict_get-dict_set_other k j v d h)

dict_get-set_some_other :
    (k j : String) (v : Option Json) (d : Payload)
    → str_eq k j ≡ false
    → dict_get k (set_some j v d) ≡ dict_get k d
unfolding set_some
dict_get-set_some_other k j none d h = refl
dict_get-set_some_other k j (some v) d h = dict_get-dict_set_other k j v d h

module _ (n : Notification) (payload : Payload) (delay : ℕ) (error reason : Option String) where
  -- Only five fields of the payload change.
  pub dict_get-retry_payload :
      (k : String)
      → str_eq k "deferred_reason" ≡ false
      → str_eq k "error_message" ≡ false
      → str_eq k "retry_delay_seconds" ≡ false
      → str_eq k "routing_key" ≡ false
      → str_eq k "attempt" ≡ false
      → dict_get k (retry_payload n payload delay error reason) ≡ dict_get k payload
  unfolding retry_payload
  dict_get-retry_payload k h₁ h₂ h₃ h₄ h₅ =
      dict_get-set_some_other k "deferred_reason" _ _ h₁
      ∙ dict_get-set_some_other k "error_message" _ _ h₂
      ∙ dict_get-dict_set_other k "retry_delay_seconds" _ _ h₃
      ∙ dict_get-dict_set_other k "routing_key" _ _ h₄
      ∙ dict_get-dict_set_other k "attempt" _ _ h₅

  -- The routing key is that of the type.
  pub routing-retry_payload :
      dict_get "routing_key" (retry_payload n payload delay error reason)
      ≡ some (text (routing_key_for_notification_type n.type))
  unfolding retry_payload
  routing-retry_payload =
      let key : Json = text (routing_key_for_notification_type n.type) in
      let next : Payload = dict_set "attempt" (number (n.attempts + 1)) payload in
      let keyed : Payload = dict_set "routing_key" key next in
      let timed : Payload = dict_set "retry_delay_seconds" (number delay) keyed in
      let told : Payload = set_some "error_message" (Option.map text error) timed in
      dict_get-set_some_other "routing_key" "deferred_reason" (Option.map text reason) told refl
      ∙ dict_get-set_some_other "routing_key" "error_message" (Option.map text error) timed refl
      ∙ dict_get-dict_set_other "routing_key" "retry_delay_seconds" (number delay) keyed refl
      ∙ dict_get-dict_set "routing_key" key next
