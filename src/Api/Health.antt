-- ===== src/Api/Health.antt =====
-- app/main.py: the route /health.
use notification_test.Base.{
  String, Bool, ◌&&◌, ◌≡◌, ◌↔◌, refl, arith, str_eq, eq_iff, if◌then◌else◌,
}
use notification_test.Exec.{Exec, Result, ok, err}

pub record HealthResponse : Type 0 where
  pub status : String
  pub postgres : String
  pub rabbitmq : String
  pub redis : String

-- What a `try` block leaves: `x = "ok"` at its end, or `x = "error"` after any exception.
abbrev pub outcome : Result (Unit {0}) → String
outcome (ok _) = "ok"
outcome (err _) = "error"

-- `{postgres, rabbitmq, redis} == {"ok"}`
abbrev pub all_ok : String → String → String → Bool
all_ok a b c = str_eq a "ok" && str_eq b "ok" && str_eq c "ok"

module _ {S : Type 0} where
  -- The parameters are the calls on PostgreSQL, Redis and RabbitMQ, in the order of the route.
  unfoldable pub health : (postgres redis rabbitmq : Exec S (Unit {0})) → Exec S HealthResponse
  health select_one ping connect s =
      let (r₁, s₁) = select_one s in
      let (r₂, s₂) = ping s₁ in
      let (r₃, s₃) = connect s₂ in
      let postgres = outcome r₁ in
      let redis = outcome r₂ in
      let rabbitmq = outcome r₃ in
      (
        ok (record {
          status = if all_ok postgres rabbitmq redis then "ok" else "degraded";
          postgres = postgres;
          rabbitmq = rabbitmq;
          redis = redis;
        }),
        s₃,
      )

-- The call returned.
abbrev pub Returns : {S : Type 0} → Exec S (Unit {0}) → S → Type 0
Returns m s = (m s).0 ≡ ok tt

abbrev overall : (postgres redis rabbitmq : Result (Unit {0})) → String
overall r₁ r₂ r₃ = if all_ok (outcome r₁) (outcome r₃) (outcome r₂) then "ok" else "degraded"

status_iff :
    (r₁ r₂ r₃ : Result (Unit {0}))
    → (overall r₁ r₂ r₃ ≡ "ok") ↔ ((r₁ ≡ ok tt) × (r₂ ≡ ok tt) × (r₃ ≡ ok tt))
status_iff (ok x) (ok y) (ok z) = (λ _. (refl, refl, refl), λ _. refl)
status_iff (ok x) (ok y) (err e) = (λ h. ground (arith, eq_iff "degraded" "ok"), λ h. ground arith)
status_iff (ok x) (err e) r₃ = (λ h. ground (arith, eq_iff "degraded" "ok"), λ h. ground arith)
status_iff (err e) r₂ r₃ = (λ h. ground (arith, eq_iff "degraded" "ok"), λ h. ground arith)

-- The route answers whatever the three calls raise, and makes all of them: each is made in the state
-- that the one before left. The answer is "ok" if and only if all three returned.
pub health_lem :
    {S : Type 0} (postgres redis rabbitmq : Exec S (Unit {0})) (s : S)
    → let s₁ = (postgres s).1 in
      let s₂ = (redis s₁).1 in
      (r : HealthResponse) × (health postgres redis rabbitmq s ≡ (ok r, (rabbitmq s₂).1))
      × ((r.status ≡ "ok") ↔ (Returns postgres s × Returns redis s₁ × Returns rabbitmq s₂))
unfolding health
health_lem postgres redis rabbitmq s = (_, refl, status_iff _ _ _)
