-- ===== src/Config.antt =====
-- config/config.js
pub mod Startup
use Prim.Native.String
use payment_sim.Prelude.{
  String, Bool, true, false, not, ◌&&◌, Option, none, some, List, [], ◌∷◌, if◌then◌else◌, Result,
  ok, ◌>>=◌, ◌>>◌, throw_if, ℕ,
}
use payment_sim.Value.{Host}
use payment_sim.Value.Numbers.{Num, of_ℕ, num_truthy, whole}
use payment_sim.Sensitive.{env_text, is_production}

pub record Config : Type 0 where
  pub port : Num
  pub worker_count : Num
  pub max_retries : Num
  pub transaction_limit : Num
  pub default_balance : Num
  pub inquiry_balance : Num

-- `Number(process.env[name]) || fallback`
abbrev pub number_or : Host → String → Num → Num
number_or h name fallback = elim (h.env name) [
  | none ↦ fallback
  | some s ↦ if num_truthy (h.number_of_string s) then h.number_of_string s else fallback
]

-- `Number(process.env[name]) || fallback`, a number of milliseconds or of attempts: its whole part
abbrev pub setting : Host → String → ℕ → ℕ
setting h name fallback = elim (h.env name) [
  | none ↦ fallback
  | some s ↦ if num_truthy (h.number_of_string s) then whole (h.number_of_string s) else fallback
]

unfoldable pub config : Host → Config
config h = record {
  port = number_or h "PORT" (of_ℕ 3000);
  worker_count = number_or h "WORKER_COUNT" (of_ℕ 3);
  max_retries = number_or h "MAX_RETRIES" (of_ℕ 3);
  transaction_limit = number_or h "TRANSACTION_LIMIT" (of_ℕ 10000);
  default_balance = number_or h "DEFAULT_BALANCE" (of_ℕ 5000);
  inquiry_balance = number_or h "INQUIRY_BALANCE" (of_ℕ 2500);
}

abbrev pub supported_issuer_types : List String
supported_issuer_types = "INTERNAL" ∷ "EXTERNAL" ∷ []

abbrev pub supported_networks : List String
supported_networks = "EXTERNAL_PROCESSOR" ∷ "CARD_NETWORK" ∷ []

abbrev pub supported_transaction_types : List String
supported_transaction_types = "PURCHASE" ∷ "CASH_WITHDRAWAL" ∷ "BALANCE_INQUIRY" ∷ "REVERSAL" ∷ []

abbrev pub supported_channels : List String
supported_channels =
    "DOMESTIC_ATM" ∷ "INTERNATIONAL_ATM" ∷ "DOMESTIC_POS" ∷ "INTERNATIONAL_POS" ∷ "ECOM" ∷ []

-- `riskRules`
abbrev pub international_atm_limit : Num
international_atm_limit = of_ℕ 1000

abbrev pub ecommerce_review_limit : Num
ecommerce_review_limit = of_ℕ 5000

abbrev pub international_pos_review_limit : Num
international_pos_review_limit = of_ℕ 3000

abbrev is_missing {ℓ} : {A : Type ℓ} → Option A → Bool
is_missing none = true
is_missing (some a) = false

-- the loop over the required names
require_env : (String → Option String) → List String → Result (Unit {0})
require_env env [] = ok tt
require_env env (name ∷ names) = do
  throw_if (is_missing (env_text env name))
      (String.◌++◌ name " must be set when NODE_ENV=production")
  require_env env names

unfoldable pub validate_runtime_configuration : (String → Option String) → Result (Unit {0})
unfolding require_env
validate_runtime_configuration env = if not (is_production env) then ok tt else do
  require_env env ("DATABASE_URL" ∷ "CARD_FINGERPRINT_SECRET" ∷ [])
  throw_if (is_missing (env_text env "REDIS_URL") && is_missing (env_text env "REDIS_HOST"))
      "REDIS_URL or REDIS_HOST must be set when NODE_ENV=production"
