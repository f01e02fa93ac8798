-- ===== src/Auth.antt =====
-- middleware/apiKeyAuth.js, middleware/statusAuthorization.js and middleware/corsConfig.js
pub mod Keys
pub mod Access
use Prim.Native.String
use payment_sim.Text.{trim, split, split_once, unique}
use payment_sim.Value.{Host}
use payment_sim.Sensitive.{env_text, is_production}
use payment_sim.Store.Tables.{Row, equals?}
use payment_sim.Prelude.{
  String, Bool, true, false, not, ◌&&◌, ◌||◌, Option, none, some, List, [], ◌∷◌, ◌++◌, map, ◌==◌,
  eqb, if◌then◌else◌, any, select, find, Result, ok, throw, throw_if,
}

abbrev pub Env : Type 0
Env = String → Option String

abbrev pub dev_api_key : String
dev_api_key = "dev-api-key"

abbrev pub dev_admin_api_key : String
dev_admin_api_key = "dev-admin-api-key"

abbrev pub or_text : Option String → String → String
or_text none fallback = fallback
or_text (some s) fallback = s

abbrev pub not_empty : String → Bool
not_empty s = not (s == "")

-- the first variable, a list separated by commas
abbrev listed_keys : Option String → List String
listed_keys none = []
listed_keys (some s) = select not_empty (map trim (split b',' s))

-- the second variable, one key
abbrev single_key : Option String → List String
single_key none = []
single_key (some s) = trim s ∷ []

unfoldable pub parse_keys : Env → String → String → List String
unfolding trim split unique
parse_keys env many one =
    unique (select not_empty (listed_keys (env_text env many) ++ single_key (env_text env one)))

pub record Credential : Type 0 where
  pub client_id : String
  pub key : String

abbrev credential_parts : String → String → Option (String × String) → Credential
credential_parts default entry none = record { client_id = default; key = entry }
credential_parts default entry (some (client, key)) = record {
  client_id = if trim client == "" then default else trim client;
  key = trim key;
}

unfoldable pub parse_entry : String → String → Credential
unfolding split_once trim
parse_entry default entry = credential_parts default entry (split_once b':' entry)

abbrev pub default_client_id : Env → String
default_client_id env =
    or_text (env_text env "API_CLIENT_ID") (or_text (env_text env "CLIENT_ID") "default-client")

unfoldable pub parse_api_credentials : Env → List Credential
unfolding parse_keys parse_entry
parse_api_credentials env =
    select (λ c. not_empty c.key)
      (map (parse_entry (default_client_id env)) (parse_keys env "API_KEYS" "API_KEY"))

unfoldable pub parse_api_keys : Env → List String
unfolding parse_api_credentials
parse_api_keys env = map (λ c. c.key) (parse_api_credentials env)

unfoldable pub parse_admin_api_keys : Env → List String
unfolding parse_keys
parse_admin_api_keys env = parse_keys env "ADMIN_API_KEYS" "ADMIN_API_KEY"

-- `configured`, the development fallback outside production, nothing in production
abbrev pub configured_or {ℓ} : {A : Type ℓ} → Env → A → List A → List A
configured_or env dev (c ∷ cs) = c ∷ cs
configured_or env dev [] = if is_production env then [] else dev ∷ []

unfoldable pub get_configured_api_credentials : Env → List Credential
unfolding parse_api_credentials
get_configured_api_credentials env =
    configured_or env (record { client_id = "development-client"; key = dev_api_key })
      (parse_api_credentials env)

unfoldable pub get_configured_admin_api_keys : Env → List String
unfolding parse_admin_api_keys
get_configured_admin_api_keys env = configured_or env dev_admin_api_key (parse_admin_api_keys env)

abbrev pub no_entries {ℓ} : {A : Type ℓ} → List A → Bool
no_entries [] = true
no_entries (x ∷ xs) = false

unfoldable pub validate_api_key_configuration : Env → Result (Unit {0})
unfolding parse_api_keys
validate_api_key_configuration env =
    throw_if (is_production env && no_entries (parse_api_keys env))
      "API_KEY or API_KEYS must be set when NODE_ENV=production"

abbrev admin_endpoints_enabled : Env → Bool
admin_endpoints_enabled env = not (equals? (env "ADMIN_ENDPOINTS_ENABLED") "false")

unfoldable pub validate_admin_api_key_configuration : Env → Result (Unit {0})
unfolding parse_admin_api_keys
validate_admin_api_key_configuration env =
    throw_if
      (is_production env && admin_endpoints_enabled env && no_entries (parse_admin_api_keys env))
      "ADMIN_API_KEY or ADMIN_API_KEYS must be set when NODE_ENV=production and admin endpoints are enabled"

-- `String.len` counts the bytes.
unfoldable pub constant_time_equals : Host → String → String → Bool
constant_time_equals h a b = eqb (String.len a) (String.len b) && h.timing_safe_equal a b

-- A missing header and an empty one are refused alike.
unfoldable pub authenticate_api_key : Host → Option String → List Credential → Option Credential
authenticate_api_key h none credentials = none
authenticate_api_key h (some provided) credentials =
    if provided == "" then none else find (λ c. constant_time_equals h provided c.key) credentials

-- `getConfiguredApiKeys`
unfoldable pub get_configured_api_keys : Env → List String
unfolding get_configured_api_credentials
get_configured_api_keys env = map (λ c. c.key) (get_configured_api_credentials env)

abbrev is_found {ℓ} : {A : Type ℓ} → Option A → Bool
is_found none = false
is_found (some a) = true

-- `isValidApiKey`
unfoldable pub is_valid_api_key : Host → Option String → List String → Bool
unfolding authenticate_api_key
is_valid_api_key h provided keys =
    is_found
      (authenticate_api_key h provided (map (λ k. record { client_id = "unknown"; key = k }) keys))

unfoldable pub is_valid_admin_api_key : Host → Option String → List String → Bool
is_valid_admin_api_key h none keys = false
is_valid_admin_api_key h (some provided) keys =
    not_empty provided && any (constant_time_equals h provided) keys

-- `req.auth`
pub data Auth : Type 0 where
  client : String → Auth
  admin : Auth

-- `none` is the answer 401.
unfoldable pub api_key_auth : Host → Option String → Option Auth
unfolding authenticate_api_key get_configured_api_credentials
api_key_auth h provided =
    elim (authenticate_api_key h provided (get_configured_api_credentials h.env)) [
      | none ↦ none
      | some c ↦ some (client c.client_id)
    ]

unfoldable pub admin_api_key_auth : Host → Option String → Bool
admin_api_key_auth h provided =
    is_valid_admin_api_key h provided (get_configured_admin_api_keys h.env)

unfoldable pub api_key_or_admin_auth : Host → Option String → Option String → Option Auth
unfolding admin_api_key_auth
api_key_or_admin_auth h admin_key key =
    if admin_api_key_auth h admin_key then some admin else api_key_auth h key

-- `transaction.client_id === auth.clientId`, for the row that was found
unfoldable pub can_access_transaction_status : Auth → Row → Bool
can_access_transaction_status admin r = true
can_access_transaction_status (client id) r = equals? r.client_id id

unfoldable pub parse_allowed_origins : Env → List String
unfolding trim split
parse_allowed_origins env = listed_keys (env_text env "ALLOWED_ORIGINS")

-- A request without an Origin header is let through.
unfoldable pub is_origin_allowed : Env → Option String → Bool
is_origin_allowed env none = true
is_origin_allowed env (some origin) =
    origin == "" || not (is_production env) || any (λ o. o == origin) (parse_allowed_origins env)

-- the `origin` of `buildCorsOptions`: what it passes to its callback
unfoldable pub cors_origin : Env → Option String → Result Bool
unfolding is_origin_allowed
cors_origin env origin =
    if is_origin_allowed env origin then ok true else throw "CORS origin not allowed"
