-- ===== src/Tests/Access.antt =====
-- API keys and status requests on small data.
use mathlib.Core.List.{Memᴰ}
use payment_sim.Tests.Samples.{small_host, empty_db, sample_row, Differ}
use payment_sim.App.{get_status}
use payment_sim.Auth.{
  dev_api_key, parse_keys, Credential, parse_api_credentials, parse_admin_api_keys,
  get_configured_api_credentials, get_configured_admin_api_keys, constant_time_equals,
  authenticate_api_key, is_valid_admin_api_key, client, api_key_auth, admin_api_key_auth,
  api_key_or_admin_auth, can_access_transaction_status,
}
use payment_sim.Auth.Keys.{allowed_credentials, api_key_sound, api_key_complete}
use payment_sim.Auth.Access.{IsAdmin, IsOwner, status_shown}
use payment_sim.Store.Tables.{completed, Row, Db, first_where}
use payment_sim.Store.Updates.{get_transaction}
use payment_sim.Text.{unique}
use payment_sim.Prelude.{◌≡◌, refl, ◌≢◌, none, some, [], ◌∷◌, ◌⊎◌}

abbrev dev_credential : Credential
dev_credential = record { client_id = "development-client"; key = dev_api_key }

api_key_sound_example :
    (c : Credential) × (some "dev-api-key" ≡ some c.key)
    × (c.key ≢ "")
    × (client "development-client" ≡ client c.client_id)
    × Memᴰ c (allowed_credentials small_host.env)
unfolding api_key_auth authenticate_api_key get_configured_api_credentials parse_api_credentials
    parse_keys constant_time_equals unique
api_key_sound_example =
    api_key_sound small_host (some "dev-api-key") (client "development-client") (λ a b e. refl) refl

key_named : Differ "dev-api-key" ""
key_named e = cc

api_key_complete_example :
    (d : Credential) × Memᴰ d (get_configured_api_credentials small_host.env)
    × (d.key ≡ "dev-api-key")
    × (api_key_auth small_host (some "dev-api-key") ≡ some (client d.client_id))
unfolding get_configured_api_credentials parse_api_credentials parse_keys unique
api_key_complete_example =
    api_key_complete small_host dev_credential (λ a b e. refl) (Memᴰ.head refl) key_named

abbrev own_row : Row
own_row = record (sample_row completed) { client_id = some "development-client" }

abbrev own_db : Db
own_db = record empty_db { transactions = own_row ∷ [] }

status_shown_example :
    (get_transaction "txn-1" own_db ≡ some own_row)
    × (IsAdmin small_host none ⊎ IsOwner small_host (some "dev-api-key") own_row)
unfolding get_status get_transaction first_where can_access_transaction_status api_key_or_admin_auth
    admin_api_key_auth is_valid_admin_api_key api_key_auth authenticate_api_key
    get_configured_api_credentials get_configured_admin_api_keys parse_admin_api_keys
    parse_api_credentials parse_keys constant_time_equals unique
status_shown_example =
    status_shown small_host none (some "dev-api-key") "txn-1" own_db own_row (λ a b e. refl) refl
