-- ===== src/Processes/Checks.antt =====
-- What the checks at start-up see.
use payment_sim.Processes.{Started, with_file, start_api, start_worker}
use payment_sim.Auth.{Env, validate_api_key_configuration, validate_admin_api_key_configuration}
use payment_sim.Config.{config, validate_runtime_configuration}
use payment_sim.Value.{Host, Value}
use payment_sim.Sensitive.{is_production}
use payment_sim.Prelude.{◌≡◌, refl, ap, subst, false, none, Result, throw, ok, >>=-eq-ok}

-- A worker whose own environment is not that of production starts whatever the file of dotenv adds,
-- also if that makes it a production process in which the check would throw.
pub start_worker-unchecked :
    (dotenv : Env → Env) (h : Host)
    → is_production h.env ≡ false
    → start_worker dotenv h ≡ ok (record { settings = config h; host = with_file dotenv h })
unfolding start_worker validate_runtime_configuration
start_worker-unchecked dotenv h other = rw other refl

abbrev env_of : Result Started → Env
env_of (ok s) = s.host.env
env_of (throw error) = λ name. none

-- An API that starts has passed the check in the environment that it runs with.
pub start_api-checked :
    (dotenv : Env → Env) (h : Host) (s : Started)
    → start_api dotenv h ≡ ok s
    → validate_runtime_configuration s.host.env ≡ ok tt
unfolding start_api
start_api-checked dotenv h s e =
    let (_, _, e1) = >>=-eq-ok (validate_api_key_configuration (dotenv h.env)) _ e in
    let (_, _, e2) = >>=-eq-ok (validate_admin_api_key_configuration (dotenv h.env)) _ e1 in
    let (u, passed, e3) = >>=-eq-ok (validate_runtime_configuration (dotenv h.env)) _ e2 in
    subst (λ (env : Env). validate_runtime_configuration env ≡ ok tt)
      (ap (λ (r : Result Started). env_of r) e3) passed
