-- ===== src/Processes.antt =====
-- api.js, worker.js and outbox.js: the checks at start-up, and the shutdown on a signal. The package
-- dotenv, which db/connection.js calls when it is loaded, adds variables from a file: `dotenv` is
-- what it makes of the environment.
pub mod Shutdown
pub mod Checks
use payment_sim.Auth.{Env, validate_api_key_configuration, validate_admin_api_key_configuration}
use payment_sim.Config.{Config, config, validate_runtime_configuration}
use payment_sim.Value.{Host}
use payment_sim.Prelude.{ℕ, String, List, [], ◌∷◌, ◌>>=◌, ◌>>◌, if◌then◌else◌, Result, throw, ok}

-- What a started process knows: the configuration, read when config/config.js is loaded, and the
-- host with the environment that later calls see.
pub record Started : Type 0 where
  pub settings : Config
  pub host : Host

abbrev pub with_file : (Env → Env) → Host → Host
with_file dotenv h = record h { env = dotenv h.env }

-- api.js loads ./app first, and with it db/connection.js, before config/config.js and the checks.
unfoldable pub start_api : (Env → Env) → Host → Result Started
start_api dotenv h = do
  let h' = with_file dotenv h
  validate_api_key_configuration h'.env
  validate_admin_api_key_configuration h'.env
  validate_runtime_configuration h'.env
  ok (record { settings = config h'; host = h' })

-- worker.js checks before it loads db/connection.js; config/config.js is loaded by then.
unfoldable pub start_worker : (Env → Env) → Host → Result Started
start_worker dotenv h = do
  validate_runtime_configuration h.env
  ok (record { settings = config h; host = with_file dotenv h })

-- outbox.js does the same.
unfoldable pub start_outbox : (Env → Env) → Host → Result Started
start_outbox dotenv h = do
  validate_runtime_configuration h.env
  ok (record { settings = config h; host = with_file dotenv h })

-- What a shutdown leaves: what was closed, in order, and the exit code.
pub record Exit : Type 0 where
  pub closed : List String
  pub code : ℕ

-- `try { await a.close(); await b.close(); exit(0) } catch { exit(1) }`
unfoldable pub close_all : List (String × Result (Unit {0})) → Exit
close_all [] = record { closed = []; code = 0 }
close_all ((name, throw error) ∷ rest) = record { closed = []; code = 1 }
close_all ((name, ok u) ∷ rest) = let e = close_all rest in record e { closed = name ∷ e.closed }

-- `shutdown` of api.js: `server.close` answers through its callback
unfoldable pub shutdown_api : (server limiter pool : Result (Unit {0})) → Exit
unfolding close_all
shutdown_api server limiter pool =
    close_all (("server", server) ∷ ("rate limiter", limiter) ∷ ("pool", pool) ∷ [])

unfoldable pub shutdown_worker : (worker queue pool : Result (Unit {0})) → Exit
unfolding close_all
shutdown_worker worker queue pool =
    close_all (("worker", worker) ∷ ("queue", queue) ∷ ("pool", pool) ∷ [])

-- `clearInterval` twice, then the rest
unfoldable pub shutdown_outbox : (queue pool : Result (Unit {0})) → Exit
unfolding close_all
shutdown_outbox queue pool =
    let e = close_all (("queue", queue) ∷ ("pool", pool) ∷ []) in
    record e { closed = "outbox interval" ∷ "recovery interval" ∷ e.closed }
