-- ===== src/Server/Env/Active.antt =====
-- No client of the environment drains.
use download_gateway.Prelude.{Str}
use download_gateway.Adapters.Registry.{empty_registry}
use download_gateway.Adapters.Registry.Active.{IsActive, add_env-IsActive}
use download_gateway.Server.Env.{register_env_clients}
use download_gateway.Server.Env.Cases.{env_cases}

pub env-IsActive : (env : Str → Str) → IsActive (register_env_clients env empty_registry).clients
env-IsActive env = env_cases (λ r. IsActive r.clients) add_env-IsActive env empty_registry tt
