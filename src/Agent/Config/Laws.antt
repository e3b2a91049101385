-- ===== src/Agent/Config/Laws.antt =====
-- Lemmas on `Config::from_env` of crates/power-agent/src/config.rs.
use k8s_power_management.Base.{ℕ, String, ◌≡◌, ◌↔◌, ◌*◌, ◌<◌, ◌≤◌, refl, none, some, ok, arith}
use k8s_power_management.Text.{u64_limit, decimal}
use k8s_power_management.Text.Numbers.{parse_uint-decimal}
use k8s_power_management.Agent.Config.{Config, Environment, resync_seconds, config_with, from_env}
use k8s_power_management.Agent.Health.{staleness_threshold}

resync_seconds-decimal : (n : ℕ) → n < u64_limit → resync_seconds (some (decimal n)) ≡ ok n
unfolding resync_seconds
resync_seconds-decimal n h = rw (resync_seconds, parse_uint-decimal u64_limit n h) refl

-- Every interval of an unsigned 64-bit number of seconds is accepted as it is written, 0 too; and
-- the start of the agent then panics exactly for those of which three exceed 64 bits.
pub from_env-interval :
    (env : Environment) (node_name : String) (n : ℕ)
    → env "NODE_NAME" ≡ some node_name
    → env "RESYNC_INTERVAL_SECONDS" ≡ some (decimal n)
    → n < u64_limit
    → ((c : Config) × ((from_env env ≡ ok c) × (c.resync_interval ≡ n) × (c.node_name ≡ node_name)))
      × ((staleness_threshold n ≡ none) ↔ (u64_limit ≤ 3 * n))
unfolding from_env staleness_threshold
from_env-interval env node_name n name seconds h = (
  (
    config_with env node_name n,
    (rw (from_env, name, seconds, resync_seconds-decimal n h) refl, refl, refl),
  ),
  ((λ e. ground arith), (λ b. ground arith)),
)
