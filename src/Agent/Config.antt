-- ===== src/Agent/Config.antt =====
-- crates/power-agent/src/config.rs: the configuration from the environment.
pub mod Laws
use k8s_power_management.Base.{
  ℕ, String, Bool, Option, none, some, Result, ok, err, str_eq, if◌then◌else◌,
}
use k8s_power_management.Text.{ParseIntError, parse_int_error_text, parse_uint, u64_limit}

pub data ConfigError : Type 0 where
  missing_env : String → ConfigError
  invalid_env : String → String → String → ConfigError

pub data LogFormat : Type 0 where
  pretty json : LogFormat

-- `resync_interval` in seconds.
pub record Config : Type 0 where
  pub node_name : String
  pub profile_label_key : String
  pub turbo_label_key : String
  pub resync_interval : ℕ
  pub metrics_addr : String
  pub log_format : LogFormat

-- `env::var(..)`, with its error, for a variable that is not set or is not Unicode, as `none`.
abbrev pub Environment : Type 0
Environment = String → Option String

abbrev or_default : Option String → String → String
or_default none d = d
or_default (some v) d = v

-- The match on `RESYNC_INTERVAL_SECONDS`.
unfoldable pub resync_seconds : Option String → Result ℕ ConfigError
resync_seconds none = ok 300
resync_seconds (some v) = elim (parse_uint u64_limit v) [
  | ok n ↦ ok n
  | err e ↦ err (invalid_env "RESYNC_INTERVAL_SECONDS" v (parse_int_error_text e))
]

abbrev log_format_of : Option String → LogFormat
log_format_of none = pretty
log_format_of (some v) = if str_eq v "json" then json else pretty

-- The configuration, once the name and the interval are there.
abbrev pub config_with : Environment → String → ℕ → Config
config_with env node_name seconds = record {
  node_name = node_name;
  profile_label_key = or_default (env "PROFILE_LABEL_KEY") "cpu-power.io/profile";
  turbo_label_key = or_default (env "TURBO_LABEL_KEY") "cpu-power.io/turbo";
  resync_interval = seconds;
  metrics_addr = or_default (env "METRICS_ADDR") "0.0.0.0:9090";
  log_format = log_format_of (env "LOG_FORMAT");
}

abbrev configured : Environment → String → Result ℕ ConfigError → Result Config ConfigError
configured env node_name (err e) = err e
configured env node_name (ok seconds) = ok (config_with env node_name seconds)

abbrev named : Environment → Option String → Result Config ConfigError
named env none = err (missing_env "NODE_NAME")
named env (some node_name) =
    configured env node_name (resync_seconds (env "RESYNC_INTERVAL_SECONDS"))

unfoldable pub from_env : Environment → Result Config ConfigError
unfolding resync_seconds
from_env env = named env (env "NODE_NAME")
