-- ===== src/Agent/Start.antt =====
-- crates/power-agent/src/main.rs: the start of the agent, and its end by the loop or by a signal.
pub mod Laws
pub mod Shutdown
pub mod Probes
use k8s_power_management.Base.{
  ℕ, String, ◌<>◌, ◌==◌, Bool, true, false, Option, none, some, List, Result, ok, err, map_err,
  ◌>>=◌, if◌then◌else◌,
}
use k8s_power_management.Base.Int.{ℤ, pos}
use k8s_power_management.Error.{Format}
use k8s_power_management.Sysfs.{SysfsIo}
use k8s_power_management.Backend.Interface.{Host}
use k8s_power_management.Backend.Detect.{Backend, detect_backend, methods, fresh}
use k8s_power_management.Agent.Config.{
  Config, LogFormat, json, pretty, ConfigError, Environment, from_env,
}
use k8s_power_management.Agent.Health.{staleness_threshold}
use k8s_power_management.Agent.Status.{Client}
use k8s_power_management.Agent.Metrics.{Prometheus}
use k8s_power_management.Agent.Metrics.Registry.{Exposition, Registered, new}
use k8s_power_management.Agent.Http.{HttpState}
use k8s_power_management.Agent.Signals.{Signal, Handlers, shutdown_signal}
use k8s_power_management.Agent.Runtime.{Occurrence, AgentState, run}
use k8s_power_management.Agent.Runtime.Cut.{Handling, begin}

-- What the calls of other crates answer at the start: `Client::try_default`, and `TcpListener::bind`
-- at an address, an error by its text; whether the handlers of the signals could be installed; and
-- `EnvFilter::try_from_default_env`.
pub record Outside : Type 0 where
  pub try_default : Result (Unit {0}) String
  pub bind : String → Result (Unit {0}) String
  pub handlers : Handlers
  pub env_filter : Option String

pub data StartCause (MetricError : Type 0) : Type 0 where
  config_error : ConfigError → StartCause MetricError
  kube_error : String → StartCause MetricError
  metric_error : MetricError → StartCause MetricError
  io_error : String → StartCause MetricError

-- An `anyhow::Error` with the text of its `context`, or a panic.
pub data Halt (MetricError : Type 0) : Type 0 where
  failed : String → StartCause MetricError → Halt MetricError
  panicked : Halt MetricError

abbrev context : {A E ME : Type 0} → Result A E → (E → StartCause ME) → String → Result A (Halt ME)
context r cause text = map_err r (λ e. failed text (cause e))

-- A call that panics on `none`.
abbrev or_panic : {A ME : Type 0} → Option A → Result A (Halt ME)
or_panic none = err panicked
or_panic (some a) = ok a

-- `tokio::time::interval`, which panics on an interval of zero.
unfoldable pub interval : ℕ → Option ℕ
interval period = if period == 0 then none else some period

-- The subscriber of the crate `tracing_subscriber` that is installed: its filter and its form.
pub record Subscriber : Type 0 where
  pub filter : String
  pub is_json : Bool

-- `init_tracing`; the filter of the environment is `none` where there is none that can be read.
abbrev pub init_tracing : Option String → LogFormat → Subscriber
init_tracing none json = record { filter = "info"; is_json = true }
init_tracing none pretty = record { filter = "info"; is_json = false }
init_tracing (some filter) json = record { filter = filter; is_json = true }
init_tracing (some filter) pretty = record { filter = filter; is_json = false }

-- The `select!` polls its branches in a random order. The first poll decides whether `run` is begun at
-- all: with `shutdown_signal` first, and the signals that it sees by then, it may be over at once.
pub data FirstPoll : Type 0 where
  run_first : FirstPoll
  shutdown_first : List Signal → FirstPoll

unfoldable pub at_once : Handlers → FirstPoll → Bool
at_once h run_first = false
at_once h (shutdown_first signals) = shutdown_signal h signals

-- What the `select!` sees up to some time: its first poll, the occurrences that are handled to their end, the one that
-- is being handled at that time, if there is one, and the signals.
pub record Life : Type 0 where
  pub first_poll : FirstPoll
  pub occurrences : List (Occurrence × ℤ × ℤ)
  pub handling : Option Handling
  pub signals : List Signal

module _ (f : Format) (P : Prometheus) (E : Exposition P) (client : Client) (sysfs : SysfsIo) where
  -- What is there before the `select!`.
  pub record Started : Type 0 where
    pub config : Config
    pub subscriber : Subscriber
    pub backend : Backend
    pub registered : Registered P E
    pub http_state : HttpState P E

  unfoldable pub start : Environment → Outside → sysfs.State → Result Started (Halt E.MetricError)
  start env outside s = do
    config ← context (from_env env) config_error "invalid configuration"
    let subscriber = init_tracing outside.env_filter config.log_format
    let backend = detect_backend sysfs s
    u ← context outside.try_default kube_error "failed to build Kubernetes client"
    registered ← context (new P E) metric_error "failed to initialize metrics"
    threshold ← or_panic (staleness_threshold config.resync_interval)
    v ←
        context (outside.bind config.metrics_addr) io_error
          ("failed to bind metrics server on " <> config.metrics_addr)
    ok (record {
      config = config;
      subscriber = subscriber;
      backend = backend;
      registered = registered;
      http_state = record {
        metrics = registered.metrics;
        registry = registered.registry;
        last_reconcile_unix = pos 0;
        staleness_threshold = threshold;
      };
    })

  -- The state of the loop before it is entered, and what the loop makes of it.
  module _ (r : Started) where
    abbrev pub Agent : Type 0
    Agent = AgentState f P client r.config (methods sysfs r.backend)

    abbrev pub entered : sysfs.State → client.State → Agent
    entered s cluster = record {
      machine = fresh sysfs s;
      cluster = cluster;
      metrics = r.registered.metrics;
      last_reconcile_unix = pos 0;
    }

    abbrev handled : Option Handling → Agent → Agent
    handled none a = a
    handled (some h) a = begin f P client r.config (methods sysfs r.backend) h a

    -- The loop, once begun, until it ends, or else until that time, and whether the `select!` is over: by the end of
    -- the loop or by the shutdown. Neither way changes anything more.
    unfoldable pub select : Bool → Life → Agent → Agent × Bool
    select shutdown life a =
        let (b, ended) = run f P client r.config (methods sysfs r.backend) life.occurrences a in
        if ended then (b, true) else (handled life.handling b, shutdown)

  -- The result of `main`, once it has one.
  pub record Outcome : Type 0 where
    pub result : Option (Result (Unit {0}) (Halt E.MetricError))
    pub machine : Host sysfs
    pub cluster : client.State

  -- Behind the start: over at once, the panic of `run`, or the loop.
  abbrev lived :
      (r : Started) → Option ℕ → Bool → Bool → Life → sysfs.State → client.State → Outcome
  lived r period true shutdown life s cluster = record {
    result = some (ok tt);
    machine = fresh sysfs s;
    cluster = cluster;
  }
  lived r none false shutdown life s cluster = record {
    result = some (err panicked);
    machine = fresh sysfs s;
    cluster = cluster;
  }
  lived r (some period) false shutdown life s cluster =
      let (a, over) = select r shutdown life (entered r s cluster) in
      record {
        result = if over then some (ok tt) else none;
        machine = a.machine;
        cluster = a.cluster;
      }

  abbrev begun :
      Result Started (Halt E.MetricError)
      → Bool
      → Bool
      → Life
      → sysfs.State
      → client.State
      → Outcome
  begun (err halt) early shutdown life s cluster = record {
    result = some (err halt);
    machine = fresh sysfs s;
    cluster = cluster;
  }
  begun (ok r) early shutdown life s cluster =
      lived r (interval r.config.resync_interval) early shutdown life s cluster

  unfoldable pub main : Environment → Outside → Life → sysfs.State → client.State → Outcome
  unfolding interval at_once
  main env outside life s cluster =
      begun (start env outside s) (at_once outside.handlers life.first_poll)
        (shutdown_signal outside.handlers life.signals) life s cluster
