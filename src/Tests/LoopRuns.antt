-- ===== src/Tests/LoopRuns.antt =====
-- The theorems about the metrics, the health answer, the configuration, the loop of the agent and
-- the command line, on that host.
use k8s_power_management.Base.{
  String, ◌≡◌, ◌≢◌, ◌↔◌, refl, true, Option, none, some, List, [], ◌∷◌, ok, err, In, arith, eq_refl,
  ℕ, suc, ◌≤◌, ◌*◌, if◌then◌else◌, str_eq, str_eq-cases, inl, inr,
}
use k8s_power_management.Base.Int.{ℤ, pos}
use k8s_power_management.Text.{decimal, u64_limit}
use k8s_power_management.Profile.{PowerProfile, as_kernel_str}
use k8s_power_management.Backend.Interface.{Host, BackendKind, kind_text}
use k8s_power_management.Backend.Detect.{detect_backend, methods, fresh}
use k8s_power_management.Agent.Metrics.{Prometheus, Metrics, observe}
use k8s_power_management.Agent.Metrics.Laws.{observe-one_hot}
use k8s_power_management.Agent.Health.{healthz_handler, stale, staleness_threshold}
use k8s_power_management.Agent.Health.Laws.{healthz-clock_back}
use k8s_power_management.Agent.Config.{Config, LogFormat, Environment, from_env}
use k8s_power_management.Agent.Config.Laws.{from_env-interval}
use k8s_power_management.Agent.Runtime.{
  Occurrence, watch_node, watch_ended, watch_failed, resync_tick, AgentState, run,
}
use k8s_power_management.Agent.Runtime.Laws.{what, run-ends_iff}
use k8s_power_management.Cli.{success, failure, apply, probe, read}
use k8s_power_management.Cli.Readers.{readers_keep_files}
use k8s_power_management.Error.{PowerError}
use k8s_power_management.Topology.{discover_policies}
use k8s_power_management.Cli.Laws.{ProfileDone, TurboDone, apply-success_iff}
use k8s_power_management.Tests.{machine, disk}
use k8s_power_management.Tests.Hal.{start}
use k8s_power_management.Tests.AgentRuns.{text_format, backend, cluster, report, node}

abbrev pub set_in {ℓ} : {A : Type ℓ} → String → A → (String → A) → String → A
set_in l v g m = if str_eq l m then v else g m

pub set_in_self {ℓ} : {A : Type ℓ} (l : String) (v : A) (g : String → A) → set_in l v g l ≡ v
set_in_self l v g = rw (eq_refl l)

pub set_in-ne {ℓ} :
    {A : Type ℓ} (l m : String) (v : A) (g : String → A) → l ≢ m → set_in l v g m ≡ g m
set_in-ne l m v g h = elim (str_eq-cases l m) [
  | inl (same, e) ↦ absurd (h e)
  | inr (differ, n) ↦ rw differ
]

abbrev pub registry : Prometheus
registry = record {
  GaugeVec = String → Option ℕ;
  set_gauge = λ l v g. set_in l (some v) g;
  gauge = λ l g. g l;
  CounterVec = String → ℕ;
  inc = λ l c. set_in l (suc (c l)) c;
  count = λ l c. c l;
  gauge-set_self = λ l v g. set_in_self l (some v) g;
  gauge-set_ne = λ l m v g h. set_in-ne l m (some v) g h;
  count-inc_self = λ l c. set_in_self l (suc (c l)) c;
  count-inc_ne = λ l m c h. set_in-ne l m (suc (c l)) c h;
}

abbrev pub no_metrics : Metrics registry
no_metrics = record {
  profile_applied = λ l. none;
  backend_kind = λ l. none;
  turbo_enabled = 0;
  turbo_managed = 0;
  reconcile_total = λ l. 0;
  last_reconcile_timestamp = pos 0;
}

observe-one_hot_example :
    let after = observe registry report (pos 7) no_metrics in
    (registry.gauge (as_kernel_str report.profile) after.profile_applied ≡ some 1)
    × ((q : PowerProfile)
        → q ≢ report.profile
        → registry.gauge (as_kernel_str q) after.profile_applied ≡ some 0)
    × (registry.gauge (kind_text report.backend_kind) after.backend_kind ≡ some 1)
    × ((k : BackendKind)
        → k ≢ report.backend_kind
        → registry.gauge (kind_text k) after.backend_kind ≡ some 0)
observe-one_hot_example = observe-one_hot registry report (pos 7) no_metrics

pub threshold_900 : staleness_threshold 300 ≡ some 900
unfolding staleness_threshold
threshold_900 = refl

healthz-clock_back_example : healthz_handler (pos 1_001) (pos 1_000) 900 ≡ stale
healthz-clock_back_example =
    healthz-clock_back 1_001 1_000 900 (omega arith) (omega arith) (omega arith)

-- An interval of 0 seconds.
abbrev environment : Environment
environment name =
    if str_eq name "NODE_NAME"
    then some "n1"
    else if str_eq name "RESYNC_INTERVAL_SECONDS"
    then some (decimal 0)
    else none

from_env-interval_example :
    ((c : Config) × ((from_env environment ≡ ok c)
        × (c.resync_interval ≡ 0)
        × (c.node_name ≡ "n1")))
    × ((staleness_threshold 0 ≡ none) ↔ (u64_limit ≤ 3 * 0))
from_env-interval_example = from_env-interval environment "n1" 0 refl refl (omega arith)

abbrev pub config : Config
config = record {
  node_name = "n1";
  profile_label_key = "cpu-power.io/profile";
  turbo_label_key = "cpu-power.io/turbo";
  resync_interval = 300;
  metrics_addr = "0.0.0.0:9090";
  log_format = LogFormat.json;
}

abbrev agent : AgentState text_format registry cluster config backend
agent = record { machine = start; cluster = []; metrics = no_metrics; last_reconcile_unix = pos 0 }

abbrev history : List (Occurrence × ℤ × ℤ)
history =
    (watch_node node, pos 10, pos 11)
    ∷ (resync_tick, pos 20, pos 21)
    ∷ (watch_failed (record { message = "gone" }), pos 30, pos 31)
    ∷ (watch_ended, pos 40, pos 41)
    ∷ []

run-ends_iff_example :
    ((run text_format registry cluster config backend history agent).1 ≡ true)
    ↔ In watch_ended (what history)
run-ends_iff_example = run-ends_iff text_format registry cluster config backend history agent

apply-success_iff_example :
    let b = methods machine (detect_backend machine disk) in
    let outcome = apply text_format machine (some "power") (some "disabled") disk in
    (outcome.0 ≡ success) ↔ (
      (¬ (
        (◌≡◌ {A = Option String} (some "power") none)
        × (◌≡◌ {A = Option String} (some "disabled") none)))
      × ((h : Host machine) × ProfileDone text_format b (some "power") (fresh machine disk) h
          × TurboDone text_format b (some "disabled") h outcome.2))
apply-success_iff_example =
    apply-success_iff text_format machine (some "power") (some "disabled") disk

readers_keep_files_example :
    ((probe text_format machine disk).2.files ≡ disk)
    × ((read text_format machine disk).2.files ≡ disk)
    × (((probe text_format machine disk).0 ≡ failure)
        ↔ ((e : PowerError) × (discover_policies machine disk ≡ err e)))
readers_keep_files_example = readers_keep_files machine text_format disk
