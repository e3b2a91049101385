-- ===== src/Agent/Runtime.antt =====
-- crates/power-agent/src/reconcile.rs: `Runtime`, its `reconcile_node` and the loop of `run`.
pub mod Laws
pub mod Echoes
pub mod Cut
use k8s_power_management.Base.{
  ℕ, String, Option, none, some, List, [], ◌∷◌, Result, ok, err, Bool, true, false,
}
use k8s_power_management.Base.Int.{ℤ}
use k8s_power_management.Error.{Format}
use k8s_power_management.Backend.Interface.{PowerBackend}
use k8s_power_management.Agent.Config.{Config}
use k8s_power_management.Agent.Reconcile.{ReconcileReport, reconcile_once}
use k8s_power_management.Agent.Status.{Client, Node, KubeError, get, patch_status, emit_events}
use k8s_power_management.Agent.Metrics.{Prometheus, Metrics, observe}

-- What the loop's `select!` sees next: the watch stream, or a tick of the resync timer. Each comes
-- with the answers of the two calls of `now_unix` while it is handled: that of `observe`, and that of
-- `reconcile_node` behind it.
pub data Occurrence : Type 0 where
  watch_node : Node → Occurrence
  watch_ended : Occurrence
  watch_failed : KubeError → Occurrence
  resync_tick : Occurrence

module _ (f : Format) (P : Prometheus) (client : Client) {S : Type 0} (config : Config)
    (backend : PowerBackend S) where
  -- The state of the machine and of the cluster, the metrics, and the shared `last_reconcile_unix`.
  pub record AgentState : Type 0 where
    pub machine : S
    pub cluster : client.State
    pub metrics : Metrics P
    pub last_reconcile_unix : ℤ

  -- The two labels of a node that `reconcile_node` looks up.
  abbrev pub report_for : Node → S → ReconcileReport × S
  report_for node =
      reconcile_once f backend (get config.profile_label_key node.labels)
        (get config.turbo_label_key node.labels)

  -- A failed patch is logged, and the events follow all the same.
  unfoldable pub reconcile_node : Node → ℤ → ℤ → AgentState → AgentState
  reconcile_node node observed now a =
      let (report, machine) = report_for node a.machine in
      record {
        machine = machine;
        cluster = emit_events client node report (patch_status client node report a.cluster).1;
        metrics = observe P report observed a.metrics;
        last_reconcile_unix = now;
      }

  -- The answer to a tick: the node, or its absence or an error, which are logged.
  abbrev pub resynced : Result (Option Node) KubeError → ℤ → ℤ → AgentState → AgentState
  resynced (ok (some node)) observed now a = reconcile_node node observed now a
  resynced (ok none) observed now a = a
  resynced (err e) observed now a = a

  -- The loop of `run`, over what happens: the state when it ends or waits, and whether it ended.
  unfoldable pub run : List (Occurrence × ℤ × ℤ) → AgentState → AgentState × Bool
  run [] a = (a, false)
  run ((watch_node node, observed, now) ∷ rest) a = run rest (reconcile_node node observed now a)
  run ((watch_ended, observed, now) ∷ rest) a = (a, true)
  run ((watch_failed e, observed, now) ∷ rest) a = run rest a
  run ((resync_tick, observed, now) ∷ rest) a =
      run rest (resynced (client.get_opt config.node_name a.cluster) observed now a)
