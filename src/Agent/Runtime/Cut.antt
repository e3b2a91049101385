-- ===== src/Agent/Runtime/Cut.antt =====
-- What the loop of crates/power-agent/src/reconcile.rs does with an occurrence up to one of the `.await`s,
-- at which the `select!` of crates/power-agent/src/main.rs drops it when the shutdown signal is there.
use k8s_power_management.Base.{ℕ, zero, suc, Option, none, some, List, [], ◌∷◌, Result, ok, err}
use k8s_power_management.Base.Int.{ℤ}
use k8s_power_management.Error.{Format}
use k8s_power_management.Backend.Interface.{PowerBackend}
use k8s_power_management.Agent.Config.{Config}
use k8s_power_management.Agent.Reconcile.{ReconcileReport}
use k8s_power_management.Agent.Status.{Client, Node, K8sEvent, KubeError, events_of, patch_status}
use k8s_power_management.Agent.Metrics.{Prometheus, observe}
use k8s_power_management.Agent.Runtime.{AgentState, report_for}

-- How far the cluster has got of the calls of a reconcile: nothing of its patch, or all of it and the
-- first `n` events.
pub data Progress : Type 0 where
  patching : Progress
  publishing : (n : ℕ) → Progress

-- At which `.await` the handling of an occurrence stands: in the reconcile of a node of the watch stream,
-- at the `get_opt` of a tick, or in the reconcile behind that. Each reconcile has its two times.
pub data Handling : Type 0 where
  watched : Node → (observed now : ℤ) → Progress → Handling
  fetching : Handling
  fetched : (observed now : ℤ) → Progress → Handling

module _ (client : Client) where
  -- The first `n` calls of `publish`.
  pub publish_first : ℕ → Node → List K8sEvent → client.State → client.State
  publish_first zero node events s = s
  publish_first (suc n) node [] s = s
  publish_first (suc n) node (e ∷ events) s =
      publish_first n node events (client.publish node.name e s).1

  abbrev pub reached : Progress → Node → ReconcileReport → client.State → client.State
  reached patching node report s = s
  reached (publishing n) node report s =
      publish_first n node (events_of report) (patch_status client node report s).1

module _ (f : Format) (P : Prometheus) (client : Client) {S : Type 0} (config : Config)
    (backend : PowerBackend S) where
  -- What is before the first `.await` is done in any case.
  abbrev pub cut_reconcile :
      Node
      → ℤ
      → ℤ
      → Progress
      → AgentState f P client config backend
      → AgentState f P client config backend
  cut_reconcile node observed now progress a =
      let (report, machine) = report_for f P client config backend node a.machine in
      record {
        machine = machine;
        cluster = reached client progress node report a.cluster;
        metrics = observe P report observed a.metrics;
        last_reconcile_unix = now;
      }

  abbrev pub cut_resync :
      Result (Option Node) KubeError
      → ℤ
      → ℤ
      → Progress
      → AgentState f P client config backend
      → AgentState f P client config backend
  cut_resync (ok (some node)) observed now progress a = cut_reconcile node observed now progress a
  cut_resync (ok none) observed now progress a = a
  cut_resync (err e) observed now progress a = a

  -- A handling that is dropped there.
  unfoldable pub begin :
      Handling → AgentState f P client config backend → AgentState f P client config backend
  begin (watched node observed now progress) a = cut_reconcile node observed now progress a
  begin fetching a = a
  begin (fetched observed now progress) a =
      cut_resync (client.get_opt config.node_name a.cluster) observed now progress a
