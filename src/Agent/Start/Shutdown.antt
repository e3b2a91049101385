-- ===== src/Agent/Start/Shutdown.antt =====
-- What a shutdown signal leaves behind, by `main` of crates/power-agent/src/main.rs.
use k8s_power_management.Base.{
  Bool, String, ◌≡◌, ◌<◌, sym, ap, subst, ◌∙◌, false, Bool-cases, inl, inr, Option, none, some,
  List, [], ◌∷◌, ok,
}
use k8s_power_management.Base.Int.{ℤ}
use k8s_power_management.Error.{Format}
use k8s_power_management.Profile.{PowerProfile}
use k8s_power_management.Sysfs.{SysfsIo, IsLawful}
use k8s_power_management.Backend.Interface.{PowerBackend, Host}
use k8s_power_management.Backend.Detect.{Backend, detect_backend, methods}
use k8s_power_management.Backend.Detect.Laws.{Enforced}
use k8s_power_management.Agent.Config.{Config, Environment}
use k8s_power_management.Agent.Reconcile.{reconcile_once, result_label}
use k8s_power_management.Agent.Reconcile.Labels.{AsksProfile}
use k8s_power_management.Agent.Reconcile.Delivery.{reconcile_once-delivers}
use k8s_power_management.Agent.Status.{Client, Node, get}
use k8s_power_management.Agent.Metrics.{Prometheus, Metrics}
use k8s_power_management.Agent.Metrics.Registry.{Exposition}
use k8s_power_management.Agent.Runtime.{
  Occurrence, watch_node, resync_tick, AgentState, report_for, run,
}
use k8s_power_management.Agent.Runtime.Cut.{Handling, watched, fetching, fetched, cut_resync, begin}
use k8s_power_management.Agent.Signals.{Stops}
use k8s_power_management.Agent.Start.{Outside, Life, Started, start, entered, select, main, at_once}
use k8s_power_management.Agent.Start.Laws.{
  main-started, start-backend, main-success_iff, start-CanStart, IsAtOnce, at_once-IsAtOnce_iff,
}

module _ (f : Format) (P : Prometheus) (client : Client) {S : Type 0} (config : Config)
    (backend : PowerBackend S) where
  -- All but the cluster.
  abbrev pub local : AgentState f P client config backend → S × Metrics P × ℤ
  local a = (a.machine, a.metrics, a.last_reconcile_unix)

  -- What a handling counts for: nothing while the node is being fetched, and else its occurrence.
  abbrev pub counts_for : Handling → List (Occurrence × ℤ × ℤ)
  counts_for (watched node observed now progress) = (watch_node node, observed, now) ∷ []
  counts_for fetching = []
  counts_for (fetched observed now progress) = (resync_tick, observed, now) ∷ []

  -- A reconcile of this node is under way.
  abbrev pub IsReconciling : Handling → Node → client.State → Type 0
  IsReconciling (watched m observed now progress) node cluster = m ≡ node
  IsReconciling fetching node cluster = ⊥
  IsReconciling (fetched observed now progress) node cluster =
      client.get_opt config.node_name cluster ≡ ok (some node)

  begin-machine :
      (h : Handling) (node : Node) (a : AgentState f P client config backend)
      → IsReconciling h node a.cluster
      → (begin f P client config backend h a).machine
        ≡ (report_for f P client config backend node a.machine).1
  unfolding begin
  begin-machine (watched m observed now progress) node a same =
      ap (λ n. (report_for f P client config backend n a.machine).1) same
  begin-machine fetching node a never = absurd never
  begin-machine (fetched observed now progress) node a found =
      ap (λ r. (cut_resync f P client config backend r observed now progress a).machine) found

module _ (f : Format) (P : Prometheus) (E : Exposition P) (client : Client) (sysfs : SysfsIo) where
  select-machine :
      (r : Started f P E client sysfs) (life : Life) (h : Handling) (node : Node) (shutdown : Bool)
      (a : AgentState f P client r.config (methods sysfs r.backend))
      → let before = run f P client r.config (methods sysfs r.backend) life.occurrences a in
        life.handling ≡ some h
        → before.1 ≡ false
        → IsReconciling f P client r.config (methods sysfs r.backend) h node before.0.cluster
        → (select f P E client sysfs r shutdown life a).0.machine
          ≡ (report_for f P client r.config (methods sysfs r.backend) node before.0.machine).1
  unfolding select
  select-machine r life h node shutdown a at_h going doing =
      rw (going, at_h) (begin-machine f P client r.config (methods sysfs r.backend) h node _ doing)

  -- `reconcile_once-delivers`, for a backend that is equal to the detected one.
  delivers_equal :
      IsLawful sysfs
      → (s : sysfs.State) (b : Backend) → b ≡ detect_backend sysfs s
      → (profile_label turbo_label : Option String) (p : PowerProfile) (h : Host sysfs)
      → AsksProfile profile_label p
      → turbo_label ≡ none
      → let r = reconcile_once f (methods sysfs b) profile_label turbo_label h in
        result_label r.0 ≡ "ok" → Enforced sysfs (detect_backend sysfs s) p r.1.files
  delivers_equal L s b same profile_label turbo_label p h asks absent =
      subst
        (λ t.
          let r = reconcile_once f (methods sysfs b) profile_label t h in
          result_label r.0 ≡ "ok" → Enforced sysfs (detect_backend sysfs s) p r.1.files)
        (sym absent)
        (subst
          (λ c.
            let r = reconcile_once f (methods sysfs c) profile_label none h in
            result_label r.0 ≡ "ok" → Enforced sysfs (detect_backend sysfs s) p r.1.files)
          (sym same) (λ good. (reconcile_once-delivers sysfs L f profile_label p s h asks good).1))

  -- From start to shutdown, on a lawful file system: the agent has started with an interval above zero,
  -- the shutdown was not there at the first poll, its loop has not ended, and a shutdown signal finds it at
  -- any `.await` of the reconcile, by the watch or by a tick, of a node that asks for a profile and has no
  -- turbo label. When the status of that reconcile is `ok`, the process ends with success and every policy
  -- of the detected backend is left with the profile that was asked for, or the governor that stands for it.
  pub main-Enforced :
      IsLawful sysfs
      → (env : Environment) (outside : Outside) (s : sysfs.State) (cluster : client.State)
        (r : Started f P E client sysfs) (life : Life) (h : Handling) (node : Node)
        (p : PowerProfile)
      → start f P E client sysfs env outside s ≡ ok r
      → 0 < r.config.resync_interval
      → (¬ IsAtOnce outside.handlers life.first_poll)
      → Stops outside.handlers life.signals
      → AsksProfile (get r.config.profile_label_key node.labels) p
      → get r.config.turbo_label_key node.labels ≡ none
      → let backend = methods sysfs r.backend in
        let before =
          run f P client r.config backend life.occurrences
            (entered f P E client sysfs r s cluster) in
        life.handling ≡ some h
        → before.1 ≡ false
        → IsReconciling f P client r.config backend h node before.0.cluster
        → result_label (report_for f P client r.config backend node before.0.machine).0 ≡ "ok"
        → let outcome = main f P E client sysfs env outside life s cluster in
          (outcome.result ≡ some (ok tt))
          × Enforced sysfs (detect_backend sysfs s) p outcome.machine.files
  main-Enforced L env outside s cluster r life h node p started positive later stops asks absent
        at_h going doing good =
      let backend = methods sysfs r.backend in
      let a = entered f P E client sysfs r s cluster in
      let not_early : at_once outside.handlers life.first_poll ≡ false =
        elim (Bool-cases (at_once outside.handlers life.first_poll)) [
          | inl early ↦
              absurd (later ((at_once-IsAtOnce_iff outside.handlers life.first_poll).0 early))
          | inr e ↦ e
        ] in
      let whole =
        main-started f P E client sysfs env outside life s cluster r started positive not_early in
      let machine = ap (λ o. o.machine) whole ∙ select-machine r life h node _ a at_h going doing in
      (
        (main-success_iff f P E client sysfs env outside life s cluster).1 (
          r.config,
          start-CanStart f P E client sysfs env outside s r started,
          inr (positive, inr stops),
        ),
        subst (λ x. Enforced sysfs (detect_backend sysfs s) p x.files) (sym machine)
            (delivers_equal L s r.backend (start-backend f P E client sysfs env outside s r started)
              (get r.config.profile_label_key node.labels)
              (get r.config.turbo_label_key node.labels) p
              (run f P client r.config backend life.occurrences a).0.machine asks absent good),
      )
