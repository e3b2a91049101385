-- ===== src/Agent/Start/Probes.antt =====
-- What `/healthz` of crates/power-agent/src/http.rs answers while the loop that
-- crates/power-agent/src/main.rs started runs: both hold the same `Arc`s.
use k8s_power_management.Base.{ℕ, ◌≡◌, ◌↔◌, ◌<◌, ◌≤◌, ◌-◌, ◌*◌, ok, arith}
use k8s_power_management.Base.Int.{ℤ, pos}
use k8s_power_management.Error.{Format}
use k8s_power_management.Sysfs.{SysfsIo}
use k8s_power_management.Backend.Detect.{methods}
use k8s_power_management.Agent.Config.{Environment}
use k8s_power_management.Agent.Health.{i64_limit}
use k8s_power_management.Agent.Health.Laws.{healthz-forward}
use k8s_power_management.Agent.Status.{Client, Node}
use k8s_power_management.Agent.Metrics.{Prometheus}
use k8s_power_management.Agent.Metrics.Registry.{Exposition}
use k8s_power_management.Agent.Http.{Axum, HttpState, router, get}
use k8s_power_management.Agent.Http.Laws.{router_lem}
use k8s_power_management.Agent.Runtime.{reconcile_node}
use k8s_power_management.Agent.Start.{Outside, Started, start, Agent}
use k8s_power_management.Agent.Start.Laws.{start-threshold}

module _ (f : Format) (P : Prometheus) (E : Exposition P) (client : Client) (sysfs : SysfsIo) where
  -- `http_state` at a time when the loop is at `a`: the clones of the two `Arc`s show what it wrote.
  abbrev pub seen : (r : Started f P E client sysfs) → Agent f P E client sysfs r → HttpState P E
  seen r a = record r.http_state {
    metrics = a.metrics;
    last_reconcile_unix = a.last_reconcile_unix;
  }

  -- After a start, in whatever state `a` the loop is, a node is reconciled at the time `done`.
  -- That time is above zero. A probe at a time `t` that is not before it, with no other reconcile in between, gets 503 exactly
  -- when more than three resync intervals have passed, and else 200.
  pub probe_after_reconcile :
      (A : Axum) (env : Environment) (outside : Outside) (s : sysfs.State)
      (r : Started f P E client sysfs) (a : Agent f P E client sysfs r) (node : Node) (observed : ℤ)
      (done t : ℕ)
      → start f P E client sysfs env outside s ≡ ok r
      → 0 < done
      → done ≤ t
      → t < i64_limit
      → let b =
          reconcile_node f P client r.config (methods sysfs r.backend) node observed (pos done) a in
        let answer =
          A.serve (router P E (seen r b) (pos t)) (record { method = get; path = "/healthz" }) in
        ((answer.status ≡ 503) ↔ (3 * r.config.resync_interval < t - done))
        × (t - done ≤ 3 * r.config.resync_interval → answer.status ≡ 200)
  unfolding reconcile_node
  probe_after_reconcile A env outside s r a node observed done t started positive passed within =
      let b =
        reconcile_node f P client r.config (methods sysfs r.backend) node observed (pos done) a in
      let (stale_iff, rest) =
        healthz-forward r.config.resync_interval r.http_state.staleness_threshold done t
          (start-threshold f P E client sysfs env outside s r started) positive passed within in
      let (code_iff, code_ok, scraped, text, lines, missing) =
        router_lem P E A (seen r b) (pos t) in
      (
        ((λ e. stale_iff.0 (code_iff.0 e)), (λ late. code_iff.1 (stale_iff.1 late))),
        λ early. code_ok (λ e. absurd (let late = stale_iff.0 e in omega arith)),
      )
