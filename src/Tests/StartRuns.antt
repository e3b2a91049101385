-- ===== src/Tests/StartRuns.antt =====
-- The theorems about `main` of the agent, on that host.
use k8s_power_management.Base.{
  true, In, inl, inr, ◌⊎◌, ◌≡◌, ◌↔◌, ◌<◌, ◌≤◌, ◌*◌, ◌-◌, refl, sym, subst, false, none, some, List,
  [], ◌∷◌, ok, str_eq, if◌then◌else◌, arith,
}
use k8s_power_management.Base.Int.{ℤ, pos}
use k8s_power_management.Profile.{power, as_kernel_str}
use k8s_power_management.Backend.Detect.{detect_backend, methods}
use k8s_power_management.Backend.Detect.Laws.{Enforced}
use k8s_power_management.Agent.Config.{Config, Environment, config_with, from_env}
use k8s_power_management.Agent.Reconcile.{result_label, reconcile_once}
use k8s_power_management.Agent.Reconcile.Labels.{AsksProfile}
use k8s_power_management.Agent.Status.{Annotations, Node}
use k8s_power_management.Agent.Status as Status
use k8s_power_management.Agent.Http.{get, router}
use k8s_power_management.Agent.Runtime.{
  Occurrence, watch_ended, watch_failed, report_for, reconcile_node, run,
}
use k8s_power_management.Agent.Runtime.Cut.{publishing, watched}
use k8s_power_management.Agent.Runtime.Laws.{what}
use k8s_power_management.Agent.Signals.{terminate, Stops}
use k8s_power_management.Agent.Start.{shutdown_first, Outside, Life, Started, start, entered, main}
use k8s_power_management.Agent.Start.Laws.{IsAtOnce, ready, CanStart, start-ready, main-success_iff}
use k8s_power_management.Agent.Start.Shutdown.{main-Enforced}
use k8s_power_management.Agent.Start.Probes.{seen, probe_after_reconcile}
use k8s_power_management.Tests.{machine, disk}
use k8s_power_management.Tests.Host.{lawful}
use k8s_power_management.Tests.Hal as Hal
use k8s_power_management.Tests.Hal.{detected}
use k8s_power_management.Tests.AgentRuns.{text_format, cluster, delivered}
use k8s_power_management.Tests.LoopRuns.{registry}
use k8s_power_management.Tests.ProcessRuns.{exposition, axum}

abbrev only_name : Environment
only_name name = if str_eq name "NODE_NAME" then some "n1" else none

abbrev config : Config
config = config_with only_name "n1" 300

abbrev outside : Outside
outside = record {
  try_default = ok tt;
  bind = λ addr. ok tt;
  handlers = record { sigterm = true; ctrl_c = true };
  env_filter = none;
}

can_start : CanStart text_format registry exposition cluster machine only_name outside config
unfolding from_env
can_start = (refl, refl, omega arith, refl)

abbrev started : Started text_format registry exposition cluster machine
started = ready text_format registry exposition cluster machine none config 900 disk

starts : start text_format registry exposition cluster machine only_name outside disk ≡ ok started
starts =
    start-ready text_format registry exposition cluster machine only_name outside config disk
      can_start

-- A node that asks for a profile, behind a failure of the watch stream; the signal comes behind the
-- first event.
abbrev node : Node
node = record { name = "n1"; labels = ("cpu-power.io/profile", "power") ∷ []; annotations = [] }

abbrev history : List (Occurrence × ℤ × ℤ)
history = (watch_failed (record { message = "gone" }), pos 1, pos 1) ∷ []

abbrev life : Life
life = record {
  first_poll = shutdown_first [];
  occurrences = history;
  handling = some (watched node (pos 2) (pos 3) (publishing 1));
  signals = terminate ∷ [];
}

main-success_iff_example :
    ((main text_format registry exposition cluster machine only_name outside life disk []).result
      ≡ some (ok tt))
    ↔ ((c : Config) × CanStart text_format registry exposition cluster machine only_name outside c
        × (IsAtOnce outside.handlers (shutdown_first [])
            ⊎ ((0 < c.resync_interval)
                × (In watch_ended (what history) ⊎ Stops outside.handlers (terminate ∷ [])))))
main-success_iff_example =
    main-success_iff text_format registry exposition cluster machine only_name outside life disk []

-- The shutdown was polled first, and no signal was there.
not-IsAtOnce : ¬ IsAtOnce outside.handlers (shutdown_first [])
not-IsAtOnce (inl broken) = absurd (cc)
not-IsAtOnce (inr (inl m)) = m
not-IsAtOnce (inr (inr (listens, m))) = m

asks : AsksProfile (Status.get config.profile_label_key node.labels) power
unfolding Status.get as_kernel_str
asks = refl

no_turbo : Status.get config.turbo_label_key node.labels ≡ none
unfolding Status.get
no_turbo = refl

goes_on :
    (run text_format registry cluster config
      (methods machine started.backend)
      history
      (entered text_format registry exposition cluster machine started disk [])).1
    ≡ false
unfolding run
goes_on = refl

good :
    let before =
      run text_format registry cluster config
        (methods machine started.backend)
        history
        (entered text_format registry exposition cluster machine started disk []) in
    result_label
      (report_for text_format registry cluster config
        (methods machine started.backend)
        node
        before.0.machine).0
    ≡ "ok"
unfolding run Status.get
good =
    subst
      (λ b.
        result_label
          (reconcile_once text_format (methods machine b) (some "power") none Hal.start).0
        ≡ "ok")
      (sym detected) delivered

main-Enforced_example :
    let outcome =
      main text_format registry exposition cluster machine only_name outside life disk [] in
    (outcome.result ≡ some (ok tt))
    × Enforced machine (detect_backend machine disk) power outcome.machine.files
main-Enforced_example =
    main-Enforced text_format registry exposition cluster machine lawful only_name outside disk []
      started life (watched node (pos 2) (pos 3) (publishing 1)) node power starts (omega arith)
      not-IsAtOnce (inr (inr (refl, inl refl))) asks no_turbo refl goes_on refl good

probe_after_reconcile_example :
    let b =
      reconcile_node text_format registry cluster config
        (methods machine started.backend)
        node
        (pos 999)
        (pos 1_000)
        (entered text_format registry exposition cluster machine started disk []) in
    let answer =
      axum.serve
        (router registry exposition
          (seen text_format registry exposition cluster machine started b)
          (pos 1_900))
        (record { method = get; path = "/healthz" }) in
    ((answer.status ≡ 503) ↔ (3 * 300 < 1_900 - 1_000))
    × (1_900 - 1_000 ≤ 3 * 300 → answer.status ≡ 200)
probe_after_reconcile_example =
    probe_after_reconcile text_format registry exposition cluster machine axum only_name outside
      disk started (entered text_format registry exposition cluster machine started disk []) node
      (pos 999) 1_000 1_900 starts (omega arith) (omega arith) (omega arith)
