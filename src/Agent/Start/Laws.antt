-- ===== src/Agent/Start/Laws.antt =====
-- Lemmas on `main` of crates/power-agent/src/main.rs.
use k8s_power_management.Base.{
  String, ℕ, zero, suc, ◌≡◌, ◌↔◌, ◌<◌, ◌*◌, refl, sym, ap, subst, ◌∙◌, inl, inr, Bool-cases, none,
  some, Result, ok, Result-cases, arith, ltb, ◌⊎◌, In, Bool, true, false, Option, if◌then◌else◌,
}
use k8s_power_management.Base.Int.{pos}
use k8s_power_management.Text.{u64_limit}
use k8s_power_management.Error.{Format}
use k8s_power_management.Sysfs.{SysfsIo}
use k8s_power_management.Backend.Detect.{detect_backend, methods}
use k8s_power_management.Agent.Config.{Config, Environment, from_env}
use k8s_power_management.Agent.Health.{staleness_threshold}
use k8s_power_management.Agent.Status.{Client}
use k8s_power_management.Agent.Metrics.{Prometheus}
use k8s_power_management.Agent.Metrics.Registry.{Exposition}
use k8s_power_management.Agent.Metrics.Registry.Laws.{new_lem, fresh_metrics, all_opts}
use k8s_power_management.Agent.Signals.{Handlers, shutdown_signal, Stops, shutdown_signal_iff}
use k8s_power_management.Agent.Runtime.{watch_ended, AgentState, run}
use k8s_power_management.Agent.Runtime.Laws.{what, run-ends_iff}
use k8s_power_management.Agent.Start.{
  FirstPoll, run_first, shutdown_first, at_once, init_tracing, Halt, Outside, interval, Life,
  Started, start, entered, select, main,
}

ok-injective : {A B : Type 0} {a b : A} → ◌≡◌ {A = Result A B} (ok a) (ok b) → a ≡ b
ok-injective e = cc

-- The shutdown is polled first, and is there.
abbrev pub IsAtOnce : Handlers → FirstPoll → Type 0
IsAtOnce h run_first = ⊥
IsAtOnce h (shutdown_first signals) = Stops h signals

pub at_once-IsAtOnce_iff :
    (h : Handlers) (first : FirstPoll) → (at_once h first ≡ true) ↔ IsAtOnce h first
unfolding at_once
at_once-IsAtOnce_iff h run_first = (λ e. absurd (cc), λ m. absurd m)
at_once-IsAtOnce_iff h (shutdown_first signals) = shutdown_signal_iff h signals

module _ (f : Format) (P : Prometheus) (E : Exposition P) (client : Client) (sysfs : SysfsIo) where
  -- What `start` returns when nothing stops it.
  abbrev pub ready : Option String → Config → ℕ → sysfs.State → Started f P E client sysfs
  ready filter c threshold s = record {
    config = c;
    subscriber = init_tracing filter c.log_format;
    backend = detect_backend sysfs s;
    registered = record { metrics = fresh_metrics P E; registry = all_opts };
    http_state = record {
      metrics = fresh_metrics P E;
      registry = all_opts;
      last_reconcile_unix = pos 0;
      staleness_threshold = threshold;
    };
  }

  -- All that the start asks for.
  abbrev pub CanStart : Environment → Outside → Config → Type 0
  CanStart env outside c =
      (from_env env ≡ ok c)
      × (outside.try_default ≡ ok tt)
      × (c.resync_interval * 3 < u64_limit)
      × (outside.bind c.metrics_addr ≡ ok tt)

  threshold_within : (n : ℕ) → n * 3 < u64_limit → staleness_threshold n ≡ some (n * 3)
  unfolding staleness_threshold
  threshold_within n fits = ground arith

  threshold-cases : (n : ℕ) → (n * 3 < u64_limit) ⊎ (staleness_threshold n ≡ none)
  unfolding staleness_threshold
  threshold-cases n = elim (Bool-cases (ltb (n * 3) u64_limit)) [
    | inl small ↦ inl (ground arith)
    | inr big ↦ inr (rw big refl)
  ]

  pub start-ready :
      (env : Environment) (outside : Outside) (c : Config) (s : sysfs.State)
      → CanStart env outside c
      → start f P E client sysfs env outside s
        ≡ ok (ready outside.env_filter c (c.resync_interval * 3) s)
  unfolding start
  start-ready env outside c s (configured, built, fits, bound) =
      rw (configured, built, new_lem P E) (rw (threshold_within c.resync_interval fits, bound) refl)

  pub start-CanStart :
      (env : Environment) (outside : Outside) (s : sysfs.State) (r : Started f P E client sysfs)
      → start f P E client sysfs env outside s ≡ ok r
      → CanStart env outside r.config
  unfolding start
  start-CanStart env outside s r good = elim (Result-cases (from_env env)) [
    | inr (e, bad) ↦ absurd (let broken = (rw bad at good) in cc)
    | inl (c, configured) ↦ elim (Result-cases outside.try_default) [
      | inr (e, bad) ↦ absurd (let broken = (rw (configured, bad) at good) in cc)
      | inl (tt, built) ↦ elim (threshold-cases c.resync_interval) [
        | inr bad ↦ absurd (let broken = (rw (configured, built, new_lem P E, bad) at good) in cc)
        | inl fits ↦ elim (Result-cases (outside.bind c.metrics_addr)) [
          | inr (e, bad) ↦ absurd (
              let broken =
                (rw (configured, built, new_lem P E, threshold_within c.resync_interval fits, bad)
                  at good) in
              cc)
          | inl (tt, bound) ↦
              let same : ready outside.env_filter c (c.resync_interval * 3) s ≡ r =
                ok-injective
                  (sym (start-ready env outside c s (configured, built, fits, bound)) ∙ good) in
              subst (λ q. CanStart env outside q.config) same (configured, built, fits, bound)
        ]
      ]
    ]
  ]

  -- Three intervals are the threshold of `/healthz`.
  pub start-threshold :
      (env : Environment) (outside : Outside) (s : sysfs.State) (r : Started f P E client sysfs)
      → start f P E client sysfs env outside s ≡ ok r
      → staleness_threshold r.config.resync_interval ≡ some r.http_state.staleness_threshold
  start-threshold env outside s r started =
      let can = start-CanStart env outside s r started in
      let same = ok-injective (sym started ∙ start-ready env outside r.config s can) in
      threshold_within r.config.resync_interval can.2
      ∙ ap some (sym (ap (λ q. q.http_state.staleness_threshold) same))

  -- The backend is the one that is detected at the start.
  pub start-backend :
      (env : Environment) (outside : Outside) (s : sysfs.State) (r : Started f P E client sysfs)
      → start f P E client sysfs env outside s ≡ ok r
      → r.backend ≡ detect_backend sysfs s
  start-backend env outside s r started =
      let can = start-CanStart env outside s r started in
      ap (λ q. q.backend) (ok-injective (sym started ∙ start-ready env outside r.config s can))

  interval-positive : (n : ℕ) → 0 < n → interval n ≡ some n
  unfolding interval
  interval-positive n h = ground arith

  interval-cases : (n : ℕ) → (0 < n) ⊎ (interval n ≡ none)
  unfolding interval
  interval-cases zero = inr refl
  interval-cases (suc n) = inl (omega arith)

  pub main-started :
      (env : Environment) (outside : Outside) (life : Life) (s : sysfs.State)
      (cluster : client.State) (r : Started f P E client sysfs)
      → start f P E client sysfs env outside s ≡ ok r
      → 0 < r.config.resync_interval
      → at_once outside.handlers life.first_poll ≡ false
      → let (a, over) =
          select f P E client sysfs r
            (shutdown_signal outside.handlers life.signals)
            life
            (entered f P E client sysfs r s cluster) in
        main f P E client sysfs env outside life s cluster ≡ record {
          result = if over then some (ok tt) else none;
          machine = a.machine;
          cluster = a.cluster;
        }
  unfolding main
  main-started env outside life s cluster r started positive later =
      rw (started) (rw (interval-positive r.config.resync_interval positive) (rw (later) refl))

  -- Over at once, whatever the interval is.
  main-at_once :
      (env : Environment) (outside : Outside) (life : Life) (s : sysfs.State)
      (cluster : client.State) (r : Started f P E client sysfs)
      → start f P E client sysfs env outside s ≡ ok r
      → at_once outside.handlers life.first_poll ≡ true
      → (main f P E client sysfs env outside life s cluster).result ≡ some (ok tt)
  unfolding main
  main-at_once env outside life s cluster r started early = rw (started) (rw (early) refl)

  -- The `select!` is over when the loop has ended or the shutdown is there.
  select-over_iff :
      (r : Started f P E client sysfs) (outside : Outside) (life : Life)
      (a : AgentState f P client r.config (methods sysfs r.backend))
      → ((select f P E client sysfs r (shutdown_signal outside.handlers life.signals) life a).1
          ≡ true)
        ↔ (In watch_ended (what life.occurrences) ⊎ Stops outside.handlers life.signals)
  unfolding select
  select-over_iff r outside life a =
      let b = methods sysfs r.backend in
      let loop = run-ends_iff f P client r.config b life.occurrences a in
      let signalled = shutdown_signal_iff outside.handlers life.signals in
      elim (Bool-cases (run f P client r.config b life.occurrences a).1) [
        | inl ended ↦ (λ _. inl (loop.0 ended), λ _. rw (ended) refl)
        | inr goes ↦ (
          λ e. inr (signalled.0 (rw (goes) at e)),
          elim [ inl m ↦ absurd (let ended = loop.1 m in cc) | inr m ↦ rw (goes) (signalled.1 m) ],
        )
      ]

  over_iff :
      (over : Bool)
      → (◌≡◌ {A = Option (Result (Unit {0}) (Halt E.MetricError))}
          (if over then some (ok tt) else none)
          (some (ok tt)))
        ↔ (over ≡ true)
  over_iff true = (λ _. refl, λ _. refl)
  over_iff false = (λ e. absurd (cc), λ e. absurd (cc))

  -- Once the loop is begun.
  lived_iff :
      (env : Environment) (outside : Outside) (life : Life) (s : sysfs.State)
      (cluster : client.State) (r : Started f P E client sysfs)
      → start f P E client sysfs env outside s ≡ ok r
      → 0 < r.config.resync_interval
      → at_once outside.handlers life.first_poll ≡ false
      → ((main f P E client sysfs env outside life s cluster).result ≡ some (ok tt))
        ↔ (In watch_ended (what life.occurrences) ⊎ Stops outside.handlers life.signals)
  lived_iff env outside life s cluster r started positive later =
      let whole =
        ap (λ o. o.result) (main-started env outside life s cluster r started positive later) in
      let over = select-over_iff r outside life (entered f P E client sysfs r s cluster) in
      (λ e. over.0 ((over_iff _).0 (sym whole ∙ e)), λ m. whole ∙ (over_iff _).1 (over.1 m))

  -- The agent has ended with success exactly when its start was given all that it asks for, and either
  -- the shutdown is polled first and is there at that poll, or the interval is not zero and the watch
  -- stream has ended or a shutdown is there. The start asks that the configuration is accepted, three
  -- intervals fit a `Duration`, the client of the cluster is built and the address can be bound; the
  -- metrics are created in any case. A shutdown is an interrupt, a SIGTERM that has a handler, or the
  -- failure to listen for an interrupt.
  pub main-success_iff :
      (env : Environment) (outside : Outside) (life : Life) (s : sysfs.State)
      (cluster : client.State)
      → ((main f P E client sysfs env outside life s cluster).result ≡ some (ok tt)) ↔ (
          (c : Config) × CanStart env outside c
          × (IsAtOnce outside.handlers life.first_poll
              ⊎ ((0 < c.resync_interval)
                  × (In watch_ended (what life.occurrences)
                      ⊎ Stops outside.handlers life.signals))))
  unfolding main
  main-success_iff env outside life s cluster =
      let early_iff = at_once-IsAtOnce_iff outside.handlers life.first_poll in
      elim (Bool-cases (at_once outside.handlers life.first_poll)) [
        | inl early ↦ (
          λ e. elim (Result-cases (start f P E client sysfs env outside s)) [
            | inr (halt, bad) ↦ absurd (let broken = (rw bad at e) in cc)
            | inl (r, started) ↦
                (r.config, start-CanStart env outside s r started, inl (early_iff.0 early))
          ],
          λ (c, can, _).
              main-at_once env outside life s cluster _ (start-ready env outside c s can) early,
        )
        | inr later ↦ (
          λ e. elim (Result-cases (start f P E client sysfs env outside s)) [
            | inr (halt, bad) ↦ absurd (let broken = (rw bad at e) in cc)
            | inl (r, started) ↦ elim (interval-cases r.config.resync_interval) [
              | inl positive ↦ (
                r.config,
                start-CanStart env outside s r started,
                inr (positive, (lived_iff env outside life s cluster r started positive later).0 e),
              )
              | inr stops ↦ absurd (let broken = (rw (started, stops, later) at e) in cc)
            ]
          ],
          λ (c, can, ends). elim ends [
            | inl early ↦ absurd (let broken = early_iff.1 early in cc)
            | inr (positive, over) ↦
                (lived_iff env outside life s cluster
                    (ready outside.env_filter c (c.resync_interval * 3) s)
                    (start-ready env outside c s can) positive later).1
                  over
          ],
        )
      ]
