-- ===== src/Agent/Http/Laws.antt =====
-- Lemmas on the answers of crates/power-agent/src/http.rs.
use k8s_power_management.Base.{
  ℕ, In, subst, ◌<◌, String, ◌≡◌, ◌≢◌, ◌↔◌, refl, sym, ◌∙◌, ap, none, some, str_eq-cases, inl, inr,
  arith,
}
use k8s_power_management.Base.Int.{ℤ}
use k8s_power_management.Agent.Metrics.{Prometheus}
use k8s_power_management.Agent.Metrics.Registry.{
  Desc, Exposition, encode, int_gauges, sample_line, exact_limit,
}
use k8s_power_management.Text.Words.{Infix}
use k8s_power_management.Agent.Health.{Health, starting, stale, healthy, healthz_handler}
use k8s_power_management.Agent.Http.{
  Method, get, route_of, Axum, health_response, HttpState, metrics_handler, router,
}

health_response-status_iff : (x : Health) → ((health_response x).status ≡ 503) ↔ (x ≡ stale)
unfolding health_response
health_response-status_iff starting = (λ e. absurd (omega arith), λ e. absurd (cc))
health_response-status_iff stale = (λ e. refl, λ e. refl)
health_response-status_iff healthy = (λ e. absurd (omega arith), λ e. absurd (cc))

health_response-status_ok : (x : Health) → x ≢ stale → (health_response x).status ≡ 200
unfolding health_response
health_response-status_ok starting h = refl
health_response-status_ok stale h = absurd (h refl)
health_response-status_ok healthy h = refl

module _ (P : Prometheus) (E : Exposition P) (A : Axum) (state : HttpState P E) (now : ℤ) where
  route_of-healthz :
      route_of (router P E state now) "/healthz"
      ≡ some (
          health_response (healthz_handler state.last_reconcile_unix now state.staleness_threshold))
  unfolding router
  route_of-healthz = refl

  route_of-metrics : route_of (router P E state now) "/metrics" ≡ some (metrics_handler P E state)
  unfolding router
  route_of-metrics = refl

  route_of-none :
      (path : String)
      → path ≢ "/metrics"
      → path ≢ "/healthz"
      → route_of (router P E state now) path ≡ none
  unfolding router
  route_of-none path m h = elim (str_eq-cases "/metrics" path) [
    | inl (t, e) ↦ absurd (m (sym e))
    | inr (t, n) ↦ elim (str_eq-cases "/healthz" path) [
      | inl (u, e) ↦ absurd (h (sym e))
      | inr (u, o) ↦ rw (t, u)
    ]
  ]

  -- A probe of `/healthz` gets 503 exactly when the agent is stale and else 200. A scrape of `/metrics`
  -- gets 200 and what the registry's encoder writes for the metrics as they are, in which each of the two
  -- gauges about turbo that is registered, at a value that an `f64` holds exactly, has its line. Any other
  -- path gets 404.
  pub router_lem :
      let serve = A.serve (router P E state now) in
      let health = serve (record { method = get; path = "/healthz" }) in
      let scrape = serve (record { method = get; path = "/metrics" }) in
      let status = healthz_handler state.last_reconcile_unix now state.staleness_threshold in
      ((health.status ≡ 503) ↔ (status ≡ stale))
      × (status ≢ stale → health.status ≡ 200)
      × (scrape.status ≡ 200)
      × (scrape.body ≡ E.encode_text state.registry state.metrics)
      × ((d : Desc) (v : ℕ)
          → In (d, v) (int_gauges P state.metrics)
          → In d state.registry
          → v < exact_limit
          → Infix (sample_line d v) scrape.body)
      × ((method : Method) (path : String)
          → path ≢ "/metrics"
          → path ≢ "/healthz"
          → (serve (record { method = method; path = path })).status ≡ 404)
  unfolding metrics_handler encode
  router_lem =
      let routes = router P E state now in
      let status = healthz_handler state.last_reconcile_unix now state.staleness_threshold in
      let health = A.serve-route routes "/healthz" (health_response status) route_of-healthz in
      let scrape = A.serve-route routes "/metrics" (metrics_handler P E state) route_of-metrics in
      let stale_iff = health_response-status_iff status in
      let code : (A.serve routes (record { method = get; path = "/healthz" })).status
          ≡ (health_response status).status =
        ap (λ r. r.status) health in
      (
        (λ e. stale_iff.0 (sym code ∙ e), λ e. code ∙ stale_iff.1 e),
        λ n. code ∙ health_response-status_ok status n,
        ap (λ r. r.status) scrape,
        ap (λ r. r.body) scrape,
        λ d v gauge registered exact.
            subst (Infix (sample_line d v)) (sym (ap (λ r. r.body) scrape))
              (E.encode_text-int_gauge state.registry state.metrics d v gauge registered exact),
        λ method path m h. A.serve-missing routes method path (route_of-none path m h),
      )
