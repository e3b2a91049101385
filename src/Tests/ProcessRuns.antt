-- ===== src/Tests/ProcessRuns.antt =====
-- The theorems about the whole process of the agent: its start, its answers over HTTP, the echoes of
-- its patches, and its end.
use k8s_power_management.Base.{
  List, In, inl, inr, ◌<◌, ◌++◌, sym, subst, ℕ, String, ◌≡◌, ◌≢◌, ◌↔◌, refl, ap, Option, none, some,
  [], ◌∷◌, ok,
}
use k8s_power_management.Base.Int.{pos}
use k8s_power_management.Agent.Health.{stale, healthz_handler}
use k8s_power_management.Agent.Metrics.Registry.{
  Exposition, new, Desc, turbo_enabled_opts, turbo_managed_opts, int_gauges, sample_line,
  exact_limit,
}
use k8s_power_management.Agent.Metrics.{Metrics}
use k8s_power_management.Text.Words.{Infix}
use k8s_power_management.Agent.Metrics.Registry.Laws.{fresh_metrics, all_opts, new_lem}
use k8s_power_management.Agent.Http.{
  Axum, HttpState, Method, Response, get, other, route_of, router,
}
use k8s_power_management.Agent.Http.Laws.{router_lem}
use k8s_power_management.Tests.LoopRuns.{registry, no_metrics}

abbrev pub gauge_lines : Metrics registry → List ℕ
gauge_lines m =
    sample_line turbo_enabled_opts m.turbo_enabled
    ++ (sample_line turbo_managed_opts m.turbo_managed ++ [])

pub gauge_lines-Infix :
    (m : Metrics registry) (d : Desc) (v : ℕ)
    → In (d, v) (int_gauges registry m)
    → Infix (sample_line d v) (gauge_lines m)
gauge_lines-Infix m d v (inl e) =
    subst (λ x. Infix (sample_line x.0 x.1) (gauge_lines m)) (sym e)
      ([], sample_line turbo_managed_opts m.turbo_managed ++ [], refl)
gauge_lines-Infix m d v (inr (inl e)) =
    subst (λ x. Infix (sample_line x.0 x.1) (gauge_lines m)) (sym e)
      (sample_line turbo_enabled_opts m.turbo_enabled, [], refl)
gauge_lines-Infix m d v (inr (inr never)) = absurd never

-- A registry that takes everything, and shows two gauges.
abbrev pub exposition : Exposition registry
exposition = record {
  MetricError = String;
  new_gauge_vec = λ d. ok (λ l. none);
  new_int_gauge = λ d. ok 0;
  new_counter_vec = λ d. ok (λ l. 0);
  empty_gauge_vec = λ l. none;
  empty_counter_vec = λ l. 0;
  register = λ d ds. ok (d ∷ ds);
  encode_text = λ ds m. gauge_lines m;
  encode_text-int_gauge = λ ds m d v gauge registered exact. gauge_lines-Infix m d v gauge;
  new_gauge_vec-named = λ d named labels help. refl;
  new_int_gauge-named = λ d named labels help. refl;
  new_counter_vec-named = λ d named labels help. refl;
  register-new = λ d ds others. refl;
}

new_lem_example :
    new registry exposition
    ≡ ok (record { metrics = fresh_metrics registry exposition; registry = all_opts })
new_lem_example = new_lem registry exposition

abbrev pub empty_answer : ℕ → Response
empty_answer status = record { status = status; headers = []; body = [] }

abbrev pub served : Option Response → Method → Response
served none method = empty_answer 404
served (some answer) get = answer
served (some answer) (other m) = empty_answer 405

abbrev pub axum : Axum
axum = record {
  serve = λ routes r. served (route_of routes r.path) r.method;
  serve-route = λ routes path answer found. ap (λ o. served o get) found;
  serve-missing = λ routes method path missing. ap (λ o. (served o method).status) missing;
}

-- A probe 901 seconds after a reconcile, with three intervals of 300 seconds.
abbrev http_state : HttpState registry exposition
http_state = record {
  metrics = no_metrics;
  registry = all_opts;
  last_reconcile_unix = pos 1_000;
  staleness_threshold = 900;
}

router_lem_example :
    let serve = axum.serve (router registry exposition http_state (pos 1_901)) in
    let health = serve (record { method = get; path = "/healthz" }) in
    let scrape = serve (record { method = get; path = "/metrics" }) in
    let status = healthz_handler (pos 1_000) (pos 1_901) 900 in
    ((health.status ≡ 503) ↔ (status ≡ stale))
    × (status ≢ stale → health.status ≡ 200)
    × (scrape.status ≡ 200)
    × (scrape.body ≡ gauge_lines no_metrics)
    × ((d : Desc) (v : ℕ)
        → In (d, v) (int_gauges registry no_metrics)
        → In d all_opts
        → v < exact_limit
        → Infix (sample_line d v) scrape.body)
    × ((method : Method) (path : String)
        → path ≢ "/metrics"
        → path ≢ "/healthz"
        → (serve (record { method = method; path = path })).status ≡ 404)
router_lem_example = router_lem registry exposition axum http_state (pos 1_901)
