-- ===== src/Agent/Http.antt =====
-- crates/power-agent/src/http.rs: the router and its two handlers.
pub mod Laws
use k8s_power_management.Base.{
  ℕ, String, ◌≡◌, ◌≢◌, Bool, Option, none, some, List, [], ◌∷◌, str_eq, if◌then◌else◌, All,
}
use k8s_power_management.Base.Int.{ℤ}
use k8s_power_management.Text.{codes}
use k8s_power_management.Agent.Metrics.{Prometheus, Metrics}
use k8s_power_management.Agent.Metrics.Registry.{Desc, Exposition, encode}
use k8s_power_management.Agent.Health.{Health, starting, stale, healthy, healthz_handler}

-- The headers are those that the handler sets; the bodies here are ASCII.
pub record Response : Type 0 where
  pub status : ℕ
  pub headers : List (String × String)
  pub body : List ℕ

pub data Method : Type 0 where
  get : Method
  other : String → Method

pub record Request : Type 0 where
  pub method : Method
  pub path : String

-- The answer of the route with this path.
abbrev pub route_of : List (String × Response) → String → Option Response
route_of [] path = none
route_of ((p, answer) ∷ routes) path = if str_eq p path then some answer else route_of routes path

-- A `Router` of the crate `axum` whose routes are `get` handlers, given by their answers. A GET of a
-- path that is a route is answered by its handler, and a path that is none by 404.
pub record Axum : Type 0 where
  pub serve : List (String × Response) → Request → Response
  pub serve-route :
      (routes : List (String × Response)) (path : String) (answer : Response)
      → route_of routes path ≡ some answer
      → serve routes (record { method = get; path = path }) ≡ answer
  pub serve-missing :
      (routes : List (String × Response)) (method : Method) (path : String)
      → route_of routes path ≡ none
      → (serve routes (record { method = method; path = path })).status ≡ 404

-- The three answers as they leave `healthz_handler`.
unfoldable pub health_response : Health → Response
health_response starting = record { status = 200; headers = []; body = codes "starting" }
health_response stale = record { status = 503; headers = []; body = codes "stale" }
health_response healthy = record { status = 200; headers = []; body = codes "ok" }

module _ (P : Prometheus) (E : Exposition P) where
  -- What the two shared pointers show at the time of the request, and the threshold in seconds.
  pub record HttpState : Type 0 where
    pub metrics : Metrics P
    pub registry : List Desc
    pub last_reconcile_unix : ℤ
    pub staleness_threshold : ℕ

  unfoldable pub metrics_handler : HttpState → Response
  metrics_handler state = record {
    status = 200;
    headers = ("content-type", "text/plain; version=0.0.4") ∷ [];
    body = encode P E state.registry state.metrics;
  }

  -- `now` is the answer of `now_unix`.
  unfoldable pub router : HttpState → ℤ → List (String × Response)
  unfolding metrics_handler
  router state now =
      ("/metrics", metrics_handler state)
      ∷ (
        "/healthz",
        health_response (healthz_handler state.last_reconcile_unix now state.staleness_threshold),
      )
      ∷ []
