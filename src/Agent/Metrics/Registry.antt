-- ===== src/Agent/Metrics/Registry.antt =====
-- crates/power-agent/src/metrics.rs: `Metrics::new` and `Metrics::encode`.
pub mod Laws
use Prim.Native.Char.{code}
use k8s_power_management.Base.{
  In, ◌++◌, ◌<◌, ℕ, String, ◌≡◌, ◌≢◌, refl, Bool, true, false, ◌&&◌, ◌||◌, not, List, [], ◌∷◌, map,
  Result, ok, err, All, leb, ◌==◌, ◌>>=◌,
}
use k8s_power_management.Base.Int.{ℤ, pos}
use k8s_power_management.Text.{codes, is_nil, decimal}
use k8s_power_management.Text.Words.{Infix}
use k8s_power_management.Agent.Metrics.{Prometheus, Metrics}

-- `Opts`, with the names of the labels.
pub record Desc : Type 0 where
  pub name : String
  pub help : String
  pub labels : List String

-- A letter, an underscore or a colon, and behind the first also a digit.
abbrev is_name_start : ℕ → Bool
is_name_start c = leb b'a' c && leb c b'z' || leb b'A' c && leb c b'Z' || c == b'_' || c == b':'

abbrev is_name_rest : List ℕ → Bool
is_name_rest [] = true
is_name_rest (c ∷ cs) = (is_name_start c || leb b'0' c && leb c b'9') && is_name_rest cs

abbrev is_name_codes : List ℕ → Bool
is_name_codes [] = false
is_name_codes (c ∷ cs) = is_name_start c && is_name_rest cs

-- What the data model of Prometheus asks of a metric's name; a label's name has no colon.
pub is_metric_name : String → Bool
is_metric_name s = is_name_codes (codes s)

abbrev no_colon : List ℕ → Bool
no_colon [] = true
no_colon (c ∷ cs) = not (c == b':') && no_colon cs

pub is_label_name : String → Bool
unfolding is_metric_name
is_label_name s = is_metric_name s && no_colon (codes s)

abbrev pub profile_applied_opts : Desc
profile_applied_opts = record {
  name = "power_agent_profile_applied_info";
  help = "Currently applied CPU power profile (1 = active, 0 = inactive)";
  labels = "profile" ∷ [];
}

abbrev pub backend_kind_opts : Desc
backend_kind_opts = record {
  name = "power_agent_backend_kind_info";
  help = "Detected cpu-power-hal backend for this node (1 = active, 0 = inactive)";
  labels = "kind" ∷ [];
}

abbrev pub turbo_enabled_opts : Desc
turbo_enabled_opts = record {
  name = "power_agent_turbo_enabled";
  help = "1 if turbo boost was last set enabled, 0 if disabled (meaningless if turbo_managed is 0)";
  labels = [];
}

abbrev pub turbo_managed_opts : Desc
turbo_managed_opts = record {
  name = "power_agent_turbo_managed";
  help = "1 if the turbo label is present, valid, and being actively managed on this node";
  labels = [];
}

abbrev pub reconcile_total_opts : Desc
reconcile_total_opts = record {
  name = "power_agent_reconcile_total";
  help = "Total reconcile attempts by result";
  labels = "result" ∷ [];
}

abbrev pub last_reconcile_timestamp_opts : Desc
last_reconcile_timestamp_opts = record {
  name = "power_agent_last_reconcile_timestamp_seconds";
  help = "Unix timestamp of the last completed reconcile";
  labels = [];
}

-- The gauges of integers with their names, as `new` makes them.
abbrev pub int_gauges : (P : Prometheus) → Metrics P → List (Desc × ℕ)
int_gauges P m = (turbo_enabled_opts, m.turbo_enabled) ∷ (turbo_managed_opts, m.turbo_managed) ∷ []

-- The line of the text format for a gauge without labels: its name, a blank, its value, a newline.
abbrev pub sample_line : Desc → ℕ → List ℕ
sample_line d v = codes d.name ++ (32 ∷ (codes (decimal v) ++ (10 ∷ [])))

-- What an `f64` holds exactly.
abbrev pub exact_limit : ℕ
exact_limit = 9_007_199_254_740_992

-- The registry of the crate `prometheus`, over its vectors: `new` of a metric, `register`, which takes
-- a handle on the metric, and `gather` with `TextEncoder::encode`, which read through the handles. A
-- metric with names as they have to be and a help text is created, one whose name is not in the registry
-- yet is registered, and the text has the line of each registered gauge of integers with its value.
pub record Exposition (P : Prometheus) : Type 1 where
  pub MetricError : Type 0
  pub new_gauge_vec : Desc → Result P.GaugeVec MetricError
  pub new_int_gauge : Desc → Result ℕ MetricError
  pub new_counter_vec : Desc → Result P.CounterVec MetricError
  pub empty_gauge_vec : P.GaugeVec
  pub empty_counter_vec : P.CounterVec
  pub register : Desc → List Desc → Result (List Desc) MetricError
  pub encode_text : List Desc → Metrics P → List ℕ
  pub new_gauge_vec-named :
      (d : Desc)
      → is_metric_name d.name ≡ true
      → All (λ l. is_label_name l ≡ true) d.labels
      → is_nil d.help ≡ false
      → new_gauge_vec d ≡ ok empty_gauge_vec
  pub new_int_gauge-named :
      (d : Desc)
      → is_metric_name d.name ≡ true
      → All (λ l. is_label_name l ≡ true) d.labels
      → is_nil d.help ≡ false
      → new_int_gauge d ≡ ok 0
  pub new_counter_vec-named :
      (d : Desc)
      → is_metric_name d.name ≡ true
      → All (λ l. is_label_name l ≡ true) d.labels
      → is_nil d.help ≡ false
      → new_counter_vec d ≡ ok empty_counter_vec
  pub register-new :
      (d : Desc) (ds : List Desc) → All (λ e. e.name ≢ d.name) ds → register d ds ≡ ok (d ∷ ds)
  pub encode_text-int_gauge :
      (ds : List Desc) (m : Metrics P) (d : Desc) (v : ℕ)
      → In (d, v) (int_gauges P m)
      → In d ds
      → v < exact_limit
      → Infix (sample_line d v) (encode_text ds m)

module _ (P : Prometheus) (E : Exposition P) where
  -- The field `registry` beside the others. It holds the metrics themselves, so what it shows of them
  -- is what `metrics` has at that time; its own part is which of them are registered.
  pub record Registered : Type 0 where
    pub metrics : Metrics P
    pub registry : List Desc

  -- `Metrics::new`, with each `?`.
  unfoldable pub new : Result Registered E.MetricError
  new = do
    profile_applied ← E.new_gauge_vec profile_applied_opts
    backend_kind ← E.new_gauge_vec backend_kind_opts
    turbo_enabled ← E.new_int_gauge turbo_enabled_opts
    turbo_managed ← E.new_int_gauge turbo_managed_opts
    reconcile_total ← E.new_counter_vec reconcile_total_opts
    last_reconcile_timestamp ← E.new_int_gauge last_reconcile_timestamp_opts
    r1 ← E.register profile_applied_opts []
    r2 ← E.register backend_kind_opts r1
    r3 ← E.register turbo_enabled_opts r2
    r4 ← E.register turbo_managed_opts r3
    r5 ← E.register reconcile_total_opts r4
    r6 ← E.register last_reconcile_timestamp_opts r5
    ok (record {
      metrics = record {
        profile_applied = profile_applied;
        backend_kind = backend_kind;
        turbo_enabled = turbo_enabled;
        turbo_managed = turbo_managed;
        reconcile_total = reconcile_total;
        last_reconcile_timestamp = pos last_reconcile_timestamp;
      };
      registry = r6;
    })

  -- `Metrics::encode`
  unfoldable pub encode : List Desc → Metrics P → List ℕ
  encode registry metrics = E.encode_text registry metrics
