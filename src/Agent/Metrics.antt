-- ===== src/Agent/Metrics.antt =====
-- crates/power-agent/src/metrics.rs: the gauges and counters, and what a reconcile does to them.
pub mod Laws
pub mod Registry
use k8s_power_management.Base.{
  ℕ, suc, String, ◌≡◌, ◌≢◌, Bool, true, false, Option, none, some, List, [], ◌∷◌, if◌then◌else◌,
  str_eq,
}
use k8s_power_management.Base.Int.{ℤ}
use k8s_power_management.Profile.{
  PowerProfile, default, performance, balance_performance, balance_power, power, all_profiles,
  as_kernel_str,
}
use k8s_power_management.Backend.Interface.{
  BackendKind, intel_epp, amd_epp, unknown_epp, governor_fallback, unsupported, kind_text,
}
use k8s_power_management.Agent.Reconcile.{ReconcileReport, result_label}

-- The labelled vectors of the crate `prometheus`, and what its documents say of them: a gauge holds
-- what was set last for its label, and a counter counts the calls of `inc` for its label.
pub record Prometheus : Type 1 where
  pub GaugeVec : Type 0
  pub set_gauge : String → ℕ → GaugeVec → GaugeVec
  pub gauge : String → GaugeVec → Option ℕ
  pub CounterVec : Type 0
  pub inc : String → CounterVec → CounterVec
  pub count : String → CounterVec → ℕ
  pub gauge-set_self : (l : String) (v : ℕ) (g : GaugeVec) → gauge l (set_gauge l v g) ≡ some v
  pub gauge-set_ne :
      (l m : String) (v : ℕ) (g : GaugeVec) → l ≢ m → gauge m (set_gauge l v g) ≡ gauge m g
  pub count-inc_self : (l : String) (c : CounterVec) → count l (inc l c) ≡ suc (count l c)
  pub count-inc_ne : (l m : String) (c : CounterVec) → l ≢ m → count m (inc l c) ≡ count m c

-- `ALL_BACKEND_KINDS`
abbrev pub all_backend_kinds : List BackendKind
all_backend_kinds = intel_epp ∷ amd_epp ∷ unknown_epp ∷ governor_fallback ∷ unsupported ∷ []

unfoldable pub profile_eq : PowerProfile → PowerProfile → Bool
profile_eq default default = true
profile_eq performance performance = true
profile_eq balance_performance balance_performance = true
profile_eq balance_power balance_power = true
profile_eq power power = true
profile_eq _ _ = false

unfoldable pub kind_eq : BackendKind → BackendKind → Bool
kind_eq intel_epp intel_epp = true
kind_eq amd_epp amd_epp = true
kind_eq unknown_epp unknown_epp = true
kind_eq governor_fallback governor_fallback = true
kind_eq unsupported unsupported = true
kind_eq _ _ = false

module _ (P : Prometheus) where
  -- The values of the vectors are 1.0 and 0.0; the other gauges are integers.
  pub record Metrics : Type 0 where
    pub profile_applied : P.GaugeVec
    pub backend_kind : P.GaugeVec
    pub turbo_enabled : ℕ
    pub turbo_managed : ℕ
    pub reconcile_total : P.CounterVec
    pub last_reconcile_timestamp : ℤ

  -- A loop that sets the gauge of each item: 1 for the items that pass the test, and 0.
  abbrev set_each {ℓ} : {A : Type ℓ} → (A → String) → (A → Bool) → List A → P.GaugeVec → P.GaugeVec
  set_each label test [] g = g
  set_each label test (x ∷ xs) g =
      set_each label test xs (P.set_gauge (label x) (if test x then 1 else 0) g)

  abbrev managed : Option Bool → ℕ
  managed none = 0
  managed (some enabled) = 1

  abbrev enabled_or : Option Bool → ℕ → ℕ
  enabled_or none old = old
  enabled_or (some enabled) old = if enabled then 1 else 0

  -- `now` is the answer of `now_unix`.
  unfoldable pub observe : ReconcileReport → ℤ → Metrics → Metrics
  unfolding profile_eq kind_eq
  observe report now m = record {
    profile_applied =
        set_each as_kernel_str (λ p. profile_eq p report.profile) all_profiles m.profile_applied;
    backend_kind =
        set_each kind_text (λ k. kind_eq k report.backend_kind) all_backend_kinds m.backend_kind;
    turbo_enabled = enabled_or report.turbo m.turbo_enabled;
    turbo_managed = managed report.turbo;
    reconcile_total = P.inc (result_label report) m.reconcile_total;
    last_reconcile_timestamp = now;
  }
