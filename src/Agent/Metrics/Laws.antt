-- ===== src/Agent/Metrics/Laws.antt =====
-- Lemmas on `Metrics::observe` of crates/power-agent/src/metrics.rs.
use k8s_power_management.Base.{
  ℕ, suc, String, ◌≡◌, ◌≢◌, ◌∙◌, refl, sym, Bool, true, false, Option, some, List, [], ◌∷◌, ◌++◌,
  All, if◌then◌else◌, str_eq, str_eq-cases, texts-differ, inl, inr,
}
use k8s_power_management.Base.Int.{ℤ}
use k8s_power_management.Profile.{
  PowerProfile, default, performance, balance_performance, balance_power, power, all_profiles,
  as_kernel_str,
}
use k8s_power_management.Backend.Interface.{
  BackendKind, intel_epp, amd_epp, unknown_epp, governor_fallback, unsupported, kind_text,
}
use k8s_power_management.Agent.Reconcile.{ReconcileReport, result_label}
use k8s_power_management.Agent.Metrics.{
  Prometheus, Metrics, all_backend_kinds, profile_eq, kind_eq, set_each, observe,
}

profile_eq_sound : (a b : PowerProfile) → profile_eq a b ≡ true → a ≡ b
unfolding profile_eq
profile_eq_sound default default e = refl
profile_eq_sound default performance e = cc
profile_eq_sound default balance_performance e = cc
profile_eq_sound default balance_power e = cc
profile_eq_sound default power e = cc
profile_eq_sound performance default e = cc
profile_eq_sound performance performance e = refl
profile_eq_sound performance balance_performance e = cc
profile_eq_sound performance balance_power e = cc
profile_eq_sound performance power e = cc
profile_eq_sound balance_performance default e = cc
profile_eq_sound balance_performance performance e = cc
profile_eq_sound balance_performance balance_performance e = refl
profile_eq_sound balance_performance balance_power e = cc
profile_eq_sound balance_performance power e = cc
profile_eq_sound balance_power default e = cc
profile_eq_sound balance_power performance e = cc
profile_eq_sound balance_power balance_performance e = cc
profile_eq_sound balance_power balance_power e = refl
profile_eq_sound balance_power power e = cc
profile_eq_sound power default e = cc
profile_eq_sound power performance e = cc
profile_eq_sound power balance_performance e = cc
profile_eq_sound power balance_power e = cc
profile_eq_sound power power e = refl

profile_eq_self : (a : PowerProfile) → profile_eq a a ≡ true
unfolding profile_eq
profile_eq_self default = refl
profile_eq_self performance = refl
profile_eq_self balance_performance = refl
profile_eq_self balance_power = refl
profile_eq_self power = refl

kind_eq_sound : (a b : BackendKind) → kind_eq a b ≡ true → a ≡ b
unfolding kind_eq
kind_eq_sound intel_epp intel_epp e = refl
kind_eq_sound intel_epp amd_epp e = cc
kind_eq_sound intel_epp unknown_epp e = cc
kind_eq_sound intel_epp governor_fallback e = cc
kind_eq_sound intel_epp unsupported e = cc
kind_eq_sound amd_epp intel_epp e = cc
kind_eq_sound amd_epp amd_epp e = refl
kind_eq_sound amd_epp unknown_epp e = cc
kind_eq_sound amd_epp governor_fallback e = cc
kind_eq_sound amd_epp unsupported e = cc
kind_eq_sound unknown_epp intel_epp e = cc
kind_eq_sound unknown_epp amd_epp e = cc
kind_eq_sound unknown_epp unknown_epp e = refl
kind_eq_sound unknown_epp governor_fallback e = cc
kind_eq_sound unknown_epp unsupported e = cc
kind_eq_sound governor_fallback intel_epp e = cc
kind_eq_sound governor_fallback amd_epp e = cc
kind_eq_sound governor_fallback unknown_epp e = cc
kind_eq_sound governor_fallback governor_fallback e = refl
kind_eq_sound governor_fallback unsupported e = cc
kind_eq_sound unsupported intel_epp e = cc
kind_eq_sound unsupported amd_epp e = cc
kind_eq_sound unsupported unknown_epp e = cc
kind_eq_sound unsupported governor_fallback e = cc
kind_eq_sound unsupported unsupported e = refl

kind_eq_self : (a : BackendKind) → kind_eq a a ≡ true
unfolding kind_eq
kind_eq_self intel_epp = refl
kind_eq_self amd_epp = refl
kind_eq_self unknown_epp = refl
kind_eq_self governor_fallback = refl
kind_eq_self unsupported = refl

one_of : (b : Bool) → b ≡ true → ◌≡◌ {A = Option ℕ} (some (if b then 1 else 0)) (some 1)
one_of true e = refl
one_of false e = cc

zero_of : (b : Bool) → b ≢ true → ◌≡◌ {A = Option ℕ} (some (if b then 1 else 0)) (some 0)
zero_of true e = absurd (e refl)
zero_of false e = refl

-- Gauges that are set for labels of which one occurs at a known place.
module _ (P : Prometheus) {A : Type 0} (label : A → String) (test : A → Bool) where
  value : A → ℕ
  value a = if test a then 1 else 0

  untouched :
      (a : A) (xs : List A) (g : P.GaugeVec)
      → All (λ x. label x ≢ label a) xs
      → P.gauge (label a) (set_each P label test xs g) ≡ P.gauge (label a) g
  unfolding value
  untouched a [] g h = refl
  untouched a (x ∷ xs) g (differs, rest) =
      untouched a xs (P.set_gauge (label x) (value x) g) rest
      ∙ P.gauge-set_ne (label x) (label a) (value x) g differs

  set_each-lem :
      (before after : List A) (a : A) (g : P.GaugeVec)
      → All (λ x. label x ≢ label a) after
      → P.gauge (label a) (set_each P label test (before ++ (a ∷ after)) g) ≡ some (value a)
  unfolding value
  set_each-lem [] after a g h =
      untouched a after (P.set_gauge (label a) (value a) g) h
      ∙ P.gauge-set_self (label a) (value a) g
  set_each-lem (x ∷ before) after a g h =
      set_each-lem before after a (P.set_gauge (label x) (value x) g) h

module _ (P : Prometheus) where
  profile_gauges :
      (test : PowerProfile → Bool) (q : PowerProfile) (g : P.GaugeVec)
      → P.gauge (as_kernel_str q) (set_each P as_kernel_str test all_profiles g)
        ≡ some (if test q then 1 else 0)
  unfolding value as_kernel_str
  profile_gauges test default g =
      set_each-lem P as_kernel_str test []
        (performance ∷ balance_performance ∷ balance_power ∷ power ∷ []) default g
        (
          texts-differ _ _ refl,
          (texts-differ _ _ refl, (texts-differ _ _ refl, (texts-differ _ _ refl, tt))),
        )
  profile_gauges test performance g =
      set_each-lem P as_kernel_str test (default ∷ [])
        (balance_performance ∷ balance_power ∷ power ∷ []) performance g
        (texts-differ _ _ refl, (texts-differ _ _ refl, (texts-differ _ _ refl, tt)))
  profile_gauges test balance_performance g =
      set_each-lem P as_kernel_str test (default ∷ performance ∷ []) (balance_power ∷ power ∷ [])
        balance_performance g (texts-differ _ _ refl, (texts-differ _ _ refl, tt))
  profile_gauges test balance_power g =
      set_each-lem P as_kernel_str test (default ∷ performance ∷ balance_performance ∷ [])
        (power ∷ []) balance_power g (texts-differ _ _ refl, tt)
  profile_gauges test power g =
      set_each-lem P as_kernel_str test
        (default ∷ performance ∷ balance_performance ∷ balance_power ∷ []) [] power g tt

  kind_gauges :
      (test : BackendKind → Bool) (q : BackendKind) (g : P.GaugeVec)
      → P.gauge (kind_text q) (set_each P kind_text test all_backend_kinds g)
        ≡ some (if test q then 1 else 0)
  unfolding value kind_text
  kind_gauges test intel_epp g =
      set_each-lem P kind_text test []
        (amd_epp ∷ unknown_epp ∷ governor_fallback ∷ unsupported ∷ []) intel_epp g
        (
          texts-differ _ _ refl,
          (texts-differ _ _ refl, (texts-differ _ _ refl, (texts-differ _ _ refl, tt))),
        )
  kind_gauges test amd_epp g =
      set_each-lem P kind_text test (intel_epp ∷ [])
        (unknown_epp ∷ governor_fallback ∷ unsupported ∷ []) amd_epp g
        (texts-differ _ _ refl, (texts-differ _ _ refl, (texts-differ _ _ refl, tt)))
  kind_gauges test unknown_epp g =
      set_each-lem P kind_text test (intel_epp ∷ amd_epp ∷ [])
        (governor_fallback ∷ unsupported ∷ []) unknown_epp g
        (texts-differ _ _ refl, (texts-differ _ _ refl, tt))
  kind_gauges test governor_fallback g =
      set_each-lem P kind_text test (intel_epp ∷ amd_epp ∷ unknown_epp ∷ []) (unsupported ∷ [])
        governor_fallback g (texts-differ _ _ refl, tt)
  kind_gauges test unsupported g =
      set_each-lem P kind_text test (intel_epp ∷ amd_epp ∷ unknown_epp ∷ governor_fallback ∷ []) []
        unsupported g tt

  -- After a reconcile is observed, the gauge of the report's profile is 1 and that of every other
  -- profile is 0, and so it is for the backend kinds, whatever the gauges were before.
  pub observe-one_hot :
      (report : ReconcileReport) (now : ℤ) (m : Metrics P)
      → let after = observe P report now m in
        (P.gauge (as_kernel_str report.profile) after.profile_applied ≡ some 1)
        × ((q : PowerProfile)
            → q ≢ report.profile
            → P.gauge (as_kernel_str q) after.profile_applied ≡ some 0)
        × (P.gauge (kind_text report.backend_kind) after.backend_kind ≡ some 1)
        × ((k : BackendKind)
            → k ≢ report.backend_kind
            → P.gauge (kind_text k) after.backend_kind ≡ some 0)
  unfolding observe
  observe-one_hot report now m =
      let profile = profile_gauges (λ p. profile_eq p report.profile) in
      let kind = kind_gauges (λ l. kind_eq l report.backend_kind) in
      (
        profile report.profile m.profile_applied ∙ one_of _ (profile_eq_self report.profile),
        (λ q differs.
            profile q m.profile_applied
            ∙ zero_of _ (λ e. differs (profile_eq_sound q report.profile e))),
        kind report.backend_kind m.backend_kind ∙ one_of _ (kind_eq_self report.backend_kind),
        (λ k differs.
            kind k m.backend_kind
            ∙ zero_of _ (λ e. differs (kind_eq_sound k report.backend_kind e))),
      )

  -- It counts the reconcile under the report's result label, and under no other.
  observe-counts :
      (report : ReconcileReport) (now : ℤ) (m : Metrics P) (l : String)
      → P.count l (observe P report now m).reconcile_total ≡ (
          if str_eq l (result_label report)
          then suc (P.count l m.reconcile_total)
          else P.count l m.reconcile_total)
  unfolding observe
  observe-counts report now m l = elim (str_eq-cases l (result_label report)) [
    | inl (t, same) ↦ rw (t, same) (P.count-inc_self (result_label report) m.reconcile_total)
    | inr (t, differ) ↦
        rw (t) (P.count-inc_ne (result_label report) l m.reconcile_total (λ e. differ (sym e)))
  ]
