-- ===== src/Agent/Metrics/Registry/Laws.antt =====
-- Lemmas on `Metrics::new` of crates/power-agent/src/metrics.rs.
use k8s_power_management.Base.{◌≡◌, refl, List, [], ◌∷◌, ok, texts-differ}
use k8s_power_management.Base.Int.{pos}
use k8s_power_management.Agent.Metrics.{Prometheus, Metrics}
use k8s_power_management.Agent.Metrics.Registry.{
  Desc, Exposition, new, is_metric_name, is_label_name, profile_applied_opts, backend_kind_opts,
  turbo_enabled_opts, turbo_managed_opts, reconcile_total_opts, last_reconcile_timestamp_opts,
}

-- What is registered, the last one first.
abbrev pub all_opts : List Desc
all_opts =
    last_reconcile_timestamp_opts ∷ reconcile_total_opts ∷ turbo_managed_opts ∷ turbo_enabled_opts
    ∷ backend_kind_opts ∷ profile_applied_opts ∷ []

module _ (P : Prometheus) (E : Exposition P) where
  abbrev pub fresh_metrics : Metrics P
  fresh_metrics = record {
    profile_applied = E.empty_gauge_vec;
    backend_kind = E.empty_gauge_vec;
    turbo_enabled = 0;
    turbo_managed = 0;
    reconcile_total = E.empty_counter_vec;
    last_reconcile_timestamp = pos 0;
  }

  -- The metrics are created whatever the registry is: every name, label and help text is one that it
  -- takes, and no two names are the same. All six are registered and at their first values.
  pub new_lem : new P E ≡ ok (record { metrics = fresh_metrics; registry = all_opts })
  unfolding new is_metric_name is_label_name
  new_lem =
      rw
        (
          E.new_gauge_vec-named profile_applied_opts refl (refl, tt) refl,
          E.new_gauge_vec-named backend_kind_opts refl (refl, tt) refl,
          E.new_int_gauge-named turbo_enabled_opts refl tt refl,
          E.new_int_gauge-named turbo_managed_opts refl tt refl,
          E.new_counter_vec-named reconcile_total_opts refl (refl, tt) refl,
          E.new_int_gauge-named last_reconcile_timestamp_opts refl tt refl,
        )
        (rw (
          E.register-new profile_applied_opts ([]) tt,
          E.register-new backend_kind_opts (profile_applied_opts ∷ []) (texts-differ _ _ refl, tt),
          E.register-new turbo_enabled_opts (backend_kind_opts ∷ profile_applied_opts ∷ [])
              (texts-differ _ _ refl, (texts-differ _ _ refl, tt)),
          E.register-new turbo_managed_opts
              (turbo_enabled_opts ∷ backend_kind_opts ∷ profile_applied_opts ∷ [])
              (texts-differ _ _ refl, (texts-differ _ _ refl, (texts-differ _ _ refl, tt))),
          E.register-new reconcile_total_opts
              (turbo_managed_opts ∷ turbo_enabled_opts ∷ backend_kind_opts ∷ profile_applied_opts
                ∷ [])
              (
                texts-differ _ _ refl,
                (texts-differ _ _ refl, (texts-differ _ _ refl, (texts-differ _ _ refl, tt))),
              ),
          E.register-new last_reconcile_timestamp_opts
              (reconcile_total_opts ∷ turbo_managed_opts ∷ turbo_enabled_opts ∷ backend_kind_opts
                ∷ profile_applied_opts ∷ [])
              (
                texts-differ _ _ refl,
                (
                  texts-differ _ _ refl,
                  (texts-differ _ _ refl, (texts-differ _ _ refl, (texts-differ _ _ refl, tt))),
                ),
              ),
        ))
