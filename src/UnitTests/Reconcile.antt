-- ===== src/UnitTests/Reconcile.antt =====
-- The tests of crates/power-agent/src/reconcile.rs. The texts of paths and vectors do not show in them.
use k8s_power_management.Base.{
  String, ◌≡◌, refl, Bool, true, false, ◌&&◌, Option, none, some, [], ◌∷◌, str_eq,
}
use k8s_power_management.Error.{Format}
use k8s_power_management.Profile.{default, performance, power, from_str, as_kernel_str}
use k8s_power_management.Backend.Interface.{
  BackendKind, intel_epp, amd_epp, governor_fallback, unsupported,
}
use k8s_power_management.Agent.Reconcile.{
  ReconcileReport, reconcile_once, result_label, try_turbo, turbo_outcome, parse_profile_label,
  parse_turbo_label,
}
use k8s_power_management.Agent.Reconcile.Recording.{Calls, no_calls, recording_backend}
use k8s_power_management.Agent.Metrics.{profile_eq}
use k8s_power_management.UnitTests.{all_pass, text_is, state_is, states_are, profiles_are}

module _ (f : Format) where
  abbrev reconciled : BackendKind → Option String → Option String → ReconcileReport × Calls
  reconciled kind profile_label turbo_label =
      reconcile_once f (recording_backend false kind) profile_label turbo_label no_calls

  abbrev absent_profile_label_falls_back_to_default : Bool
  absent_profile_label_falls_back_to_default =
      let (report, b) = reconciled intel_epp none none in
      profile_eq report.profile default
      && text_is report.profile_invalid_value none
      && profiles_are b.applied (default ∷ [])

  abbrev invalid_profile_label_falls_back_to_default_and_is_flagged : Bool
  invalid_profile_label_falls_back_to_default_and_is_flagged =
      let (report, b) = reconciled intel_epp (some "ultra") none in
      profile_eq report.profile default
      && text_is report.profile_invalid_value (some "ultra")
      && str_eq (result_label report) "invalid_label"

  abbrev valid_profile_label_is_applied_verbatim : Bool
  valid_profile_label_is_applied_verbatim =
      let (report, b) = reconciled amd_epp (some "power") none in
      profile_eq report.profile power && str_eq (result_label report) "ok"

  abbrev absent_turbo_label_never_calls_set_turbo : Bool
  absent_turbo_label_never_calls_set_turbo =
      let (report, b) = reconciled intel_epp (some "performance") none in
      state_is report.turbo none && states_are b.turbo_calls []

  abbrev invalid_turbo_label_is_flagged_and_not_applied : Bool
  invalid_turbo_label_is_flagged_and_not_applied =
      let (report, b) = reconciled intel_epp none (some "maybe") in
      state_is report.turbo none
      && text_is report.turbo_invalid_value (some "maybe")
      && states_are b.turbo_calls []

  abbrev valid_turbo_label_is_applied : Bool
  valid_turbo_label_is_applied =
      let (report, b) = reconciled amd_epp none (some "enabled") in
      state_is report.turbo (some true) && states_are b.turbo_calls (true ∷ [])

  abbrev primary_target_scenario_nuc_power_turbo_disabled : Bool
  primary_target_scenario_nuc_power_turbo_disabled =
      let (report, b) = reconciled intel_epp (some "power") (some "disabled") in
      profile_eq report.profile power
      && state_is report.turbo (some false)
      && str_eq (result_label report) "ok"

  abbrev primary_target_scenario_amd_performance_turbo_enabled : Bool
  primary_target_scenario_amd_performance_turbo_enabled =
      let (report, b) = reconciled amd_epp (some "performance") (some "enabled") in
      profile_eq report.profile performance
      && state_is report.turbo (some true)
      && str_eq (result_label report) "ok"

  abbrev turbo_unsupported_on_backend_is_reported_not_an_error : Bool
  turbo_unsupported_on_backend_is_reported_not_an_error =
      let b = recording_backend true governor_fallback in
      let report = (reconcile_once f b none (some "enabled") no_calls).0 in
      report.turbo_unsupported
      && text_is report.turbo_apply_error none
      && str_eq (result_label report) "ok"

  abbrev unsupported_backend_never_reports_error : Bool
  unsupported_backend_never_reports_error =
      let (report, b) = reconciled unsupported (some "power") (some "disabled") in
      str_eq (result_label report) "unsupported"

  -- All tests pass.
  reconcile_tests_pass :
      all_pass (
        absent_profile_label_falls_back_to_default
        ∷ invalid_profile_label_falls_back_to_default_and_is_flagged
        ∷ valid_profile_label_is_applied_verbatim ∷ absent_turbo_label_never_calls_set_turbo
        ∷ invalid_turbo_label_is_flagged_and_not_applied ∷ valid_turbo_label_is_applied
        ∷ primary_target_scenario_nuc_power_turbo_disabled
        ∷ primary_target_scenario_amd_performance_turbo_enabled
        ∷ turbo_unsupported_on_backend_is_reported_not_an_error
        ∷ unsupported_backend_never_reports_error ∷ [])
      ≡ true
  unfolding reconcile_once result_label try_turbo turbo_outcome parse_profile_label
      parse_turbo_label from_str as_kernel_str profile_eq profiles_are
  reconcile_tests_pass = refl
