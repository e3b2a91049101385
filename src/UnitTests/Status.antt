-- ===== src/UnitTests/Status.antt =====
-- The tests of crates/power-agent/src/status.rs.
use k8s_power_management.Base.{
  String, ◌≡◌, refl, Bool, true, false, not, ◌&&◌, none, some, [], ◌∷◌, str_eq, if◌then◌else◌,
}
use k8s_power_management.Profile.{power, as_kernel_str}
use k8s_power_management.Backend.Interface.{intel_epp, kind_text}
use k8s_power_management.Agent.Reconcile.{ReconcileReport, result_label}
use k8s_power_management.Agent.Status.{Annotations, get, desired_annotations, needs_patch}
use k8s_power_management.UnitTests.{all_pass}

abbrev ok_report : ReconcileReport
ok_report = record {
  profile = power;
  profile_invalid_value = none;
  profile_apply_error = none;
  turbo = some false;
  turbo_invalid_value = none;
  turbo_apply_error = none;
  turbo_unsupported = false;
  backend_kind = intel_epp;
}

-- `BTreeMap::insert` on a key that is there.
abbrev insert : String → String → Annotations → Annotations
insert key value [] = (key, value) ∷ []
insert key value ((k, v) ∷ rest) =
    let inserted = insert key value rest in
    if str_eq k key then (k, value) ∷ rest else (k, v) ∷ inserted

abbrev annotations_are : Annotations → Annotations → Bool
annotations_are [] [] = true
annotations_are ((k, v) ∷ rest) ((l, w) ∷ more) =
    str_eq k l && str_eq v w && annotations_are rest more
annotations_are [] (b ∷ more) = false
annotations_are (a ∷ rest) [] = false

abbrev needs_patch_when_node_has_no_annotations_yet : Bool
needs_patch_when_node_has_no_annotations_yet = needs_patch [] (desired_annotations ok_report)

abbrev no_patch_needed_once_annotations_already_match : Bool
no_patch_needed_once_annotations_already_match =
    let desired = desired_annotations ok_report in not (needs_patch desired desired)

abbrev needs_patch_when_one_value_differs : Bool
needs_patch_when_one_value_differs =
    let desired = desired_annotations ok_report in
    let stale = insert "cpu-power.io/applied-profile" "performance" desired in
    needs_patch stale desired

abbrev desired_annotations_never_includes_a_timestamp : Bool
desired_annotations_never_includes_a_timestamp =
    annotations_are (desired_annotations ok_report) (desired_annotations ok_report)

-- All tests pass.
status_tests_pass :
    all_pass (
      needs_patch_when_node_has_no_annotations_yet ∷ no_patch_needed_once_annotations_already_match
      ∷ needs_patch_when_one_value_differs ∷ desired_annotations_never_includes_a_timestamp ∷ [])
    ≡ true
unfolding needs_patch desired_annotations get result_label as_kernel_str kind_text
status_tests_pass = refl
