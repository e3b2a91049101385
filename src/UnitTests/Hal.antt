-- ===== src/UnitTests/Hal.antt =====
-- The tests of profile.rs, backend/mod.rs and backend/unsupported.rs in crates/cpu-power-hal/src.
use k8s_power_management.Base.{
  ◌≡◌, refl, Bool, true, false, not, ◌&&◌, Option, none, some, List, [], ◌∷◌, Result, ok, err,
}
use k8s_power_management.Text.{contains}
use k8s_power_management.Error.{PowerError}
use k8s_power_management.Profile.{PowerProfile, performance, all_profiles, as_kernel_str, from_str}
use k8s_power_management.Backend.Interface.{Vendor, intel, amd, unknown}
use k8s_power_management.Backend.Unsupported.{unsupported_backend, apply, current, set_turbo}
use k8s_power_management.Backend.Detect.{infer_vendor}
use k8s_power_management.Agent.Metrics.{profile_eq}
use k8s_power_management.UnitTests.{all_pass, is_ok}

abbrev is_profile : Result PowerProfile PowerError → PowerProfile → Bool
is_profile (ok p) q = profile_eq p q
is_profile (err e) q = false

abbrev round_trips : List PowerProfile → Bool
round_trips [] = true
round_trips (profile ∷ rest) =
    is_profile (from_str (as_kernel_str profile)) profile && round_trips rest

abbrev round_trips_through_kernel_strings : Bool
round_trips_through_kernel_strings = round_trips all_profiles

abbrev rejects_unknown_values : Bool
rejects_unknown_values = not (is_ok (from_str "ultra")) && not (is_ok (from_str "Performance"))

abbrev vendor_is : Vendor → Vendor → Bool
vendor_is intel intel = true
vendor_is amd amd = true
vendor_is unknown unknown = true
vendor_is _ _ = false

abbrev vendor_inference_matches_known_driver_names : Bool
vendor_inference_matches_known_driver_names =
    vendor_is (infer_vendor "intel_pstate") intel
    && vendor_is (infer_vendor "amd-pstate-epp") amd
    && vendor_is (infer_vendor "amd_pstate_epp") amd
    && vendor_is (infer_vendor "acpi-cpufreq") unknown

abbrev is_no_profile : Result (Option PowerProfile) PowerError → Bool
is_no_profile (ok none) = true
is_no_profile (ok (some p)) = false
is_no_profile (err e) = false

-- The backend has no state.
abbrev every_operation_is_a_no_op_success : Bool
every_operation_is_a_no_op_success =
    let backend = unsupported_backend (Unit {0}) in
    is_ok (backend.apply performance tt).0
    && is_no_profile (backend.current tt).0
    && is_ok (backend.set_turbo true tt).0
    && is_ok (backend.set_turbo false tt).0
    && not backend.is_supported

-- All tests pass.
hal_tests_pass :
    all_pass (
      round_trips_through_kernel_strings ∷ rejects_unknown_values
      ∷ vendor_inference_matches_known_driver_names ∷ every_operation_is_a_no_op_success ∷ [])
    ≡ true
unfolding from_str as_kernel_str profile_eq infer_vendor contains apply current set_turbo
hal_tests_pass = refl
