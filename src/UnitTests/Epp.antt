-- ===== src/UnitTests/Epp.antt =====
-- The tests of crates/cpu-power-hal/src/backend/epp.rs.
use k8s_power_management.Base.{
  ℕ, String, ◌≡◌, refl, Bool, true, false, ◌&&◌, Option, none, some, List, [], ◌∷◌, ◌++◌, Result,
  ok, err,
}
use k8s_power_management.Text.{decimal, trim_newlines}
use k8s_power_management.FilePath.{FilePath, names, child, join}
use k8s_power_management.Error.{PowerError, unsupported_profile}
use k8s_power_management.Profile.{PowerProfile, power, as_kernel_str, from_str}
use k8s_power_management.Topology.{CpuPolicy}
use k8s_power_management.Sysfs.Rooted.{resolve, read_to_string, write, exists}
use k8s_power_management.Sysfs.Memory.{FilePath_discrete, files_of}
use k8s_power_management.Backend.Interface.{intel, amd}
use k8s_power_management.Backend.Writes.{write_each}
use k8s_power_management.Backend.Epp.{
  EppBackend, intel_no_turbo_path, amd_pstate_boost_path, epp_path, epp_value, apply, current,
  set_turbo,
}
use k8s_power_management.Backend.Detect.{fresh}
use k8s_power_management.Agent.Metrics.{profile_eq}
use k8s_power_management.UnitTests.{all_pass, is_ok}
use k8s_power_management.UnitTests.Tree.{dir, io, reads, policy_dir, policy_path, spaced}

-- What `policy` writes, and what it returns.
abbrev policy_files : ℕ → String → List String → List (FilePath × String)
policy_files id driver available =
    (child (policy_dir id) "scaling_driver", driver)
    ∷ (child (policy_dir id) "energy_performance_available_preferences", spaced available)
    ∷ (child (policy_dir id) "energy_performance_preference", "default")
    ∷ []

abbrev policy : ℕ → String → List String → CpuPolicy
policy id driver available = record {
  id = id;
  path = policy_path id;
  related_cpus = id ∷ [];
  scaling_driver = driver;
  has_epp = true;
  available_epp = available;
  available_governors = [];
}

abbrev all_values : List String
all_values = "default" ∷ "performance" ∷ "balance_performance" ∷ "balance_power" ∷ "power" ∷ []

abbrev intel_turbo_is_inverted : Bool
intel_turbo_is_inverted =
    let s = files_of (policy_files 0 "intel_pstate" all_values) in
    let backend : EppBackend = record {
      policies = policy 0 "intel_pstate" all_values ∷ [];
      vendor = intel;
    } in
    let (on, h) = set_turbo io backend true (fresh io s) in
    let (off, i) = set_turbo io backend false h in
    is_ok on
    && reads (io.read_to_string intel_no_turbo_path h.files) "0"
    && is_ok off
    && reads (io.read_to_string intel_no_turbo_path i.files) "1"

abbrev amd_turbo_is_direct : Bool
amd_turbo_is_direct =
    let boost =
      join dir (names ("sys" ∷ "devices" ∷ "system" ∷ "cpu" ∷ "amd_pstate" ∷ "boost" ∷ [])) in
    let s = files_of ((boost, "0") ∷ policy_files 0 "amd-pstate-epp" all_values) in
    let backend : EppBackend = record {
      policies = policy 0 "amd-pstate-epp" all_values ∷ [];
      vendor = amd;
    } in
    let (on, h) = set_turbo io backend true (fresh io s) in
    let (off, i) = set_turbo io backend false h in
    is_ok on
    && reads (io.read_to_string amd_pstate_boost_path h.files) "1"
    && is_ok off
    && reads (io.read_to_string amd_pstate_boost_path i.files) "0"

abbrev is_unsupported_profile : Result (Unit {0}) PowerError → Bool
is_unsupported_profile (err (unsupported_profile id profile available)) = true
is_unsupported_profile _ = false

abbrev apply_rejects_profile_not_advertised_by_policy : Bool
apply_rejects_profile_not_advertised_by_policy =
    let values : List String = "default" ∷ "performance" ∷ [] in
    let s = files_of (policy_files 0 "intel_pstate" values) in
    let backend : EppBackend = record {
      policies = policy 0 "intel_pstate" values ∷ [];
      vendor = intel;
    } in
    is_unsupported_profile (apply io backend power (fresh io s)).0

abbrev reports : Result (Option PowerProfile) PowerError → PowerProfile → Bool
reports (ok (some p)) q = profile_eq p q
reports (ok none) q = false
reports (err e) q = false

abbrev apply_writes_every_policy : Bool
apply_writes_every_policy =
    let values : List String = "default" ∷ "performance" ∷ "power" ∷ [] in
    let s =
      files_of (policy_files 0 "intel_pstate" values ++ policy_files 1 "intel_pstate" values) in
    let backend : EppBackend = record {
      policies = policy 0 "intel_pstate" values ∷ policy 1 "intel_pstate" values ∷ [];
      vendor = intel;
    } in
    let (done, h) = apply io backend power (fresh io s) in
    is_ok done
    && reads (io.read_to_string (child (policy_path 0) "energy_performance_preference") h.files)
        "power"
    && reads (io.read_to_string (child (policy_path 1) "energy_performance_preference") h.files)
        "power"
    && reports (current io backend h).0 power

-- All tests pass.
epp_tests_pass :
    all_pass (
      intel_turbo_is_inverted ∷ amd_turbo_is_direct ∷ apply_rejects_profile_not_advertised_by_policy
      ∷ apply_writes_every_policy ∷ [])
    ≡ true
unfolding read_to_string write exists resolve join FilePath_discrete apply current set_turbo
    write_each epp_value epp_path as_kernel_str from_str profile_eq decimal trim_newlines
epp_tests_pass = refl
