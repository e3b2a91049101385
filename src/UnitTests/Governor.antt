-- ===== src/UnitTests/Governor.antt =====
-- The tests of crates/cpu-power-hal/src/backend/governor.rs.
use k8s_power_management.Base.{
  ℕ, String, ◌≡◌, refl, Bool, true, false, ◌&&◌, List, [], ◌∷◌, Result, err,
}
use k8s_power_management.Text.{decimal, trim_newlines}
use k8s_power_management.FilePath.{FilePath, child, join}
use k8s_power_management.Error.{PowerError}
use k8s_power_management.Profile.{
  PowerProfile, default, performance, balance_performance, balance_power, power, as_kernel_str,
}
use k8s_power_management.Topology.{CpuPolicy}
use k8s_power_management.Sysfs.Rooted.{resolve, read_to_string, write}
use k8s_power_management.Sysfs.Memory.{FilePath_discrete, files_of}
use k8s_power_management.Backend.Interface.{Host}
use k8s_power_management.Backend.Writes.{write_each}
use k8s_power_management.Backend.Governor.{
  GovernorFallbackBackend, governor_path, governor_value, map_governor, collapses, note_collapse,
  apply, set_turbo,
}
use k8s_power_management.Backend.Detect.{fresh}
use k8s_power_management.UnitTests.{all_pass, is_ok}
use k8s_power_management.UnitTests.Tree.{io, reads, policy_dir, policy_path, spaced}

-- What `policy` writes, and what it returns.
abbrev policy_files : ℕ → List String → List (FilePath × String)
policy_files id governors =
    (child (policy_dir id) "scaling_driver", "acpi-cpufreq")
    ∷ (child (policy_dir id) "scaling_available_governors", spaced governors)
    ∷ (child (policy_dir id) "scaling_governor", "ondemand")
    ∷ []

abbrev policy : ℕ → List String → CpuPolicy
policy id governors = record {
  id = id;
  path = policy_path id;
  related_cpus = id ∷ [];
  scaling_driver = "acpi-cpufreq";
  has_epp = false;
  available_epp = [];
  available_governors = governors;
}

abbrev before : List String → Host io
before governors = fresh io (files_of (policy_files 0 governors))

abbrev backend_of : List String → GovernorFallbackBackend
backend_of governors = record { policies = policy 0 governors ∷ [] }

-- An apply that has to succeed, and what the file then has.
abbrev applies : List String → PowerProfile → String → Host io → Bool × Host io
applies governors profile governor h =
    let (done, i) = apply io (backend_of governors) profile h in
    (
      is_ok done
          && reads (io.read_to_string (child (policy_path 0) "scaling_governor") i.files) governor,
      i,
    )

abbrev maps_performance_and_power_distinctly : Bool
maps_performance_and_power_distinctly =
    let governors : List String = "performance" ∷ "powersave" ∷ "schedutil" ∷ [] in
    let (first, h) = applies governors performance "performance" (before governors) in
    first && (applies governors power "powersave" h).0

abbrev collapses_middle_profiles_onto_schedutil : Bool
collapses_middle_profiles_onto_schedutil =
    let governors : List String = "performance" ∷ "powersave" ∷ "schedutil" ∷ [] in
    let (first, h) = applies governors default "schedutil" (before governors) in
    let (second, i) = applies governors balance_performance "schedutil" h in
    first && second && (applies governors balance_power "schedutil" i).0

abbrev falls_back_to_ondemand_when_schedutil_unavailable : Bool
falls_back_to_ondemand_when_schedutil_unavailable =
    let governors : List String = "performance" ∷ "powersave" ∷ "ondemand" ∷ [] in
    (applies governors balance_power "ondemand" (before governors)).0

abbrev is_turbo_unsupported : Result (Unit {0}) PowerError → Bool
is_turbo_unsupported (err PowerError.turbo_unsupported) = true
is_turbo_unsupported _ = false

abbrev turbo_is_unsupported : Bool
turbo_is_unsupported =
    let governors : List String = "performance" ∷ "powersave" ∷ [] in
    is_turbo_unsupported (set_turbo io (backend_of governors) true (before governors)).0

-- All tests pass.
governor_tests_pass :
    all_pass (
      maps_performance_and_power_distinctly ∷ collapses_middle_profiles_onto_schedutil
      ∷ falls_back_to_ondemand_when_schedutil_unavailable ∷ turbo_is_unsupported ∷ [])
    ≡ true
unfolding read_to_string write resolve join FilePath_discrete apply set_turbo note_collapse
    collapses write_each governor_value governor_path map_governor as_kernel_str decimal
    trim_newlines
governor_tests_pass = refl
