-- ===== src/Backend/Epp.antt =====
-- crates/cpu-power-hal/src/backend/epp.rs: `EppBackend`.
pub mod Laws
pub mod Turbo
pub mod Kept
pub mod Settings
use k8s_power_management.Base.{
  String, Bool, true, ◌&&◌, not, Option, none, some, List, [], ◌∷◌, Result, ok, err, any, is_empty,
  str_eq, if◌then◌else◌,
}
use k8s_power_management.FilePath.{FilePath, from_root, child}
use k8s_power_management.Error.{PowerError, io, unsupported_profile, turbo_unsupported, IoError}
use k8s_power_management.Profile.{PowerProfile, as_kernel_str, from_str}
use k8s_power_management.Topology.{CpuPolicy}
use k8s_power_management.Sysfs.{SysfsIo}
use k8s_power_management.Backend.Interface.{
  BackendKind, intel_epp, amd_epp, unknown_epp, Vendor, intel, amd, unknown, PowerBackend, Host,
  warn, unknown_epp_value, turbo_skipped,
}
use k8s_power_management.Backend.Writes.{write_each, on_files, after_write}

abbrev pub intel_no_turbo_path : FilePath
intel_no_turbo_path =
    from_root ("sys" ∷ "devices" ∷ "system" ∷ "cpu" ∷ "intel_pstate" ∷ "no_turbo" ∷ [])

abbrev pub amd_pstate_boost_path : FilePath
amd_pstate_boost_path =
    from_root ("sys" ∷ "devices" ∷ "system" ∷ "cpu" ∷ "amd_pstate" ∷ "boost" ∷ [])

abbrev pub generic_cpufreq_boost_path : FilePath
generic_cpufreq_boost_path =
    from_root ("sys" ∷ "devices" ∷ "system" ∷ "cpu" ∷ "cpufreq" ∷ "boost" ∷ [])

pub record EppBackend : Type 0 where
  pub policies : List CpuPolicy
  pub vendor : Vendor

unfoldable pub epp_path : CpuPolicy → FilePath
epp_path policy = child policy.path "energy_performance_preference"

unfoldable pub kind : EppBackend → BackendKind
kind b = elim b.vendor [ intel ↦ intel_epp | amd ↦ amd_epp | unknown ↦ unknown_epp ]

-- The check at the head of the loop of `apply`: the text to write, or the refusal.
unfoldable pub epp_value : String → CpuPolicy → Result String PowerError
epp_value value policy =
    if not (is_empty policy.available_epp) && not (any (λ v. str_eq v value) policy.available_epp)
    then err (unsupported_profile policy.id value policy.available_epp)
    else ok value

-- The value that a set turbo is written as, with Intel's inverted sign.
abbrev no_turbo_value : Bool → String
no_turbo_value enabled = if enabled then "0" else "1"

abbrev boost_value : Bool → String
boost_value enabled = if enabled then "1" else "0"

module _ (sysfs : SysfsIo) where
  unfoldable pub apply :
      EppBackend → PowerProfile → Host sysfs → Result (Unit {0}) PowerError × Host sysfs
  apply b profile =
      on_files sysfs (write_each sysfs epp_path (epp_value (as_kernel_str profile)) b.policies)

  -- The match on the text that the kernel reports.
  parsed :
      Result PowerProfile PowerError
      → String
      → Host sysfs
      → Result (Option PowerProfile) PowerError × Host sysfs
  parsed (ok profile) raw h = (ok (some profile), h)
  parsed (err _) raw h = (ok none, warn (unknown_epp_value raw) h)

  reported :
      FilePath
      → Result String IoError
      → Host sysfs
      → Result (Option PowerProfile) PowerError × Host sysfs
  reported path (ok raw) h = parsed (from_str raw) raw h
  reported path (err source) h = (err (io path source), h)

  current_of : List CpuPolicy → Host sysfs → Result (Option PowerProfile) PowerError × Host sysfs
  current_of [] h = (ok none, h)
  current_of (first ∷ _) h =
      reported (epp_path first) (sysfs.read_to_string (epp_path first) h.files) h

  unfoldable pub current :
      EppBackend → Host sysfs → Result (Option PowerProfile) PowerError × Host sysfs
  unfolding current_of reported parsed
  current b = current_of b.policies

  write_turbo : FilePath → String → Host sysfs → Result (Unit {0}) PowerError × Host sysfs
  write_turbo path value =
      on_files sysfs (λ s. after_write path (sysfs.write path value s) (λ s'. (ok tt, s')))

  -- The AMD knob where it exists, and the generic one elsewhere.
  unfoldable pub boost_path : sysfs.State → FilePath
  boost_path s =
      if sysfs.exists amd_pstate_boost_path s
      then amd_pstate_boost_path
      else generic_cpufreq_boost_path

  turbo_of : Vendor → Bool → Host sysfs → Result (Unit {0}) PowerError × Host sysfs
  turbo_of intel enabled h = write_turbo intel_no_turbo_path (no_turbo_value enabled) h
  turbo_of amd enabled h = write_turbo (boost_path h.files) (boost_value enabled) h
  turbo_of unknown enabled h = (err turbo_unsupported, warn turbo_skipped h)

  unfoldable pub set_turbo :
      EppBackend → Bool → Host sysfs → Result (Unit {0}) PowerError × Host sysfs
  unfolding turbo_of write_turbo boost_path
  set_turbo b = turbo_of b.vendor

  -- The trait's methods.
  abbrev pub epp_backend : EppBackend → PowerBackend (Host sysfs)
  epp_backend b = record {
    kind = kind b;
    is_supported = true;
    apply = apply b;
    current = current b;
    set_turbo = set_turbo b;
  }
