-- ===== src/Backend/Governor.antt =====
-- crates/cpu-power-hal/src/backend/governor.rs: `GovernorFallbackBackend`.
pub mod Laws
pub mod Warnings
pub mod Stops
use k8s_power_management.Base.{
  String, Bool, true, false, ◌&&◌, not, Option, none, List, Result, ok, err, any, str_eq,
  if◌then◌else◌,
}
use k8s_power_management.FilePath.{FilePath, child}
use k8s_power_management.Error.{PowerError, unsupported_profile, turbo_unsupported}
use k8s_power_management.Profile.{
  PowerProfile, default, performance, balance_performance, balance_power, power, as_kernel_str,
}
use k8s_power_management.Topology.{CpuPolicy}
use k8s_power_management.Sysfs.{SysfsIo}
use k8s_power_management.Backend.Interface.{
  BackendKind, governor_fallback, PowerBackend, Host, warn, governor_collapse,
}
use k8s_power_management.Backend.Writes.{write_each, on_files}

-- Its flag `warned_collapse` is the one of the `Host` state.
pub record GovernorFallbackBackend : Type 0 where
  pub policies : List CpuPolicy

unfoldable pub governor_path : CpuPolicy → FilePath
governor_path policy = child policy.path "scaling_governor"

abbrev pub has : List String → String → Bool
has available name = any (λ g. str_eq g name) available

middle_governor : List String → String
middle_governor available =
    if has available "schedutil"
    then "schedutil"
    else if has available "ondemand"
    then "ondemand"
    else "powersave"

unfoldable pub map_governor : PowerProfile → List String → String
unfolding middle_governor
map_governor performance available = "performance"
map_governor power available = "powersave"
map_governor default available = middle_governor available
map_governor balance_performance available = middle_governor available
map_governor balance_power available = middle_governor available

-- The `matches!` of `apply`.
unfoldable pub collapses : PowerProfile → Bool
collapses default = true
collapses balance_performance = true
collapses balance_power = true
collapses performance = false
collapses power = false

-- The check in the loop of `apply`.
unfoldable pub governor_value : PowerProfile → CpuPolicy → Result String PowerError
governor_value profile policy =
    let governor = map_governor profile policy.available_governors in
    if not (has policy.available_governors governor)
    then err (unsupported_profile policy.id (as_kernel_str profile) policy.available_governors)
    else ok governor

module _ (sysfs : SysfsIo) where
  -- `collapses && !self.warned_collapse.swap(true)`: the flag is swapped only if the profile collapses.
  unfoldable pub note_collapse : PowerProfile → Host sysfs → Host sysfs
  note_collapse profile h =
      let swapped = record h { warned_collapse = true } in
      if not (collapses profile)
      then h
      else if h.warned_collapse
      then swapped
      else warn governor_collapse swapped

  unfoldable pub apply :
      GovernorFallbackBackend
      → PowerProfile
      → Host sysfs
      → Result (Unit {0}) PowerError × Host sysfs
  unfolding note_collapse
  apply b profile h =
      on_files sysfs (write_each sysfs governor_path (governor_value profile) b.policies)
        (note_collapse profile h)

  unfoldable pub current :
      GovernorFallbackBackend → Host sysfs → Result (Option PowerProfile) PowerError × Host sysfs
  current b h = (ok none, h)

  unfoldable pub set_turbo :
      GovernorFallbackBackend → Bool → Host sysfs → Result (Unit {0}) PowerError × Host sysfs
  set_turbo b enabled h = (err turbo_unsupported, h)

  -- The trait's methods.
  abbrev pub governor_backend : GovernorFallbackBackend → PowerBackend (Host sysfs)
  governor_backend b = record {
    kind = governor_fallback;
    is_supported = true;
    apply = apply b;
    current = current b;
    set_turbo = set_turbo b;
  }
