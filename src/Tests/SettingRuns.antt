-- ===== src/Tests/SettingRuns.antt =====
-- The theorems that set programs beside each other or beside what they mean, on that host.
use k8s_power_management.Base.{◌≡◌, ◌↔◌, ◌⊎◌, refl, Bool, true, false, some, List, [], ◌∷◌}
use k8s_power_management.Profile.{PowerProfile, power, as_kernel_str}
use k8s_power_management.Sysfs.Rooted.{write, resolve}
use k8s_power_management.Sysfs.Memory.{FilePath_discrete}
use k8s_power_management.FilePath.{join}
use k8s_power_management.Backend.Interface.{amd_epp}
use k8s_power_management.Backend.Writes.{write_each}
use k8s_power_management.Backend.Epp.{epp_path, epp_value}
use k8s_power_management.Backend.Epp as Epp
use k8s_power_management.Backend.Epp.Settings.{
  Request, set_profile, set_boost, settings, obeyed_all, performed, Succeed, settings-performed,
}
use k8s_power_management.Backend.Detect.{detect_backend, methods, fresh}
use k8s_power_management.Agent.Reconcile.{reconcile_once}
use k8s_power_management.Agent.Reconcile.Recording.{
  no_calls, recording_backend, replay, reconcile_once-replay,
}
use k8s_power_management.Cli.{success, apply}
use k8s_power_management.Cli.Agreement.{turbo_option, IsClean, apply-agrees}
use k8s_power_management.Tests.{machine, disk}
use k8s_power_management.Tests.Host.{lawful, own}
use k8s_power_management.Tests.Hal.{intel_backend, start}
use k8s_power_management.Tests.AgentRuns.{text_format, backend}

abbrev requests : List Request
requests = set_profile power ∷ set_boost false ∷ []

all-Succeed : Succeed machine intel_backend requests start
unfolding Epp.apply Epp.set_turbo write_each epp_value as_kernel_str epp_path write
    FilePath_discrete join resolve
all-Succeed = (refl, (refl, tt))

settings-performed_example :
    settings machine intel_backend (performed machine intel_backend requests start).files
    ≡ obeyed_all requests (settings machine intel_backend disk)
settings-performed_example =
    settings-performed machine lawful intel_backend own requests start all-Succeed

apply-agrees_example :
    let r =
      reconcile_once text_format
        (methods machine (detect_backend machine disk))
        (some (as_kernel_str power))
        (turbo_option (some false))
        (fresh machine disk) in
    let outcome =
      apply text_format machine (some (as_kernel_str power)) (turbo_option (some false)) disk in
    (outcome.2 ≡ r.1) × ((outcome.0 ≡ success) ↔ IsClean r.0)
apply-agrees_example = apply-agrees text_format machine power (some false) disk

reconcile_once-replay_example :
    let calls =
      (reconcile_once text_format
        (recording_backend true amd_epp)
        (some "power")
        (some "on")
        no_calls).1 in
    ((reconcile_once text_format backend (some "power") (some "on") start).1
      ≡ replay backend calls start)
    × ((p : PowerProfile) × (calls.applied ≡ p ∷ []))
    × ((calls.turbo_calls ≡ []) ⊎ ((enabled : Bool) × (calls.turbo_calls ≡ enabled ∷ [])))
reconcile_once-replay_example =
    reconcile_once-replay text_format backend (some "power") (some "on") start true amd_epp
