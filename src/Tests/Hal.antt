-- ===== src/Tests/Hal.antt =====
-- The theorems about crates/cpu-power-hal/src on that host.
use k8s_power_management.Base.{
  ◌≤◌, String, ◌≡◌, ◌≢◌, ◌↔◌, ◌⊎◌, refl, sym, ap, subst, ◌∙◌, unwrap_or, Bool, false, none, some,
  List, [], ◌∷◌, ok, err, All, In, arith, ◌<>◌,
}
use k8s_power_management.Text.{decimal, codes, to_ascii_lowercase, contains}
use k8s_power_management.Text.Words.{Infix}
use k8s_power_management.FilePath.{root_dir, child, join, FilePath}
use k8s_power_management.Error.{unsupported_profile, invalid_profile}
use k8s_power_management.Profile.{
  PowerProfile, default, performance, balance_power, power, as_kernel_str, from_str,
}
use k8s_power_management.Profile.Laws.{from_str_iff}
use k8s_power_management.Topology.{cpufreq_root, CpuPolicy, policy_id}
use k8s_power_management.Topology.Laws.{policy_id-decimal}
use k8s_power_management.Topology.Discovery.{Found, discover_policies_lem}
use k8s_power_management.Sysfs.{SysfsIo, IsLawful}
use k8s_power_management.Sysfs.Rooted.{write, resolve}
use k8s_power_management.Sysfs.Rooted.Laws.{rooted_sysfs-IsLawful}
use k8s_power_management.Sysfs.Memory.{FilePath_discrete, memory_fs, memory_fs-BehavesWell}
use k8s_power_management.Backend.Interface.{Host, intel, amd, unknown, unsupported}
use k8s_power_management.Backend.Writes.{write_each}
use k8s_power_management.Backend.Writes.Stops.{StoppedRun}
use k8s_power_management.Backend.Epp.{EppBackend, epp_path, epp_value}
use k8s_power_management.Backend.Epp as Epp
use k8s_power_management.Backend.Epp.Laws.{
  epp_path-AreTargets, Advertises, apply-ok_iff, apply-current, apply-StoppedRun,
}
use k8s_power_management.Backend.Epp.Turbo.{turbo_allowed, set_turbo-allowed}
use k8s_power_management.Backend.Governor.{
  GovernorFallbackBackend, governor_path, map_governor, collapses,
}
use k8s_power_management.Backend.Governor as Governor
use k8s_power_management.Backend.Governor.Laws.{IsMiddle, map_governor_classes, apply-Holds}
use k8s_power_management.Backend.Epp.Kept.{set_turbo-keeps_profiles}
use k8s_power_management.Backend.Governor.Stops.{governor_run-StoppedRun}
use k8s_power_management.Backend.Governor.Warnings.{
  collapse_warnings, after_applies, collapse_warnings-after_applies,
}
use k8s_power_management.Backend.Detect.{
  epp, no_backend, infer_vendor, choose, detect_backend, methods, fresh,
}
use k8s_power_management.Backend.Detect.Laws.{
  Enforced, infer_vendor_iff, kind-eq-unsupported_iff, unsupported_is_no_op, detect-apply-Enforced,
}
use k8s_power_management.Tests.{policy1, machine, disk, listings, listings-distinct}
use k8s_power_management.Tests.Host.{first_policy, both, found, lawful, own, root-IsPlain}

-- A file system that takes every write, and keeps a list of them.
abbrev pub recorder : SysfsIo
recorder = record {
  State = List (FilePath × String);
  read_to_string = λ p s. err (record { message = "not readable" });
  write = λ p v s. (ok tt, (p, v) ∷ s);
  read_dir = λ p s. ok [];
  exists = λ p s. false;
}

abbrev pub intel_backend : EppBackend
intel_backend = record { policies = both; vendor = intel }

abbrev governors : GovernorFallbackBackend
governors = record { policies = both }

abbrev pub start : Host machine
start = fresh machine disk

rooted_sysfs-IsLawful_example : IsLawful machine
rooted_sysfs-IsLawful_example =
    rooted_sysfs-IsLawful (memory_fs listings) (memory_fs-BehavesWell listings listings-distinct)
      (root_dir ∷ []) root-IsPlain

discover_policies_lem_example : Found machine disk both
discover_policies_lem_example = discover_policies_lem machine disk both found

policy_id-decimal_example : policy_id (child cpufreq_root ("policy" <> decimal 12)) ≡ some 12
policy_id-decimal_example = policy_id-decimal cpufreq_root 12 (omega arith)

from_str_iff_example :
    ((p : PowerProfile) → (from_str "turbo" ≡ ok p) ↔ ("turbo" ≡ as_kernel_str p))
    × (((p : PowerProfile) → "turbo" ≢ as_kernel_str p)
        → from_str "turbo" ≡ err (invalid_profile "turbo"))
from_str_iff_example = from_str_iff "turbo"

apply-ok_iff_example :
    ((Epp.apply recorder intel_backend power (fresh recorder [])).0 ≡ ok tt)
    ↔ All (Advertises (as_kernel_str power)) both
apply-ok_iff_example =
    apply-ok_iff recorder intel_backend power (fresh recorder [])
      ((λ v s. refl), ((λ v s. refl), tt))

pub applied : (Epp.apply machine intel_backend power start).0 ≡ ok tt
unfolding Epp.apply write_each epp_value as_kernel_str epp_path write FilePath_discrete join resolve
applied = refl

refused :
    (Epp.apply machine intel_backend balance_power start).0
    ≡ err (unsupported_profile 0 "balance_power" ("default" ∷ "performance" ∷ "power" ∷ []))
unfolding Epp.apply write_each epp_value as_kernel_str
refused = refl

apply-current_example :
    let h' = (Epp.apply machine intel_backend power start).1 in
    All (λ p. machine.read_to_string (epp_path p) h'.files ≡ ok (as_kernel_str power)) both
    × (both ≢ [] → Epp.current machine intel_backend h' ≡ (ok (some power), h'))
apply-current_example = apply-current machine lawful intel_backend own power start applied

apply-StoppedRun_example :
    StoppedRun machine epp_path
      (epp_value (as_kernel_str balance_power))
      (unsupported_profile 0 "balance_power" ("default" ∷ "performance" ∷ "power" ∷ []))
      both
      disk
      (Epp.apply machine intel_backend balance_power start).1.files
apply-StoppedRun_example =
    apply-StoppedRun machine lawful intel_backend own balance_power start
      (unsupported_profile 0 "balance_power" ("default" ∷ "performance" ∷ "power" ∷ [])) refused

pub turbo_set : (Epp.set_turbo machine intel_backend false start).0 ≡ ok tt
unfolding Epp.set_turbo write FilePath_discrete join resolve
turbo_set = refl

set_turbo-allowed_example :
    turbo_allowed machine intel (Epp.set_turbo machine intel_backend false start).1.files
    ≡ some false
set_turbo-allowed_example = set_turbo-allowed machine lawful intel_backend false start turbo_set

governed : (Governor.apply machine governors balance_power start).0 ≡ ok tt
unfolding Governor.apply write_each Governor.governor_value map_governor collapses governor_path
    write FilePath_discrete join resolve
governed = refl

apply-Holds_example :
    All
      (λ p.
        let governor = map_governor balance_power p.available_governors in
        (machine.read_to_string
            (governor_path p)
            (Governor.apply machine governors balance_power start).1.files
          ≡ ok governor)
        × In governor p.available_governors)
      both
apply-Holds_example = apply-Holds machine lawful governors own balance_power start governed

map_governor_classes_example :
    let l : List String = "performance" ∷ "powersave" ∷ [] in
    ((p q : PowerProfile) → IsMiddle p → IsMiddle q → map_governor p l ≡ map_governor q l)
    × ((p : PowerProfile) → map_governor p l ≡ map_governor performance l → p ≡ performance)
    × ((p : PowerProfile)
        → IsMiddle p
        → (map_governor p l ≡ map_governor power l) ↔ ((¬ In "schedutil" l) × (¬ In "ondemand" l)))
map_governor_classes_example = map_governor_classes ("performance" ∷ "powersave" ∷ [])

collapse_warnings-after_applies_example :
    let applied_profiles = default ∷ power ∷ balance_power ∷ [] in
    let warnings =
      collapse_warnings
        (after_applies machine governors applied_profiles (fresh machine disk)).log in
    ((warnings ≡ 1) ↔ ((p : PowerProfile) × In p applied_profiles × IsMiddle p)) × (warnings ≤ 1)
collapse_warnings-after_applies_example =
    collapse_warnings-after_applies machine governors (default ∷ power ∷ balance_power ∷ []) disk

infer_vendor_iff_example :
    let lower = to_ascii_lowercase "AMD-pstate-epp" in
    ((infer_vendor "AMD-pstate-epp" ≡ intel) ↔ Infix (codes "intel") lower)
    × ((infer_vendor "AMD-pstate-epp" ≡ amd)
        ↔ ((¬ Infix (codes "intel") lower) × Infix (codes "amd") lower))
    × ((infer_vendor "AMD-pstate-epp" ≡ unknown)
        ↔ ((¬ Infix (codes "intel") lower) × (¬ Infix (codes "amd") lower)))
infer_vendor_iff_example = infer_vendor_iff "AMD-pstate-epp"

kind-eq-unsupported_iff_example : ((methods machine (choose both)).kind ≡ unsupported) ↔ (
    (both ≡ [])
    ⊎ ((first : CpuPolicy) × (rest : List CpuPolicy) × (both ≡ first ∷ rest)
        × (first.has_epp ≡ false)
        × (first.available_governors ≡ [])))
kind-eq-unsupported_iff_example = kind-eq-unsupported_iff machine both

unsupported_is_no_op_example :
    ((profile : PowerProfile) → (methods machine no_backend).apply profile start ≡ (ok tt, start))
    × ((enabled : Bool) → (methods machine no_backend).set_turbo enabled start ≡ (ok tt, start))
    × ((methods machine no_backend).current start ≡ (ok none, start))
    × ((methods machine no_backend).is_supported ≡ false)
unsupported_is_no_op_example = unsupported_is_no_op machine no_backend refl start

choice : choose both ≡ epp intel_backend
unfolding choose infer_vendor contains
choice = refl

pub detected : detect_backend machine disk ≡ epp intel_backend
unfolding detect_backend
detected = ap (λ r. choose (unwrap_or r [])) found ∙ choice

pub chosen : ((methods machine (detect_backend machine disk)).apply power start).0 ≡ ok tt
chosen = subst (λ b. ((methods machine b).apply power start).0 ≡ ok tt) (sym detected) applied

detect-apply-Enforced_example :
    Enforced machine
      (detect_backend machine disk)
      power
      ((methods machine (detect_backend machine disk)).apply power start).1.files
detect-apply-Enforced_example = detect-apply-Enforced machine lawful disk power start chosen

-- The second policy offers no governor.
abbrev mixed_governors : GovernorFallbackBackend
mixed_governors = record {
  policies =
      first_policy ∷ record first_policy { id = 1; path = policy1; available_governors = [] } ∷ [];
}

not_offered :
    (Governor.apply machine mixed_governors power start).0 ≡ err (unsupported_profile 1 "power" [])
unfolding Governor.apply write_each Governor.governor_value map_governor collapses governor_path
    write FilePath_discrete join resolve as_kernel_str
not_offered = refl

governor_run-StoppedRun_example :
    StoppedRun machine governor_path
      (Governor.governor_value power)
      (unsupported_profile 1 "power" [])
      mixed_governors.policies
      disk
      (Governor.apply machine mixed_governors power start).1.files
governor_run-StoppedRun_example =
    governor_run-StoppedRun machine lawful mixed_governors own power start
      (unsupported_profile 1 "power" []) not_offered

set_turbo-keeps_profiles_example :
    machine.read_to_string
      (epp_path first_policy)
      (Epp.set_turbo machine intel_backend false start).1.files
    ≡ machine.read_to_string (epp_path first_policy) disk
set_turbo-keeps_profiles_example =
    set_turbo-keeps_profiles machine lawful intel_backend false start first_policy
      (epp_path-AreTargets both own).0.0
