-- ===== src/Backend/Detect.antt =====
-- crates/cpu-power-hal/src/backend/mod.rs: `detect_backend` and `infer_vendor`.
pub mod Laws
use k8s_power_management.Base.{
  String, Bool, true, false, List, [], ◌∷◌, is_empty, unwrap_or, if◌then◌else◌,
}
use k8s_power_management.Text.{codes, to_ascii_lowercase, contains}
use k8s_power_management.Topology.{CpuPolicy, discover_policies}
use k8s_power_management.Sysfs.{SysfsIo}
use k8s_power_management.Backend.Interface.{Vendor, intel, amd, unknown, PowerBackend, Host}
use k8s_power_management.Backend.Epp.{EppBackend, epp_backend}
use k8s_power_management.Backend.Governor.{GovernorFallbackBackend, governor_backend}
use k8s_power_management.Backend.Unsupported.{unsupported_backend}

unfoldable pub infer_vendor : String → Vendor
unfolding contains
infer_vendor scaling_driver =
    let lower = to_ascii_lowercase scaling_driver in
    if contains lower (codes "intel")
    then intel
    else if contains lower (codes "amd")
    then amd
    else unknown

-- The three types behind `Box<dyn PowerBackend>`.
pub data Backend : Type 0 where
  epp : EppBackend → Backend
  governor : GovernorFallbackBackend → Backend
  no_backend : Backend

-- The choice among the backends, by the first policy.
unfoldable pub choose : List CpuPolicy → Backend
choose [] = no_backend
choose (first ∷ rest) =
    if first.has_epp
    then epp (record { policies = first ∷ rest; vendor = infer_vendor first.scaling_driver })
    else if is_empty first.available_governors
    then no_backend
    else governor (record { policies = first ∷ rest })

module _ (sysfs : SysfsIo) where
  unfoldable pub detect_backend : sysfs.State → Backend
  detect_backend s = choose (unwrap_or (discover_policies sysfs s) [])

  -- The calls through the box.
  abbrev pub methods : Backend → PowerBackend (Host sysfs)
  methods (epp b) = epp_backend sysfs b
  methods (governor b) = governor_backend sysfs b
  methods no_backend = unsupported_backend (Host sysfs)

  -- A host before its first backend call; `warned_collapse` starts at false.
  abbrev pub fresh : sysfs.State → Host sysfs
  fresh s = record { files = s; warned_collapse = false; log = [] }
