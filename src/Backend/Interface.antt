-- ===== src/Backend/Interface.antt =====
-- crates/cpu-power-hal/src/backend/mod.rs: `BackendKind`, `Vendor` and the trait `PowerBackend`.
use k8s_power_management.Base.{String, Bool, List, ◌∷◌, Option, Result}
use k8s_power_management.Error.{PowerError}
use k8s_power_management.Profile.{PowerProfile}
use k8s_power_management.Sysfs.{SysfsIo}

pub data BackendKind : Type 0 where
  intel_epp amd_epp unknown_epp governor_fallback unsupported : BackendKind

-- Its `Display`.
unfoldable pub kind_text : BackendKind → String
kind_text intel_epp = "intel_epp"
kind_text amd_epp = "amd_epp"
kind_text unknown_epp = "unknown_epp"
kind_text governor_fallback = "governor_fallback"
kind_text unsupported = "unsupported"

pub data Vendor : Type 0 where
  intel amd unknown : Vendor

-- A method that may change the state `S` of the machine and of the backend object.
pub record PowerBackend (S : Type 0) : Type 0 where
  pub kind : BackendKind
  pub is_supported : Bool
  pub apply : PowerProfile → S → Result (Unit {0}) PowerError × S
  pub current : S → Result (Option PowerProfile) PowerError × S
  pub set_turbo : Bool → S → Result (Unit {0}) PowerError × S

-- The calls of `warn!` in the backends.
pub data Warning : Type 0 where
  unknown_epp_value : String → Warning
  turbo_skipped : Warning
  governor_collapse : Warning

-- What the methods of a real backend change: the files, the flag `warned_collapse` of the
-- governor backend, and the log, the last warning first.
pub record Host (sysfs : SysfsIo) : Type 0 where
  pub files : sysfs.State
  pub warned_collapse : Bool
  pub log : List Warning

abbrev pub warn : {sysfs : SysfsIo} → Warning → Host sysfs → Host sysfs
warn w h = record h { log = w ∷ h.log }
