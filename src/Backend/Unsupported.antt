-- ===== src/Backend/Unsupported.antt =====
-- crates/cpu-power-hal/src/backend/unsupported.rs: `UnsupportedBackend`.
use k8s_power_management.Base.{Bool, false, Option, none, Result, ok}
use k8s_power_management.Error.{PowerError}
use k8s_power_management.Profile.{PowerProfile}
use k8s_power_management.Backend.Interface.{unsupported, PowerBackend}

module _ (S : Type 0) where
  unfoldable pub apply : PowerProfile → S → Result (Unit {0}) PowerError × S
  apply profile s = (ok tt, s)

  unfoldable pub current : S → Result (Option PowerProfile) PowerError × S
  current s = (ok none, s)

  unfoldable pub set_turbo : Bool → S → Result (Unit {0}) PowerError × S
  set_turbo enabled s = (ok tt, s)

  -- The trait's methods.
  abbrev pub unsupported_backend : PowerBackend S
  unsupported_backend = record {
    kind = unsupported;
    is_supported = false;
    apply = apply;
    current = current;
    set_turbo = set_turbo;
  }
