-- ===== src/Backend/Writes.antt =====
-- The loop that the `apply` methods of crates/cpu-power-hal/src/backend/epp.rs and governor.rs
-- share: for each policy a check that can refuse, and then a write that can fail.
pub mod Laws
pub mod Stops
use k8s_power_management.Base.{String, List, [], ◌∷◌, Result, ok, err}
use k8s_power_management.FilePath.{FilePath}
use k8s_power_management.Error.{IoError, PowerError, io}
use k8s_power_management.Topology.{CpuPolicy}
use k8s_power_management.Sysfs.{SysfsIo}
use k8s_power_management.Backend.Interface.{Host}

module _ {S : Type 0} where
  -- `.map_err(|source| PowerError::Io { path, source })?` behind a write, and what follows it.
  abbrev pub after_write :
      FilePath
      → Result (Unit {0}) IoError × S
      → (S → Result (Unit {0}) PowerError × S)
      → Result (Unit {0}) PowerError × S
  after_write path (ok _, s) rest = rest s
  after_write path (err source, s) rest = (err (io path source), s)

module _ (sysfs : SysfsIo) where
  unfoldable pub write_each :
      (CpuPolicy → FilePath)
      → (CpuPolicy → Result String PowerError)
      → List CpuPolicy
      → sysfs.State
      → Result (Unit {0}) PowerError × sysfs.State
  write_each target value [] s = (ok tt, s)
  write_each target value (p ∷ ps) s = elim (value p) [
    | err e ↦ (err e, s)
    | ok v ↦
        after_write (target p) (sysfs.write (target p) v s) (λ s'. write_each target value ps s')
  ]

  -- A call that changes files alone, on the whole state.
  abbrev pub on_files {ℓ} :
      {A : Type ℓ} → (sysfs.State → A × sysfs.State) → Host sysfs → A × Host sysfs
  on_files f h = let (a, s) = f h.files in (a, record h { files = s })
