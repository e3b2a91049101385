-- ===== src/Backend/Governor/Stops.antt =====
-- Lemmas on the ends of `GovernorFallbackBackend::apply` in
-- crates/cpu-power-hal/src/backend/governor.rs.
use k8s_power_management.Base.{◌≡◌, subst, err, arith}
use k8s_power_management.Error.{PowerError}
use k8s_power_management.Profile.{PowerProfile}
use k8s_power_management.Topology.Discovery.{HaveOwnPaths}
use k8s_power_management.Sysfs.{SysfsIo, IsLawful}
use k8s_power_management.Backend.Interface.{Host}
use k8s_power_management.Backend.Writes.Stops.{StoppedRun, write_each-StoppedRun}
use k8s_power_management.Backend.Governor.{
  GovernorFallbackBackend, governor_path, governor_value, apply, note_collapse,
}
use k8s_power_management.Backend.Governor.Laws.{governor_path-AreTargets}

module _ (sysfs : SysfsIo) where
  note_collapse-files :
      (profile : PowerProfile) (h : Host sysfs) → (note_collapse sysfs profile h).files ≡ h.files
  unfolding note_collapse
  note_collapse-files profile h = ground arith

module _ (sysfs : SysfsIo) (L : IsLawful sysfs) (b : GovernorFallbackBackend)
    (own : HaveOwnPaths b.policies) (profile : PowerProfile) (h : Host sysfs) where
  -- An `apply` that fails stopped at one policy, which does not offer the governor or whose write
  -- failed. The policies before it have the governor already, and nothing is rolled back; those
  -- behind it, and the refusing one, are as they were.
  pub governor_run-StoppedRun :
      (e : PowerError)
      → (apply sysfs b profile h).0 ≡ err e
      → StoppedRun sysfs governor_path
          (governor_value profile)
          e
          b.policies
          h.files
          (apply sysfs b profile h).1.files
  unfolding apply
  governor_run-StoppedRun e bad =
      subst
        (λ s.
          StoppedRun sysfs governor_path (governor_value profile) e b.policies s
            (apply sysfs b profile h).1.files)
        (note_collapse-files sysfs profile h)
        (write_each-StoppedRun sysfs L governor_path _ e b.policies _
          (governor_path-AreTargets b.policies own) bad)
