-- ===== src/Backend/Epp/Kept.antt =====
-- Lemmas on what `EppBackend::set_turbo` and `current` of crates/cpu-power-hal/src/backend/epp.rs
-- leave alone.
use k8s_power_management.Base.{
  All-of_All, List, [], ◌∷◌, Result, ok, err, String, ◌≡◌, ◌≢◌, inl, inr, refl, sym, ap, ◌∙◌, Bool,
  Bool-cases, Option, some, arith, eq_iff, Result-cases,
}
use k8s_power_management.FilePath.{FilePath, file_name, OsString, unicode}
use k8s_power_management.FilePath.Laws.{IsPlain, join-normal}
use k8s_power_management.Error.{IoError}
use k8s_power_management.Profile.{PowerProfile, from_str, as_kernel_str}
use k8s_power_management.Topology.{CpuPolicy}
use k8s_power_management.Topology.Laws.{file_name-append}
use k8s_power_management.Sysfs.{SysfsIo, IsLawful}
use k8s_power_management.Backend.Interface.{Host, Vendor, intel, amd, unknown}
use k8s_power_management.Backend.Epp.{
  EppBackend, apply, epp_value, epp_path, intel_no_turbo_path, amd_pstate_boost_path,
  generic_cpufreq_boost_path, boost_path, set_turbo, turbo_of, write_turbo, no_turbo_value,
  boost_value, reported, parsed, current_of, current,
}
use k8s_power_management.Backend.Epp.Turbo.{
  turbo_allowed, turbo_allowed-eq, amd_pstate_boost_path-IsPlain, intel_no_turbo_path-IsPlain,
  boost_path-IsPlain,
}
use k8s_power_management.Backend.Epp.Laws.{epp_path-AreTargets}
use k8s_power_management.Backend.Writes.Laws.{read-write_each_ne, exists-write_each_ne}
use k8s_power_management.Topology.Discovery.{HaveOwnPaths}

file_name-epp_path :
    (p : CpuPolicy) → file_name (epp_path p) ≡ some (unicode "energy_performance_preference")
unfolding epp_path
file_name-epp_path p = rw (join-normal, file_name-append)

other_name :
    (p : CpuPolicy) (q : FilePath) (name : String)
    → file_name q ≡ some (unicode name)
    → name ≢ "energy_performance_preference"
    → q ≢ epp_path p
other_name p q name e differ same =
    differ (same_text (sym e ∙ ap file_name same ∙ file_name-epp_path p))
  where
    same_text :
        {s t : String} → ◌≡◌ {A = Option OsString} (some (unicode s)) (some (unicode t)) → s ≡ t
    same_text e = cc

no_turbo-apart : (p : CpuPolicy) → intel_no_turbo_path ≢ epp_path p
unfolding file_name
no_turbo-apart p =
    other_name p intel_no_turbo_path "no_turbo" refl
      (ground (arith, eq_iff "no_turbo" "energy_performance_preference"))

boost_differs : ◌≢◌ {A = String} "boost" "energy_performance_preference"
boost_differs = ground (arith, eq_iff "boost" "energy_performance_preference")

amd_boost-apart : (p : CpuPolicy) → amd_pstate_boost_path ≢ epp_path p
unfolding file_name
amd_boost-apart p = other_name p amd_pstate_boost_path "boost" refl boost_differs

module _ (sysfs : SysfsIo) (L : IsLawful sysfs) where
  boost_path-apart : (p : CpuPolicy) (s : sysfs.State) → boost_path sysfs s ≢ epp_path p
  unfolding boost_path file_name
  boost_path-apart p s = elim (Bool-cases (sysfs.exists amd_pstate_boost_path s)) [
    | inl there ↦ rw there (amd_boost-apart p)
    | inr absent ↦ rw absent (other_name p generic_cpufreq_boost_path "boost" refl boost_differs)
  ]

  write_turbo-files :
      (path : FilePath) (v : String) (h : Host sysfs)
      → (write_turbo sysfs path v h).1.files ≡ (sysfs.write path v h.files).1
  unfolding write_turbo
  write_turbo-files path v h = elim (Result-cases (sysfs.write path v h.files).0) [
    | inl (_, done) ↦ ground arith
    | inr (e, failed) ↦ ground arith
  ]

  turbo_of-keeps :
      (vendor : Vendor) (enabled : Bool) (h : Host sysfs) (p : CpuPolicy)
      → IsPlain (epp_path p)
      → sysfs.read_to_string (epp_path p) (turbo_of sysfs vendor enabled h).1.files
        ≡ sysfs.read_to_string (epp_path p) h.files
  unfolding turbo_of
  turbo_of-keeps intel enabled h p plain =
      ap (sysfs.read_to_string (epp_path p))
        (write_turbo-files intel_no_turbo_path (no_turbo_value enabled) h)
      ∙ L.read-write_ne intel_no_turbo_path (epp_path p) (no_turbo_value enabled) h.files
          intel_no_turbo_path-IsPlain plain (no_turbo-apart p)
  turbo_of-keeps amd enabled h p plain =
      ap (sysfs.read_to_string (epp_path p))
        (write_turbo-files (boost_path sysfs h.files) (boost_value enabled) h)
      ∙ L.read-write_ne (boost_path sysfs h.files) (epp_path p) (boost_value enabled) h.files
          (boost_path-IsPlain sysfs L h.files) plain (boost_path-apart p h.files)
  turbo_of-keeps unknown enabled h p plain = refl

  -- Whatever its result, `set_turbo` leaves every preference file at a plain path as it was.
  pub set_turbo-keeps_profiles :
      (b : EppBackend) (enabled : Bool) (h : Host sysfs) (p : CpuPolicy)
      → IsPlain (epp_path p)
      → sysfs.read_to_string (epp_path p) (set_turbo sysfs b enabled h).1.files
        ≡ sysfs.read_to_string (epp_path p) h.files
  unfolding set_turbo
  set_turbo-keeps_profiles b enabled h p plain = turbo_of-keeps b.vendor enabled h p plain

module _ (sysfs : SysfsIo) (L : IsLawful sysfs) where
  -- Whatever its result, `apply` leaves the knobs of turbo as they were.
  pub apply-keeps_turbo :
      (b : EppBackend) (profile : PowerProfile) (h : Host sysfs)
      → HaveOwnPaths b.policies
      → turbo_allowed sysfs b.vendor (apply sysfs b profile h).1.files
        ≡ turbo_allowed sysfs b.vendor h.files
  unfolding apply
  apply-keeps_turbo b profile h own =
      let targets = (epp_path-AreTargets b.policies own).0 in
      let value = epp_value (as_kernel_str profile) in
      turbo_allowed-eq sysfs b.vendor h.files _
        (read-write_each_ne sysfs L epp_path value intel_no_turbo_path b.policies h.files
          intel_no_turbo_path-IsPlain targets
          (All-of_All _ (λ p e. no_turbo-apart p (sym e)) b.policies))
        (exists-write_each_ne sysfs L epp_path value amd_pstate_boost_path b.policies h.files
          amd_pstate_boost_path-IsPlain targets
          (All-of_All _ (λ p e. amd_boost-apart p (sym e)) b.policies))
        (read-write_each_ne sysfs L epp_path value (boost_path sysfs h.files) b.policies h.files
          (boost_path-IsPlain sysfs L h.files) targets
          (All-of_All _ (λ p e. boost_path-apart sysfs L p h.files (sym e)) b.policies))

module _ (sysfs : SysfsIo) where
  reported-files :
      (r : Result String IoError) (path : FilePath) (h : Host sysfs)
      → (reported sysfs path r h).1.files ≡ h.files
  unfolding reported parsed
  reported-files (err e) path h = refl
  reported-files (ok raw) path h = elim (Result-cases (from_str raw)) [
    | inl (p, found) ↦ ground arith
    | inr (e, other) ↦ ground arith
  ]

  current_of-files :
      (ps : List CpuPolicy) (h : Host sysfs) → (current_of sysfs ps h).1.files ≡ h.files
  unfolding current_of
  current_of-files [] h = refl
  current_of-files (p ∷ ps) h =
      reported-files (sysfs.read_to_string (epp_path p) h.files) (epp_path p) h

  -- Whatever it reads, `current` changes no file.
  pub epp_current-files : (b : EppBackend) (h : Host sysfs) → (current sysfs b h).1.files ≡ h.files
  unfolding current
  epp_current-files b h = current_of-files b.policies h
