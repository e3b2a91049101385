-- ===== src/Backend/Epp/Turbo.antt =====
-- Lemmas on `EppBackend::set_turbo` of crates/cpu-power-hal/src/backend/epp.rs and the knobs that
-- it writes.
use mathlib.Core.Option
use k8s_power_management.Base.{
  String, ◌≡◌, ◌≢◌, inl, inr, refl, sym, ap, ◌∙◌, Bool, true, false, not, Option, none, some, [],
  ◌∷◌, Result, ok, err, arith, eq_iff, str_eq, Bool-cases, Result-cases, if◌then◌else◌,
}
use k8s_power_management.Text.{trim_newlines}
use k8s_power_management.FilePath.{FilePath}
use k8s_power_management.FilePath.Laws.{IsPlain, from_root-IsPlain}
use k8s_power_management.Error.{turbo_unsupported, IoError}
use k8s_power_management.Sysfs.{SysfsIo, IsLawful}
use k8s_power_management.Backend.Interface.{Host, Vendor, intel, amd, unknown}
use k8s_power_management.Backend.Epp.{
  EppBackend, intel_no_turbo_path, amd_pstate_boost_path, generic_cpufreq_boost_path, boost_path,
  set_turbo, no_turbo_value, boost_value, turbo_of, write_turbo,
}

-- What the kernel's documents say of the knobs: `no_turbo` at 1 forbids turbo, and `boost` at 1
-- allows it. `none` is a file that cannot be read or holds neither digit.
bit_of : Result String IoError → Option Bool
bit_of (ok text) =
    if str_eq text "1" then some true else if str_eq text "0" then some false else none
bit_of (err _) = none

module _ (sysfs : SysfsIo) where
  pub turbo_allowed : Vendor → sysfs.State → Option Bool
  unfolding bit_of
  turbo_allowed intel s = Option.map not (bit_of (sysfs.read_to_string intel_no_turbo_path s))
  turbo_allowed amd s = bit_of (sysfs.read_to_string (boost_path sysfs s) s)
  turbo_allowed unknown s = none

  boost_path-eq :
      (s t : sysfs.State)
      → sysfs.exists amd_pstate_boost_path t ≡ sysfs.exists amd_pstate_boost_path s
      → boost_path sysfs t ≡ boost_path sysfs s
  unfolding boost_path
  boost_path-eq s t same =
      ap (λ b. if b then amd_pstate_boost_path else generic_cpufreq_boost_path) same

  -- The three knobs decide what is read of turbo, and with AMD the presence of the first of two.
  pub turbo_allowed-eq :
      (vendor : Vendor) (s t : sysfs.State)
      → sysfs.read_to_string intel_no_turbo_path t ≡ sysfs.read_to_string intel_no_turbo_path s
      → sysfs.exists amd_pstate_boost_path t ≡ sysfs.exists amd_pstate_boost_path s
      → sysfs.read_to_string (boost_path sysfs s) t ≡ sysfs.read_to_string (boost_path sysfs s) s
      → turbo_allowed vendor t ≡ turbo_allowed vendor s
  unfolding turbo_allowed
  turbo_allowed-eq intel s t no_turbo there boost = ap (λ r. Option.map not (bit_of r)) no_turbo
  turbo_allowed-eq amd s t no_turbo there boost =
      ap (λ q. bit_of (sysfs.read_to_string q t)) (boost_path-eq s t there) ∙ ap bit_of boost
  turbo_allowed-eq unknown s t no_turbo there boost = refl

pub amd_pstate_boost_path-IsPlain : IsPlain amd_pstate_boost_path
amd_pstate_boost_path-IsPlain =
    from_root-IsPlain ("sys" ∷ "devices" ∷ "system" ∷ "cpu" ∷ "amd_pstate" ∷ "boost" ∷ [])

pub generic_cpufreq_boost_path-IsPlain : IsPlain generic_cpufreq_boost_path
generic_cpufreq_boost_path-IsPlain =
    from_root-IsPlain ("sys" ∷ "devices" ∷ "system" ∷ "cpu" ∷ "cpufreq" ∷ "boost" ∷ [])

pub intel_no_turbo_path-IsPlain : IsPlain intel_no_turbo_path
intel_no_turbo_path-IsPlain =
    from_root-IsPlain ("sys" ∷ "devices" ∷ "system" ∷ "cpu" ∷ "intel_pstate" ∷ "no_turbo" ∷ [])

boost_paths_differ : generic_cpufreq_boost_path ≢ amd_pstate_boost_path
boost_paths_differ e = names_differ (cc)
  where
    names_differ : ◌≢◌ {A = String} "cpufreq" "amd_pstate"
    names_differ = ground (arith, eq_iff "cpufreq" "amd_pstate")

bit_of-no_turbo :
    (enabled : Bool)
    → Option.map not (bit_of (ok (trim_newlines (no_turbo_value enabled)))) ≡ some enabled
unfolding bit_of trim_newlines
bit_of-no_turbo true = refl
bit_of-no_turbo false = refl

bit_of-boost : (enabled : Bool) → bit_of (ok (trim_newlines (boost_value enabled))) ≡ some enabled
unfolding bit_of trim_newlines
bit_of-boost true = refl
bit_of-boost false = refl

module _ (sysfs : SysfsIo) (L : IsLawful sysfs) where
  boost_path-there :
      (s : sysfs.State)
      → sysfs.exists amd_pstate_boost_path s ≡ true
      → boost_path sysfs s ≡ amd_pstate_boost_path
  unfolding boost_path
  boost_path-there s there = rw there

  boost_path-absent :
      (s : sysfs.State)
      → sysfs.exists amd_pstate_boost_path s ≡ false
      → boost_path sysfs s ≡ generic_cpufreq_boost_path
  unfolding boost_path
  boost_path-absent s absent = rw absent

  -- The knob that was chosen before a write is chosen after it.
  boost_path-write :
      (v : String) (s : sysfs.State)
      → (sysfs.write (boost_path sysfs s) v s).0 ≡ ok tt
      → boost_path sysfs (sysfs.write (boost_path sysfs s) v s).1 ≡ boost_path sysfs s
  boost_path-write v s done = elim (Bool-cases (sysfs.exists amd_pstate_boost_path s)) [
    | inl there ↦
        let chosen = boost_path-there s there in
        boost_path-there _ (
          rw chosen (
            L.exists-write amd_pstate_boost_path v s amd_pstate_boost_path-IsPlain
              (rw chosen at done)))
        ∙ sym chosen
    | inr absent ↦
        let chosen = boost_path-absent s absent in
        boost_path-absent _ (
          rw chosen (
            L.exists-write_ne generic_cpufreq_boost_path amd_pstate_boost_path v s
              generic_cpufreq_boost_path-IsPlain amd_pstate_boost_path-IsPlain boost_paths_differ
            ∙ absent))
        ∙ sym chosen
  ]

  pub boost_path-IsPlain : (s : sysfs.State) → IsPlain (boost_path sysfs s)
  unfolding boost_path
  boost_path-IsPlain s = elim (Bool-cases (sysfs.exists amd_pstate_boost_path s)) [
    | inl there ↦ rw there amd_pstate_boost_path-IsPlain
    | inr absent ↦ rw absent generic_cpufreq_boost_path-IsPlain
  ]

  write_turbo-ok :
      (path : FilePath) (v : String) (h : Host sysfs)
      → (write_turbo sysfs path v h).0 ≡ ok tt
      → ((sysfs.write path v h.files).0 ≡ ok tt)
        × ((write_turbo sysfs path v h).1.files ≡ (sysfs.write path v h.files).1)
  unfolding write_turbo
  write_turbo-ok path v h good = elim (Result-cases (sysfs.write path v h.files).0) [
    | inl (_, done) ↦ (done, ground arith)
    | inr (e, failed) ↦ absurd (ground arith)
  ]

  turbo_of-allowed :
      (vendor : Vendor) (enabled : Bool) (h : Host sysfs)
      → (turbo_of sysfs vendor enabled h).0 ≡ ok tt
      → turbo_allowed sysfs vendor (turbo_of sysfs vendor enabled h).1.files ≡ some enabled
  unfolding turbo_of turbo_allowed
  turbo_of-allowed intel enabled h good =
      let (done, moved) = write_turbo-ok intel_no_turbo_path (no_turbo_value enabled) h good in
      rw
        (
          moved,
          L.read-write intel_no_turbo_path (no_turbo_value enabled) h.files
              intel_no_turbo_path-IsPlain done,
        )
        (bit_of-no_turbo enabled)
  turbo_of-allowed amd enabled h good =
      let (done, moved) = write_turbo-ok (boost_path sysfs h.files) (boost_value enabled) h good in
      rw
        (
          moved,
          boost_path-write (boost_value enabled) h.files done,
          L.read-write (boost_path sysfs h.files) (boost_value enabled) h.files
              (boost_path-IsPlain h.files) done,
        )
        (bit_of-boost enabled)
  turbo_of-allowed unknown enabled h good = cc

  -- After a `set_turbo` that succeeds, the vendor's knob says that turbo is allowed exactly if it
  -- was to be enabled: Intel's inverted sign and AMD's choice of a file do not show.
  pub set_turbo-allowed :
      (b : EppBackend) (enabled : Bool) (h : Host sysfs)
      → (set_turbo sysfs b enabled h).0 ≡ ok tt
      → turbo_allowed sysfs b.vendor (set_turbo sysfs b enabled h).1.files ≡ some enabled
  unfolding set_turbo
  set_turbo-allowed b enabled h good = turbo_of-allowed b.vendor enabled h good

  turbo_of-unsupported :
      (vendor : Vendor) (enabled : Bool) (h : Host sysfs)
      → (turbo_of sysfs vendor enabled h).0 ≡ err turbo_unsupported
      → vendor ≡ unknown
  unfolding turbo_of write_turbo
  turbo_of-unsupported intel enabled h bad =
      elim (Result-cases (sysfs.write intel_no_turbo_path (no_turbo_value enabled) h.files).0) [
        | inl (_, done) ↦ absurd (ground arith)
        | inr (e, failed) ↦ absurd (ground arith)
      ]
  turbo_of-unsupported amd enabled h bad =
      elim (Result-cases (sysfs.write (boost_path sysfs h.files) (boost_value enabled) h.files).0) [
        | inl (_, done) ↦ absurd (ground arith)
        | inr (e, failed) ↦ absurd (ground arith)
      ]
  turbo_of-unsupported unknown enabled h bad = refl

  -- Only a backend without a vendor answers that turbo is unsupported.
  pub set_turbo-unsupported :
      (b : EppBackend) (enabled : Bool) (h : Host sysfs)
      → (set_turbo sysfs b enabled h).0 ≡ err turbo_unsupported
      → b.vendor ≡ unknown
  unfolding set_turbo
  set_turbo-unsupported b enabled h bad = turbo_of-unsupported b.vendor enabled h bad
