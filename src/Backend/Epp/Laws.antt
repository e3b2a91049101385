-- ===== src/Backend/Epp/Laws.antt =====
-- Lemmas on `EppBackend::apply` and `current` of crates/cpu-power-hal/src/backend/epp.rs, over a
-- lawful `SysfsIo`.
use k8s_power_management.Base.{
  String, ◌≡◌, ◌≢◌, ◌⊎◌, ◌↔◌, inl, inr, refl, ◌∙◌, ap, Bool, true, false, not, some, List, [], ◌∷◌,
  ok, err, All, All-map, In, arith, any, str_eq, is_empty, ◌&&◌, if◌then◌else◌, Bool-cases,
}
use k8s_power_management.Text.{trim_newlines}
use k8s_power_management.Text.Words.{any-str_eq}
use k8s_power_management.FilePath.{FilePath}
use k8s_power_management.FilePath.Laws.{IsPlain}
use k8s_power_management.Error.{PowerError}
use k8s_power_management.Profile.{
  PowerProfile, default, performance, balance_performance, balance_power, power, as_kernel_str,
}
use k8s_power_management.Profile.Laws.{from_str-as_kernel_str}
use k8s_power_management.Topology.{CpuPolicy}
use k8s_power_management.Topology.Discovery.{HaveOwnPaths, child-own_paths}
use k8s_power_management.Sysfs.{SysfsIo, IsLawful}
use k8s_power_management.Backend.Interface.{Host}
use k8s_power_management.Backend.Writes.Laws.{AreTargets, write_each-Holds, read-write_each_ne}
use k8s_power_management.Backend.Writes.Stops.{
  Accepts, write_each_total, write_each-values, StoppedRun, write_each-StoppedRun,
}
use k8s_power_management.Backend.Epp.{
  EppBackend, epp_path, epp_value, apply, current, current_of, reported, parsed,
}

pub trim_newlines-as_kernel_str :
    (profile : PowerProfile) → trim_newlines (as_kernel_str profile) ≡ as_kernel_str profile
unfolding trim_newlines as_kernel_str
trim_newlines-as_kernel_str default = refl
trim_newlines-as_kernel_str performance = refl
trim_newlines-as_kernel_str balance_performance = refl
trim_newlines-as_kernel_str balance_power = refl
trim_newlines-as_kernel_str power = refl

pub epp_path-AreTargets : (ps : List CpuPolicy) → HaveOwnPaths ps → AreTargets epp_path ps
unfolding epp_path
epp_path-AreTargets ps h = child-own_paths "energy_performance_preference" ps h

-- The policy advertises the text, or advertises nothing at all.
abbrev pub Advertises : String → CpuPolicy → Type 0
Advertises value p = (p.available_epp ≡ []) ⊎ In value p.available_epp

checked_iff :
    (value : String) (l : List String) (e : PowerError)
    → ((v : String) × ((if not (is_empty l) && not (any (λ v. str_eq v value) l)
            then err e
            else ok value)
          ≡ ok v))
      ↔ ((l ≡ []) ⊎ In value l)
checked_iff value [] e = (λ _. inl refl, λ _. (value, refl))
checked_iff value (x ∷ l) e = elim (Bool-cases (any (λ v. str_eq v value) (x ∷ l))) [
  | inl found ↦ (λ _. inr ((any-str_eq value (x ∷ l)).0 found), λ _. (value, ground arith))
  | inr missing ↦ (
    λ (v, h). absurd (ground arith),
    elim [
      | inl nil ↦ absurd (ground arith)
      | inr m ↦ absurd (true_and_false ((any-str_eq value (x ∷ l)).1 m) missing)
    ],
  )
]
  where
    true_and_false : {b : Bool} → b ≡ true → b ≡ false → ⊥
    true_and_false t f = cc

epp_value_iff :
    (value : String) (p : CpuPolicy)
    → ((v : String) × (epp_value value p ≡ ok v)) ↔ Advertises value p
unfolding epp_value
epp_value_iff value p = checked_iff value p.available_epp _

epp_value-eq : (value v : String) (p : CpuPolicy) → epp_value value p ≡ ok v → v ≡ value
unfolding epp_value
epp_value-eq value v p e = ground arith

module _ (sysfs : SysfsIo) (b : EppBackend) (profile : PowerProfile) (h : Host sysfs) where
  -- Where every preference file takes what is written to it, `apply` succeeds exactly when each
  -- policy advertises the profile or has no list of values.
  pub apply-ok_iff :
      All (Accepts sysfs epp_path) b.policies
      → ((apply sysfs b profile h).0 ≡ ok tt) ↔ All (Advertises (as_kernel_str profile)) b.policies
  unfolding apply
  apply-ok_iff takes = (
    λ good.
        All-map _ _ (λ p. (epp_value_iff (as_kernel_str profile) p).0) b.policies
          (write_each-values sysfs epp_path _ b.policies h.files good),
    λ all.
        write_each_total sysfs epp_path _ b.policies h.files
          (All-map _ _ (λ p. (epp_value_iff (as_kernel_str profile) p).1) b.policies all) takes,
  )

current_of-first :
    (sysfs : SysfsIo) (profile : PowerProfile) (ps : List CpuPolicy) (h : Host sysfs)
    → ps ≢ []
    → All (λ p. sysfs.read_to_string (epp_path p) h.files ≡ ok (as_kernel_str profile)) ps
    → current_of sysfs ps h ≡ (ok (some profile), h)
unfolding current_of reported parsed
current_of-first sysfs profile [] h ne held = absurd (ne refl)
current_of-first sysfs profile (p ∷ ps) h ne held =
    rw (held.0, reported) (rw (from_str-as_kernel_str profile, parsed))

module _ (sysfs : SysfsIo) (L : IsLawful sysfs) (b : EppBackend) (own : HaveOwnPaths b.policies)
    (profile : PowerProfile) (h : Host sysfs) where
  -- After an `apply` that succeeds, the preference file of every policy reads back as the profile's
  -- kernel string, and `current` reports that profile and changes nothing, if there is a policy.
  pub apply-current :
      (apply sysfs b profile h).0 ≡ ok tt
      → let h' = (apply sysfs b profile h).1 in
        All
          (λ p. sysfs.read_to_string (epp_path p) h'.files ≡ ok (as_kernel_str profile))
          b.policies
        × (b.policies ≢ [] → current sysfs b h' ≡ (ok (some profile), h'))
  unfolding apply current
  apply-current good =
      let held = read_back good in
      (held, λ some_policy. current_of-first sysfs profile b.policies _ some_policy held)
    where
      read_back :
          (apply sysfs b profile h).0 ≡ ok tt
          → All
              (λ p.
                sysfs.read_to_string (epp_path p) (apply sysfs b profile h).1.files
                ≡ ok (as_kernel_str profile))
              b.policies
      read_back good =
          All-map _ _
            (λ p (v, e, r).
              r
              ∙ ap ok
                  (ap trim_newlines (epp_value-eq _ v p e) ∙ trim_newlines-as_kernel_str profile))
            b.policies
            (write_each-Holds sysfs L epp_path (epp_value (as_kernel_str profile)) b.policies
              h.files (epp_path-AreTargets b.policies own) good)

  -- An `apply` that fails stopped at one policy, which refused the profile or whose write failed.
  -- The policies before it have the profile already, and nothing is rolled back; those behind it,
  -- and the refusing one, are as they were.
  pub apply-StoppedRun :
      (e : PowerError)
      → (apply sysfs b profile h).0 ≡ err e
      → StoppedRun sysfs epp_path
          (epp_value (as_kernel_str profile))
          e
          b.policies
          h.files
          (apply sysfs b profile h).1.files
  unfolding apply
  apply-StoppedRun e bad =
      write_each-StoppedRun sysfs L epp_path _ e b.policies h.files
        (epp_path-AreTargets b.policies own) bad

  -- Whatever its result, `apply` leaves every other file, the log and the flag of the host alone.
  apply-others :
      (q : FilePath)
      → IsPlain q
      → All (λ p. epp_path p ≢ q) b.policies
      → let h' = (apply sysfs b profile h).1 in
        (sysfs.read_to_string q h'.files ≡ sysfs.read_to_string q h.files)
        × (h'.log ≡ h.log)
        × (h'.warned_collapse ≡ h.warned_collapse)
  unfolding apply
  apply-others q plain apart = (
    read-write_each_ne sysfs L epp_path (epp_value (as_kernel_str profile)) q b.policies h.files
        plain (epp_path-AreTargets b.policies own).0 apart,
    refl,
    refl,
  )
