-- ===== src/Agent/Reconcile/Delivery.antt =====
-- Lemmas on `reconcile_once` of crates/power-agent/src/reconcile.rs over the real backends.
use k8s_power_management.Base.{
  String, ◌≡◌, ◌≢◌, inl, inr, All, All-zip, Bool, some, ok, refl, sym, ◌∙◌, ap, subst, Option, none,
}
use k8s_power_management.Error.{Format}
use k8s_power_management.Profile.{PowerProfile, as_kernel_str}
use k8s_power_management.Sysfs.{SysfsIo, IsLawful}
use k8s_power_management.Backend.Interface.{Host, unsupported, unknown}
use k8s_power_management.Topology.Discovery.{HaveOwnPaths}
use k8s_power_management.Backend.Epp.{EppBackend, epp_path, epp_backend}
use k8s_power_management.Backend.Epp.Laws as EppLaws
use k8s_power_management.Backend.Epp.Laws.{epp_path-AreTargets}
use k8s_power_management.Backend.Epp.Turbo.{turbo_allowed, set_turbo-allowed, set_turbo-unsupported}
use k8s_power_management.Backend.Epp.Kept.{set_turbo-keeps_profiles}
use k8s_power_management.Backend.Detect.{detect_backend, methods}
use k8s_power_management.Backend.Detect.Laws.{Enforced, detect-apply-Enforced}
use k8s_power_management.Agent.Reconcile.{result_label, reconcile_once, parse_profile_label}
use k8s_power_management.Agent.Reconcile.Labels.{AsksProfile, AsksTurbo, parse_profile_label_lem}
use k8s_power_management.Agent.Reconcile.Laws.{
  IsFine, result_label-ok_iff, reconcile_once-calls, reconcile_once_fallbacks,
}

module _ (sysfs : SysfsIo) (L : IsLawful sysfs) where
  -- A reconcile, on the detected backend, of a node that asks for a profile and has no turbo label:
  -- when its status is `ok`, the backend is not the unsupported one, and every policy of the backend has
  -- in its file the profile that was asked for, or the governor that stands for it.
  pub reconcile_once-delivers :
      (f : Format) (profile_label : Option String) (p : PowerProfile) (s : sysfs.State)
      (h : Host sysfs)
      → AsksProfile profile_label p
      → let b = detect_backend sysfs s in
        let r = reconcile_once f (methods sysfs b) profile_label none h in
        result_label r.0 ≡ "ok"
        → ((methods sysfs b).kind ≢ unsupported) × Enforced sysfs b p r.1.files
  unfolding reconcile_once
  reconcile_once-delivers f label p s h asks good =
      let b = detect_backend sysfs s in
      let (_, _, applied, _, supported) =
        (result_label-ok_iff f (methods sysfs b) h label none).0 good in
      let quiet = reconcile_once_fallbacks f (methods sysfs b) h label none (inl refl) in
      let same : (parse_profile_label label).0 ≡ p =
        ap (λ x. x.0) (((parse_profile_label_lem label).0 p).0 asks) in
      (
        supported,
        subst (λ x. Enforced sysfs b p x.files)
            (sym (quiet.0 ∙ ap (λ q. ((methods sysfs b).apply q h).1) same))
            (detect-apply-Enforced sysfs L s p h
              (ap (λ q. ((methods sysfs b).apply q h).0) (sym same) ∙ applied)),
      )

  -- A reconcile, on an EPP backend whose policies have paths of their own, of a node that asks for a
  -- profile and a turbo state: when its status is `ok`, every preference file holds that profile, and
  -- the knob of a known vendor says that turbo is allowed exactly if it was to be enabled.
  pub reconcile_once-delivers_both :
      (f : Format) (b : EppBackend) (profile_label turbo_label : Option String) (p : PowerProfile)
      (enabled : Bool) (h : Host sysfs)
      → HaveOwnPaths b.policies
      → AsksProfile profile_label p
      → AsksTurbo turbo_label (some enabled)
      → let r = reconcile_once f (epp_backend sysfs b) profile_label turbo_label h in
        result_label r.0 ≡ "ok"
        → All (λ q. sysfs.read_to_string (epp_path q) r.1.files ≡ ok (as_kernel_str p)) b.policies
          × (b.vendor ≢ unknown → turbo_allowed sysfs b.vendor r.1.files ≡ some enabled)
  reconcile_once-delivers_both f b pl tl p enabled h own asks asks_turbo good =
      let backend = epp_backend sysfs b in
      let (_, _, applied, turbo, _) = (result_label-ok_iff f backend h pl tl).0 good in
      let (moved, profile, state) =
        reconcile_once-calls f backend h pl tl p enabled asks asks_turbo in
      let applied_p : (backend.apply p h).0 ≡ ok tt =
        ap (λ q. (backend.apply q h).0) (sym profile) ∙ applied in
      let h' : Host sysfs = (backend.apply p h).1 in
      let fine : IsFine (backend.set_turbo enabled h').0 =
        subst (λ q. IsFine (backend.set_turbo enabled (backend.apply q h).1).0) profile
          (turbo enabled state) in
      let files : All (λ q. sysfs.read_to_string (epp_path q) h'.files ≡ ok (as_kernel_str p))
          b.policies =
        (EppLaws.apply-current sysfs L b own p h applied_p).0 in
      (
        All-zip _ _ _
            (λ q plain held.
              ap (λ x. sysfs.read_to_string (epp_path q) x.files) moved
              ∙ set_turbo-keeps_profiles sysfs L b enabled h' q plain
              ∙ held)
            b.policies (epp_path-AreTargets b.policies own).0 files,
        λ known. ap (λ x. turbo_allowed sysfs b.vendor x.files) moved ∙ elim fine [
          | inl done ↦ set_turbo-allowed sysfs L b enabled h' done
          | inr no_knob ↦ absurd (known (set_turbo-unsupported sysfs L b enabled h' no_knob))
        ],
      )
