-- ===== src/Backend/Detect/Laws.antt =====
-- Lemmas on `detect_backend` and `infer_vendor` of crates/cpu-power-hal/src/backend/mod.rs, and on
-- the backends through the trait.
use k8s_power_management.Base.{
  String, ◌≡◌, ◌≢◌, ◌↔◌, ◌⊎◌, inl, inr, refl, ◌∙◌, ap, Bool, true, false, none, List, [], ◌∷◌, ok,
  All, In, arith, Bool-cases, Result-cases, if◌then◌else◌, is_empty,
}
use k8s_power_management.Text.{codes, to_ascii_lowercase}
use k8s_power_management.Text.Words.{Infix, contains_iff}
use k8s_power_management.Profile.{PowerProfile, as_kernel_str}
use k8s_power_management.Topology.{CpuPolicy, discover_policies}
use k8s_power_management.Topology.Discovery.{HaveOwnPaths, discover_policies-HaveOwnPaths}
use k8s_power_management.Sysfs.{SysfsIo, IsLawful}
use k8s_power_management.Backend.Interface.{Host, unsupported, intel, amd, unknown}
use k8s_power_management.Backend.Epp
use k8s_power_management.Backend.Epp.{EppBackend}
use k8s_power_management.Backend.Unsupported
use k8s_power_management.Backend.Epp.Laws as EppLaws
use k8s_power_management.Backend.Governor
use k8s_power_management.Backend.Governor.Laws as GovernorLaws
use k8s_power_management.Backend.Detect.{
  Backend, epp, governor, no_backend, infer_vendor, choose, detect_backend, methods,
}

false_is_not_true : ◌≡◌ {A = Bool} false true → ⊥
false_is_not_true e = cc

vendor_of :
    {P Q : Type 0} (a b : Bool)
    → (a ≡ true) ↔ P
    → (b ≡ true) ↔ Q
    → let v = if a then intel else if b then amd else unknown in
      ((v ≡ intel) ↔ P) × ((v ≡ amd) ↔ ((¬ P) × Q)) × ((v ≡ unknown) ↔ ((¬ P) × (¬ Q)))
vendor_of true b p q = (
  (λ _. p.0 refl, λ _. refl),
  (λ e. absurd (cc), λ (n, _). absurd (n (p.0 refl))),
  (λ e. absurd (cc), λ (n, _). absurd (n (p.0 refl))),
)
vendor_of false true p q = (
  (λ e. absurd (cc), λ h. absurd (false_is_not_true (p.1 h))),
  (λ _. (λ h. false_is_not_true (p.1 h), q.0 refl), λ _. refl),
  (λ e. absurd (cc), λ (_, n). absurd (n (q.0 refl))),
)
vendor_of false false p q = (
  (λ e. absurd (cc), λ h. absurd (false_is_not_true (p.1 h))),
  (λ e. absurd (cc), λ (_, h). absurd (false_is_not_true (q.1 h))),
  (λ _. (λ h. false_is_not_true (p.1 h), λ h. false_is_not_true (q.1 h)), λ _. refl),
)

-- A driver is taken for Intel's if its name holds `intel` in any case, for AMD's if it holds `amd`
-- and not `intel`, and is unknown if it holds neither.
pub infer_vendor_iff :
    (driver : String)
    → let lower = to_ascii_lowercase driver in
      ((infer_vendor driver ≡ intel) ↔ Infix (codes "intel") lower)
      × ((infer_vendor driver ≡ amd)
          ↔ ((¬ Infix (codes "intel") lower) × Infix (codes "amd") lower))
      × ((infer_vendor driver ≡ unknown)
          ↔ ((¬ Infix (codes "intel") lower) × (¬ Infix (codes "amd") lower)))
unfolding infer_vendor
infer_vendor_iff driver =
    vendor_of _ _ (contains_iff (to_ascii_lowercase driver) (codes "intel"))
      (contains_iff (to_ascii_lowercase driver) (codes "amd"))

-- The policies that `detect_backend` works with.
abbrev policies_of : Backend → List CpuPolicy
policies_of (epp b) = b.policies
policies_of (governor b) = b.policies
policies_of no_backend = []

-- Every policy has what the backend has to write for the profile.
abbrev pub Enforced : (sysfs : SysfsIo) → Backend → PowerProfile → sysfs.State → Type 0
Enforced sysfs (epp b) profile s =
    All (λ p. sysfs.read_to_string (Epp.epp_path p) s ≡ ok (as_kernel_str profile)) b.policies
Enforced sysfs (governor b) profile s =
    All
      (λ p.
        let name = Governor.map_governor profile p.available_governors in
        (sysfs.read_to_string (Governor.governor_path p) s ≡ ok name)
        × In name p.available_governors)
      b.policies
Enforced sysfs no_backend profile s = Unit

choose-HaveOwnPaths :
    (ps : List CpuPolicy) → HaveOwnPaths ps → HaveOwnPaths (policies_of (choose ps))
unfolding choose
choose-HaveOwnPaths [] h = h
choose-HaveOwnPaths (first ∷ rest) h = elim (Bool-cases first.has_epp) [
  | inl yes_epp ↦ rw yes_epp h
  | inr no_epp ↦ elim (Bool-cases (is_empty first.available_governors)) [
    | inl nothing ↦ rw (no_epp, nothing) (tt, tt)
    | inr something ↦ rw (no_epp, something) h
  ]
]

is_empty→nil : (l : List String) → is_empty l ≡ true → l ≡ []
is_empty→nil [] e = refl
is_empty→nil (x ∷ l) e = cc

kind-ne-unsupported : (b : EppBackend) → Epp.kind b ≢ unsupported
unfolding Epp.kind
kind-ne-unsupported b = ground arith

module _ (sysfs : SysfsIo) where
  choose-epp :
      (first : CpuPolicy) (rest : List CpuPolicy)
      → first.has_epp ≡ true
      → (methods sysfs (choose (first ∷ rest))).kind ≢ unsupported
  unfolding choose
  choose-epp first rest present = rw (present, choose) (kind-ne-unsupported _)

  choose-governor :
      (first : CpuPolicy) (rest : List CpuPolicy)
      → first.has_epp ≡ false
      → is_empty first.available_governors ≡ false
      → (methods sysfs (choose (first ∷ rest))).kind ≢ unsupported
  unfolding choose
  choose-governor first rest missing something = rw (missing, something, choose) (λ k. cc)

  choose-none :
      (first : CpuPolicy) (rest : List CpuPolicy)
      → first.has_epp ≡ false
      → is_empty first.available_governors ≡ true
      → (methods sysfs (choose (first ∷ rest))).kind ≡ unsupported
  unfolding choose
  choose-none first rest missing nothing = rw (missing, nothing, choose)

  -- The backend is the unsupported one exactly when there is no policy, or the first policy has
  -- neither a preference file nor a governor.
  pub kind-eq-unsupported_iff :
      (ps : List CpuPolicy)
      → ((methods sysfs (choose ps)).kind ≡ unsupported) ↔ (
          (ps ≡ [])
          ⊎ ((first : CpuPolicy) × (rest : List CpuPolicy) × (ps ≡ first ∷ rest)
              × (first.has_epp ≡ false)
              × (first.available_governors ≡ [])))
  unfolding choose
  kind-eq-unsupported_iff [] = (λ _. inl refl, λ _. refl)
  kind-eq-unsupported_iff (first ∷ rest) = (
    λ k. elim (Bool-cases first.has_epp) [
      | inl present ↦ absurd (choose-epp first rest present k)
      | inr missing ↦ elim (Bool-cases (is_empty first.available_governors)) [
        | inr something ↦ absurd (choose-governor first rest missing something k)
        | inl nothing ↦
            inr (first, rest, refl, missing, is_empty→nil first.available_governors nothing)
      ]
    ],
    elim [
      | inl e ↦ absurd (cc)
      | inr found ↦
          let (f, r, e, missing, nothing) = found in
          let same : first ≡ f = cc in
          choose-none first rest (ap (λ p. p.has_epp) same ∙ missing)
            (ap (λ p. is_empty p.available_governors) same ∙ ap is_empty nothing)
    ],
  )

  -- A backend that reports itself unsupported answers every call with success and changes nothing.
  pub unsupported_is_no_op :
      (b : Backend)
      → (methods sysfs b).kind ≡ unsupported
      → (h : Host sysfs)
      → ((profile : PowerProfile) → (methods sysfs b).apply profile h ≡ (ok tt, h))
        × ((enabled : Bool) → (methods sysfs b).set_turbo enabled h ≡ (ok tt, h))
        × ((methods sysfs b).current h ≡ (ok none, h))
        × ((methods sysfs b).is_supported ≡ false)
  unfolding Epp.kind Unsupported.apply Unsupported.set_turbo Unsupported.current
  unsupported_is_no_op (epp b) k h = absurd (kind-ne-unsupported b k)
  unsupported_is_no_op (governor b) k h = absurd (cc)
  unsupported_is_no_op no_backend k h = (λ _. refl, λ _. refl, refl, refl)

module _ (sysfs : SysfsIo) (L : IsLawful sysfs) where
  detect_backend-HaveOwnPaths :
      (s : sysfs.State) → HaveOwnPaths (policies_of (detect_backend sysfs s))
  unfolding detect_backend
  detect_backend-HaveOwnPaths s = elim (Result-cases (discover_policies sysfs s)) [
    | inl (ps, found) ↦
        choose-HaveOwnPaths _ (rw found (discover_policies-HaveOwnPaths sysfs L s ps found))
    | inr (e, failed) ↦ choose-HaveOwnPaths _ (rw failed (tt, tt))
  ]

  apply-Enforced_of :
      (b : Backend)
      → HaveOwnPaths (policies_of b)
      → (profile : PowerProfile) (h : Host sysfs) → ((methods sysfs b).apply profile h).0 ≡ ok tt
      → Enforced sysfs b profile ((methods sysfs b).apply profile h).1.files
  apply-Enforced_of (epp b) own profile h good =
      (EppLaws.apply-current sysfs L b own profile h good).0
  apply-Enforced_of (governor b) own profile h good =
      GovernorLaws.apply-Holds sysfs L b own profile h good
  apply-Enforced_of no_backend own profile h good = tt

  -- Whatever backend is detected: an `apply` that succeeds has put the profile, or the governor that
  -- stands for it and that the policy offers, into the file of every policy of the backend.
  pub detect-apply-Enforced :
      (s : sysfs.State) (profile : PowerProfile) (h : Host sysfs)
      → let b = detect_backend sysfs s in
        ((methods sysfs b).apply profile h).0 ≡ ok tt
        → Enforced sysfs b profile ((methods sysfs b).apply profile h).1.files
  detect-apply-Enforced s profile h good =
      apply-Enforced_of (detect_backend sysfs s) (detect_backend-HaveOwnPaths s) profile h good
