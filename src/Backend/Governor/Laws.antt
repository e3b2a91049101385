-- ===== src/Backend/Governor/Laws.antt =====
-- Lemmas on `GovernorFallbackBackend` of crates/cpu-power-hal/src/backend/governor.rs: its
-- governors and what `apply` writes.

use k8s_power_management.Base.{
  String, ◌≡◌, ◌≢◌, ◌↔◌, ◌⊎◌, inl, inr, refl, sym, ◌∙◌, ap, subst, Bool, true, false, List, ok, All,
  All-map, In, arith, eq_iff, Bool-cases,
}
use k8s_power_management.Text.{trim_newlines}
use k8s_power_management.Text.Words.{any-str_eq}
use k8s_power_management.Profile.{
  PowerProfile, default, performance, balance_performance, balance_power, power,
}
use k8s_power_management.Topology.{CpuPolicy}
use k8s_power_management.Topology.Discovery.{HaveOwnPaths, child-own_paths}
use k8s_power_management.Sysfs.{SysfsIo, IsLawful}
use k8s_power_management.Backend.Interface.{Host}
use k8s_power_management.Backend.Writes.Laws.{AreTargets, write_each-Holds}
use k8s_power_management.Backend.Governor.{
  GovernorFallbackBackend, governor_path, has, middle_governor, map_governor, collapses,
  governor_value, apply, note_collapse,
}

has-In : (l : List String) (name : String) → (has l name ≡ true) ↔ In name l
has-In l name = any-str_eq name l

differ_texts :
    (◌≢◌ {A = String} "performance" "powersave")
    × (◌≢◌ {A = String} "performance" "schedutil")
    × (◌≢◌ {A = String} "performance" "ondemand")
    × (◌≢◌ {A = String} "schedutil" "powersave")
    × (◌≢◌ {A = String} "ondemand" "powersave")
differ_texts = (
  ground (arith, eq_iff "performance" "powersave"),
  ground (arith, eq_iff "performance" "schedutil"),
  ground (arith, eq_iff "performance" "ondemand"),
  ground (arith, eq_iff "schedutil" "powersave"),
  ground (arith, eq_iff "ondemand" "powersave"),
)

map_governor-collapses :
    (p : PowerProfile) (l : List String) → collapses p ≡ true → map_governor p l ≡ middle_governor l
unfolding collapses map_governor
map_governor-collapses default l c = refl
map_governor-collapses balance_performance l c = refl
map_governor-collapses balance_power l c = refl
map_governor-collapses performance l c = cc
map_governor-collapses power l c = cc

-- A profile between the two ends.
abbrev pub IsMiddle : PowerProfile → Type 0
IsMiddle p = (p ≢ performance) × (p ≢ power)

-- The test of `apply` for the warning finds exactly these.
pub collapses-IsMiddle_iff : (p : PowerProfile) → (collapses p ≡ true) ↔ IsMiddle p
unfolding collapses
collapses-IsMiddle_iff default = (λ _. (λ e. cc, λ e. cc), λ _. refl)
collapses-IsMiddle_iff balance_performance = (λ _. (λ e. cc, λ e. cc), λ _. refl)
collapses-IsMiddle_iff balance_power = (λ _. (λ e. cc, λ e. cc), λ _. refl)
collapses-IsMiddle_iff performance = (λ e. absurd (cc), λ m. absurd (m.0 refl))
collapses-IsMiddle_iff power = (λ e. absurd (cc), λ m. absurd (m.1 refl))

-- The governor of the profiles that collapse, by what the policy offers.
middle_governor-cases :
    (l : List String)
    → (In "schedutil" l × (middle_governor l ≡ "schedutil"))
      ⊎ (In "ondemand" l × (middle_governor l ≡ "ondemand"))
      ⊎ ((¬ In "schedutil" l) × (¬ In "ondemand" l) × (middle_governor l ≡ "powersave"))
unfolding middle_governor
middle_governor-cases l = elim (Bool-cases (has l "schedutil")) [
  | inl first ↦ inl ((has-In l "schedutil").0 first, rw first)
  | inr no_first ↦ elim (Bool-cases (has l "ondemand")) [
    | inl second ↦ inr (inl ((has-In l "ondemand").0 second, rw (no_first, second)))
    | inr no_second ↦ inr (
        inr (
          λ m. true_and_false ((has-In l "schedutil").1 m) no_first,
          λ m. true_and_false ((has-In l "ondemand").1 m) no_second,
          rw (no_first, no_second),
        ))
  ]
]
  where
    true_and_false : {b : Bool} → b ≡ true → b ≡ false → ⊥
    true_and_false t f = cc

middle_governor-ne-performance : (l : List String) → middle_governor l ≢ "performance"
middle_governor-ne-performance l e = elim (middle_governor-cases l) [
  | inl (m, s) ↦ differ_texts.1 (sym e ∙ s)
  | inr (inl (m, s)) ↦ differ_texts.2 (sym e ∙ s)
  | inr (inr (m, n, s)) ↦ differ_texts.0 (sym e ∙ s)
]

middle_governor-eq-powersave :
    (l : List String)
    → (middle_governor l ≡ "powersave") ↔ ((¬ In "schedutil" l) × (¬ In "ondemand" l))
middle_governor-eq-powersave l = elim (middle_governor-cases l) [
  | inl (m, s) ↦ (λ e. absurd (differ_texts.3 (sym s ∙ e)), λ (no_first, _). absurd (no_first m))
  | inr (inl (m, s)) ↦
      (λ e. absurd (differ_texts.4 (sym s ∙ e)), λ (_, no_second). absurd (no_second m))
  | inr (inr (m, n, s)) ↦ (λ e. (m, n), λ _. s)
]

only_performance :
    (p : PowerProfile) (l : List String)
    → map_governor p l ≡ map_governor performance l
    → p ≡ performance
unfolding map_governor
only_performance performance l e = refl
only_performance power l e = absurd (differ_texts.0 (sym e))
only_performance default l e = absurd (middle_governor-ne-performance l e)
only_performance balance_performance l e = absurd (middle_governor-ne-performance l e)
only_performance balance_power l e = absurd (middle_governor-ne-performance l e)

-- The three profiles between `performance` and `power` get one governor. `performance` shares its
-- governor with no other profile, and `power` shares its own with those three exactly where the policy
-- offers neither `schedutil` nor `ondemand`.
pub map_governor_classes :
    (l : List String)
    → ((p q : PowerProfile) → IsMiddle p → IsMiddle q → map_governor p l ≡ map_governor q l)
      × ((p : PowerProfile) → map_governor p l ≡ map_governor performance l → p ≡ performance)
      × ((p : PowerProfile)
          → IsMiddle p
          → (map_governor p l ≡ map_governor power l)
            ↔ ((¬ In "schedutil" l) × (¬ In "ondemand" l)))
unfolding map_governor
map_governor_classes l =
    let middle : (p : PowerProfile) → IsMiddle p → map_governor p l ≡ middle_governor l =
      λ p m. map_governor-collapses p l ((collapses-IsMiddle_iff p).1 m) in
    (
      λ p q c d. middle p c ∙ sym (middle q d),
      λ p e. only_performance p l e,
      λ p c. (
        λ e. (middle_governor-eq-powersave l).0 (sym (middle p c) ∙ e),
        λ h. middle p c ∙ (middle_governor-eq-powersave l).1 h,
      ),
    )

trim_middle : (l : List String) → trim_newlines (middle_governor l) ≡ middle_governor l
unfolding trim_newlines
trim_middle l = elim (middle_governor-cases l) [
  | inl (m, s) ↦ rw s
  | inr (inl (m, s)) ↦ rw s
  | inr (inr (m, n, s)) ↦ rw s
]

trim_newlines-map_governor :
    (p : PowerProfile) (l : List String) → trim_newlines (map_governor p l) ≡ map_governor p l
unfolding map_governor trim_newlines
trim_newlines-map_governor performance l = refl
trim_newlines-map_governor power l = refl
trim_newlines-map_governor default l = trim_middle l
trim_newlines-map_governor balance_performance l = trim_middle l
trim_newlines-map_governor balance_power l = trim_middle l

governor_value-ok :
    (profile : PowerProfile) (p : CpuPolicy) (v : String)
    → governor_value profile p ≡ ok v
    → (v ≡ map_governor profile p.available_governors) × In v p.available_governors
unfolding governor_value
governor_value-ok profile p v e =
    elim (Bool-cases (has p.available_governors (map_governor profile p.available_governors))) [
      | inl found ↦
          let same : v ≡ map_governor profile p.available_governors = ground arith in
          (same, subst (λ g. In g p.available_governors) (sym same) ((has-In _ _).0 found))
      | inr missing ↦ absurd (ground arith)
    ]

pub governor_path-AreTargets : (ps : List CpuPolicy) → HaveOwnPaths ps → AreTargets governor_path ps
unfolding governor_path
governor_path-AreTargets ps h = child-own_paths "scaling_governor" ps h

module _ (sysfs : SysfsIo) (L : IsLawful sysfs) (b : GovernorFallbackBackend)
    (own : HaveOwnPaths b.policies) (profile : PowerProfile) (h : Host sysfs) where
  -- After an `apply` that succeeds, the governor file of every policy holds the governor of the
  -- profile, and that is one which the policy offers.
  pub apply-Holds :
      (apply sysfs b profile h).0 ≡ ok tt
      → All
          (λ p.
            let governor = map_governor profile p.available_governors in
            (sysfs.read_to_string (governor_path p) (apply sysfs b profile h).1.files ≡ ok governor)
            × In governor p.available_governors)
          b.policies
  unfolding apply
  apply-Holds good =
      All-map _ _
        (λ p (v, e, r).
          let (same, offered) = governor_value-ok profile p v e in
          (
            r
                ∙ ap ok (
                    ap trim_newlines same
                    ∙ trim_newlines-map_governor profile p.available_governors),
            subst (λ g. In g p.available_governors) same offered,
          ))
        b.policies
        (write_each-Holds sysfs L governor_path (governor_value profile) b.policies
          (note_collapse sysfs profile h).files (governor_path-AreTargets b.policies own) good)
