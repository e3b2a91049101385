-- ===== src/Agent/Reconcile/Labels.antt =====
-- Lemmas on the two labels that crates/power-agent/src/reconcile.rs parses.
use k8s_power_management.Base.{
  String, ◌≡◌, ◌≢◌, ◌↔◌, ◌⊎◌, inl, inr, refl, sym, ◌∙◌, ap, Bool, true, false, Option, none, some,
  Result, ok, err, arith, str_eq-cases, eq_iff, Result-cases,
}
use k8s_power_management.Error.{PowerError}
use k8s_power_management.Profile.{PowerProfile, default, as_kernel_str, from_str}
use k8s_power_management.Profile.Laws.{from_str-eq-ok, from_str-as_kernel_str}
use k8s_power_management.Agent.Reconcile.{
  parse_profile_label, profile_or_default, parse_turbo_label,
}

-- The profile that a label asks for: the one that it spells, and `default` where there is no label.
abbrev pub AsksProfile : Option String → PowerProfile → Type 0
AsksProfile none p = p ≡ default
AsksProfile (some s) p = s ≡ as_kernel_str p

-- The label asks for no profile that there is.
abbrev pub SpellsNoProfile : Option String → Type 0
SpellsNoProfile none = ⊥
SpellsNoProfile (some s) = (p : PowerProfile) → s ≢ as_kernel_str p

-- A label is read as the profile that it asks for. One that spells no profile gives `default` and
-- is reported with its text.
pub parse_profile_label_lem :
    (label : Option String)
    → ((p : PowerProfile) → AsksProfile label p ↔ (parse_profile_label label ≡ (p, none)))
      × (SpellsNoProfile label → parse_profile_label label ≡ (default, label))
unfolding parse_profile_label
parse_profile_label_lem none =
    (λ p. (λ e. ap (λ q. (q, none)) (sym e), λ e. ap (λ r. r.0) (sym e)), λ h. absurd h)
parse_profile_label_lem (some s) = elim (Result-cases (from_str s)) [
  | inl (q, found) ↦ (
    λ p. (
      λ e.
          rw found
            (ap (λ x. (x, none)) (same_profile found (ap from_str e ∙ from_str-as_kernel_str p))),
      λ e.
          from_str-eq-ok s q found
          ∙ ap as_kernel_str (ap (λ r. r.0) (sym (ap (profile_or_default s) found) ∙ e)),
    ),
    λ h. absurd (h q (from_str-eq-ok s q found)),
  )
  | inr (x, bad) ↦ (
    λ p. (
      λ e. absurd (ok_is_no_error (sym (from_str-as_kernel_str p) ∙ ap from_str (sym e) ∙ bad)),
      λ e. absurd (none_is_no_text (ap (λ r. r.1) (sym (ap (profile_or_default s) bad) ∙ e))),
    ),
    λ h. rw bad,
  )
]
  where
    same_profile : {q p : PowerProfile} → from_str s ≡ ok q → from_str s ≡ ok p → q ≡ p
    same_profile a b = cc

    ok_is_no_error :
        {p : PowerProfile} {e : PowerError}
        → ◌≡◌ {A = Result PowerProfile PowerError} (ok p) (err e)
        → ⊥
    ok_is_no_error e = cc

    none_is_no_text : {t : String} → ◌≡◌ {A = Option String} (some t) none → ⊥
    none_is_no_text e = cc

-- The turbo state that a label asks for; nothing where there is no label.
abbrev pub AsksTurbo : Option String → Option Bool → Type 0
AsksTurbo none t = t ≡ none
AsksTurbo (some s) none = ⊥
AsksTurbo (some s) (some true) = s ≡ "enabled"
AsksTurbo (some s) (some false) = s ≡ "disabled"

abbrev pub SpellsNoTurbo : Option String → Type 0
SpellsNoTurbo none = ⊥
SpellsNoTurbo (some s) = (s ≢ "enabled") × (s ≢ "disabled")

known_turbo :
    (s : String) (b : Bool)
    → AsksTurbo (some s) (some b)
    → parse_turbo_label (some s) ≡ (some b, none)
unfolding parse_turbo_label
known_turbo s true e = rw e
known_turbo s false e = rw e

-- A label is read as the turbo state that it asks for, and nothing is reported; any other label
-- asks for no change and is reported with its text.
pub parse_turbo_label_lem :
    (label : Option String)
    → ((t : Option Bool) → AsksTurbo label t → parse_turbo_label label ≡ (t, none))
      × (SpellsNoTurbo label → parse_turbo_label label ≡ (none, label))
unfolding parse_turbo_label
parse_turbo_label_lem none = (λ t e. ap (λ q. (q, none)) (sym e), λ h. absurd h)
parse_turbo_label_lem (some s) = (
  elim [ none ↦ λ h. absurd h | some b ↦ known_turbo s b ],
  λ h. ground (arith, eq_iff s "enabled", eq_iff s "disabled"),
)

-- Each label asks for something or spells nothing that there is.
pub profile_label-cases :
    (label : Option String) → ((p : PowerProfile) × AsksProfile label p) ⊎ SpellsNoProfile label
profile_label-cases none = inl (default, refl)
profile_label-cases (some s) = elim (Result-cases (from_str s)) [
  | inl (p, found) ↦ inl (p, from_str-eq-ok s p found)
  | inr (e, bad) ↦
      inr (λ p same. clash (sym (from_str-as_kernel_str p) ∙ ap from_str (sym same) ∙ bad))
]
  where
    clash :
        {p : PowerProfile} {e : PowerError}
        → ◌≡◌ {A = Result PowerProfile PowerError} (ok p) (err e)
        → ⊥
    clash e = cc

pub turbo_label-cases :
    (label : Option String) → ((t : Option Bool) × AsksTurbo label t) ⊎ SpellsNoTurbo label
turbo_label-cases none = inl (none, refl)
turbo_label-cases (some s) = elim (str_eq-cases s "enabled") [
  | inl (_, e) ↦ inl (some true, e)
  | inr (_, n) ↦ elim (str_eq-cases s "disabled") [
    | inl (_, e) ↦ inl (some false, e)
    | inr (_, m) ↦ inr (n, m)
  ]
]

-- A label is reported as invalid exactly when it spells nothing that there is.
pub profile_invalid_iff :
    (label : Option String) → ((parse_profile_label label).1 ≡ none) ↔ (¬ SpellsNoProfile label)
profile_invalid_iff label = elim (profile_label-cases label) [
  | inl (p, asks) ↦ (
    λ _ odd. not_both label p asks odd,
    λ _. ap (λ r. r.1) (((parse_profile_label_lem label).0 p).0 asks),
  )
  | inr odd ↦ (
    λ e _. not_none label odd (ap (λ r. r.1) (sym ((parse_profile_label_lem label).1 odd)) ∙ e),
    λ h. absurd (h odd),
  )
]
  where
    not_both : (l : Option String) (p : PowerProfile) → AsksProfile l p → SpellsNoProfile l → ⊥
    not_both none p a n = n
    not_both (some s) p a n = n p a

    not_none : (l : Option String) → SpellsNoProfile l → l ≡ none → ⊥
    not_none none n e = n
    not_none (some s) n e = cc

pub turbo_invalid_iff :
    (label : Option String) → ((parse_turbo_label label).1 ≡ none) ↔ (¬ SpellsNoTurbo label)
turbo_invalid_iff label = elim (turbo_label-cases label) [
  | inl (t, asks) ↦ (
    λ _ odd. not_both label t asks odd,
    λ _. ap (λ r. r.1) ((parse_turbo_label_lem label).0 t asks),
  )
  | inr odd ↦ (
    λ e _. not_none label odd (ap (λ r. r.1) (sym ((parse_turbo_label_lem label).1 odd)) ∙ e),
    λ h. absurd (h odd),
  )
]
  where
    not_both : (l : Option String) (t : Option Bool) → AsksTurbo l t → SpellsNoTurbo l → ⊥
    not_both none t a n = n
    not_both (some s) none a n = a
    not_both (some s) (some true) a n = n.0 a
    not_both (some s) (some false) a n = n.1 a

    not_none : (l : Option String) → SpellsNoTurbo l → l ≡ none → ⊥
    not_none none n e = n
    not_none (some s) n e = cc
