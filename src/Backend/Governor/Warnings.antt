-- ===== src/Backend/Governor/Warnings.antt =====
-- Lemmas on the flag `warned_collapse` of crates/cpu-power-hal/src/backend/governor.rs.
use k8s_power_management.Base.{
  ℕ, suc, ◌≡◌, refl, sym, subst, Bool, false, ◌||◌, List, [], ◌∷◌, any, arith, In, inl, inr, ◌↔◌,
  ◌≤◌, ◌∙◌, true, Bool-cases, if◌then◌else◌,
}
use k8s_power_management.Profile.{PowerProfile}
use k8s_power_management.Sysfs.{SysfsIo}
use k8s_power_management.Backend.Interface.{
  Host, Warning, unknown_epp_value, turbo_skipped, governor_collapse,
}
use k8s_power_management.Backend.Detect.{fresh}
use k8s_power_management.Backend.Governor.Laws.{IsMiddle, collapses-IsMiddle_iff}
use k8s_power_management.Backend.Governor.{GovernorFallbackBackend, collapses, apply}

-- How often the log has the warning about collapsing profiles.
pub collapse_warnings : List Warning → ℕ
collapse_warnings [] = 0
collapse_warnings (governor_collapse ∷ log) = suc (collapse_warnings log)
collapse_warnings (unknown_epp_value raw ∷ log) = collapse_warnings log
collapse_warnings (turbo_skipped ∷ log) = collapse_warnings log

or_false : (a : Bool) → (a || false) ≡ a
or_false a = ground arith

or_assoc : (a b c : Bool) → ((a || b) || c) ≡ (a || (b || c))
or_assoc a b c = ground arith

one_if : (b : Bool) → let n : ℕ = if b then 1 else 0 in ((n ≡ 1) ↔ (b ≡ true)) × (n ≤ 1)
one_if true = ((λ _. refl, λ _. refl), omega arith)
one_if false = ((λ e. absurd (omega arith), λ e. absurd (cc)), omega arith)

any-IsMiddle_iff :
    (ps : List PowerProfile)
    → (any collapses ps ≡ true) ↔ ((p : PowerProfile) × In p ps × IsMiddle p)
any-IsMiddle_iff [] = (λ e. absurd (cc), λ (p, m, _). absurd m)
any-IsMiddle_iff (q ∷ ps) =
    let rest = any-IsMiddle_iff ps in
    elim (Bool-cases (collapses q)) [
      | inl yes_q ↦ (λ _. (q, inl refl, (collapses-IsMiddle_iff q).0 yes_q), λ _. rw (yes_q) refl)
      | inr no_q ↦ (
        λ e. let (p, m, i) = rest.0 (rw (no_q) at e) in (p, inr m, i),
        λ (p, m, i). elim m [
          | inl same ↦ absurd (let yes_p = (collapses-IsMiddle_iff p).1 i in cc)
          | inr later ↦ rw (no_q) (rest.1 (p, later, i))
        ],
      )
    ]

module _ (sysfs : SysfsIo) (b : GovernorFallbackBackend) where
  -- The host after calls of `apply` with these profiles, whatever their results.
  pub after_applies : List PowerProfile → Host sysfs → Host sysfs
  after_applies [] h = h
  after_applies (p ∷ ps) h = after_applies ps (apply sysfs b p h).1

  -- The flag says whether the warning has been given, and it is given at most once.
  IsTold : Bool → Host sysfs → Type 0
  IsTold told h = (h.warned_collapse ≡ told) × (collapse_warnings h.log ≡ (if told then 1 else 0))

  apply-IsTold :
      (told : Bool) (p : PowerProfile) (h : Host sysfs)
      → IsTold told h
      → IsTold (told || collapses p) (apply sysfs b p h).1
  unfolding IsTold apply collapse_warnings
  apply-IsTold told p h t = ground arith

  after_applies-IsTold :
      (told : Bool) (ps : List PowerProfile) (h : Host sysfs)
      → IsTold told h
      → IsTold (told || any collapses ps) (after_applies ps h)
  unfolding after_applies
  after_applies-IsTold told [] h t = subst (λ c. IsTold c h) (sym (or_false told)) t
  after_applies-IsTold told (p ∷ ps) h t =
      subst (λ c. IsTold c (after_applies ps (apply sysfs b p h).1))
        (or_assoc told (collapses p) (any collapses ps))
        (after_applies-IsTold (told || collapses p) ps (apply sysfs b p h).1
          (apply-IsTold told p h t))

  -- Over any sequence of applies from a fresh host, the log has the warning once exactly when some
  -- applied profile is neither `performance` nor `power`, and it never has it twice.
  pub collapse_warnings-after_applies :
      (ps : List PowerProfile) (s : sysfs.State)
      → let warnings = collapse_warnings (after_applies ps (fresh sysfs s)).log in
        ((warnings ≡ 1) ↔ ((p : PowerProfile) × In p ps × IsMiddle p)) × (warnings ≤ 1)
  unfolding IsTold collapse_warnings
  collapse_warnings-after_applies ps s =
      let count = (after_applies-IsTold false ps (fresh sysfs s) (refl, refl)).1 in
      let (is_one, at_most) = one_if (any collapses ps) in
      (
        (
          λ e. (any-IsMiddle_iff ps).0 (is_one.0 (sym count ∙ e)),
          λ m. count ∙ is_one.1 ((any-IsMiddle_iff ps).1 m),
        ),
        omega (arith, count, at_most),
      )
