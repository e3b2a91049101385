-- ===== src/Agent/Reconcile/Laws.antt =====
-- Lemmas on `reconcile_once` of crates/power-agent/src/reconcile.rs and its report.
use k8s_power_management.Base.{
  String, ◌≡◌, ◌≢◌, ◌↔◌, ◌⊎◌, inl, inr, refl, ◌∙◌, ap, subst, Bool, true, false, ◌||◌, Option, none,
  some, Result, ok, err, arith, eq_iff, if◌then◌else◌,
}
use k8s_power_management.Error.{PowerError, io, invalid_profile, unsupported_profile, Format}
use k8s_power_management.Profile.{PowerProfile, default}
use k8s_power_management.Backend.Interface.{
  BackendKind, PowerBackend, unsupported, intel_epp, amd_epp, unknown_epp, governor_fallback,
}
use k8s_power_management.Agent.Reconcile.{
  ReconcileReport, result_label, is_some, is_unsupported, reconcile_once, parse_turbo_label,
  error_of, turbo_outcome, try_turbo,
}
use k8s_power_management.Agent.Reconcile.Labels.{
  AsksProfile, SpellsNoProfile, AsksTurbo, SpellsNoTurbo, parse_profile_label_lem,
  parse_turbo_label_lem, profile_invalid_iff, turbo_invalid_iff,
}

no_turbo :
    (label : Option String)
    → ((label ≡ none) ⊎ SpellsNoTurbo label)
    → (parse_turbo_label label).0 ≡ none
no_turbo label (inl absent) =
    ap (λ r. r.0) (ap parse_turbo_label absent ∙ (parse_turbo_label_lem none).0 none refl)
no_turbo label (inr bad) = ap (λ r. r.0) ((parse_turbo_label_lem label).1 bad)

-- `set_turbo` succeeded, or the backend has no knob for turbo.
abbrev pub IsFine : Result (Unit {0}) PowerError → Type 0
IsFine r = (r ≡ ok tt) ⊎ (r ≡ err PowerError.turbo_unsupported)

error_of-none_iff :
    (f : Format) (r : Result (Unit {0}) PowerError) → (error_of f r ≡ none) ↔ (r ≡ ok tt)
error_of-none_iff f (ok _) = (λ _. refl, λ _. refl)
error_of-none_iff f (err e) = (λ h. absurd (cc), λ h. absurd (cc))

is_unsupported_iff : (k : BackendKind) → (is_unsupported k ≡ false) ↔ (k ≢ unsupported)
is_unsupported_iff unsupported = (λ e. absurd (cc), λ h. absurd (h refl))
is_unsupported_iff intel_epp = (λ _ e. cc, λ _. refl)
is_unsupported_iff amd_epp = (λ _ e. cc, λ _. refl)
is_unsupported_iff unknown_epp = (λ _ e. cc, λ _. refl)
is_unsupported_iff governor_fallback = (λ _ e. cc, λ _. refl)

abbrev status_of : Bool → Bool → Bool → Bool → Bool → String
status_of a b c d e =
    if a || b
    then "error"
    else if c || d
    then "invalid_label"
    else if e
    then "unsupported"
    else "ok"

not_ok :
    (◌≢◌ {A = String} "error" "ok")
    × (◌≢◌ {A = String} "invalid_label" "ok")
    × (◌≢◌ {A = String} "unsupported" "ok")
not_ok = (
  ground (arith, eq_iff "error" "ok"),
  ground (arith, eq_iff "invalid_label" "ok"),
  ground (arith, eq_iff "unsupported" "ok"),
)

label_of :
    (a b c d e : Bool)
    → (status_of a b c d e ≡ "ok")
      ↔ ((a ≡ false) × (b ≡ false) × (c ≡ false) × (d ≡ false) × (e ≡ false))
label_of true b c d e = (λ h. absurd (not_ok.0 h), λ (h, _, _, _, _). absurd (cc))
label_of false true c d e = (λ h. absurd (not_ok.0 h), λ (_, h, _, _, _). absurd (cc))
label_of false false true d e = (λ h. absurd (not_ok.1 h), λ (_, _, h, _, _). absurd (cc))
label_of false false false true e = (λ h. absurd (not_ok.1 h), λ (_, _, _, h, _). absurd (cc))
label_of false false false false true = (λ h. absurd (not_ok.2 h), λ (_, _, _, _, h). absurd (cc))
label_of false false false false false = (λ _. (refl, refl, refl, refl, refl), λ _. refl)

is_some-none_iff : (o : Option String) → (is_some o ≡ false) ↔ (o ≡ none)
is_some-none_iff none = (λ _. refl, λ _. refl)
is_some-none_iff (some s) = (λ h. absurd (cc), λ h. absurd (cc))

report-ok_iff :
    (r : ReconcileReport)
    → (result_label r ≡ "ok") ↔ (
        (r.profile_apply_error ≡ none)
        × (r.turbo_apply_error ≡ none)
        × (r.profile_invalid_value ≡ none)
        × (r.turbo_invalid_value ≡ none)
        × (is_unsupported r.backend_kind ≡ false))
unfolding result_label
report-ok_iff r =
    let law =
      label_of (is_some r.profile_apply_error) (is_some r.turbo_apply_error)
        (is_some r.profile_invalid_value) (is_some r.turbo_invalid_value)
        (is_unsupported r.backend_kind) in
    (
      λ h.
          let (a, b, c, d, e) = law.0 h in
          (
            (is_some-none_iff _).0 a,
            (is_some-none_iff _).0 b,
            (is_some-none_iff _).0 c,
            (is_some-none_iff _).0 d,
            e,
          ),
      λ (a, b, c, d, e). law.1 (
        (is_some-none_iff _).1 a,
        (is_some-none_iff _).1 b,
        (is_some-none_iff _).1 c,
        (is_some-none_iff _).1 d,
        e,
      ),
    )

turbo_outcome-none_iff :
    (f : Format) (r : Result (Unit {0}) PowerError) → ((turbo_outcome f r).0 ≡ none) ↔ IsFine r
unfolding turbo_outcome
turbo_outcome-none_iff f (ok _) = (λ _. inl refl, λ _. refl)
turbo_outcome-none_iff f (err PowerError.turbo_unsupported) = (λ _. inr refl, λ _. refl)
turbo_outcome-none_iff f (err (io path source)) =
    (λ h. absurd (cc), elim [ inl e ↦ absurd (cc) | inr e ↦ absurd (cc) ])
turbo_outcome-none_iff f (err (invalid_profile s)) =
    (λ h. absurd (cc), elim [ inl e ↦ absurd (cc) | inr e ↦ absurd (cc) ])
turbo_outcome-none_iff f (err (unsupported_profile i p l)) =
    (λ h. absurd (cc), elim [ inl e ↦ absurd (cc) | inr e ↦ absurd (cc) ])

module _ (f : Format) {S : Type 0} (backend : PowerBackend S) where
  try_turbo-none_iff :
      (t : Option Bool) (s : S)
      → ((try_turbo f backend t s).0.0 ≡ none)
        ↔ ((enabled : Bool) → t ≡ some enabled → IsFine (backend.set_turbo enabled s).0)
  unfolding try_turbo
  try_turbo-none_iff none s = (λ _ enabled e. absurd (cc), λ _. refl)
  try_turbo-none_iff (some b) s = (
    λ h enabled e.
        let same : b ≡ enabled = cc in
        subst (λ x. IsFine (backend.set_turbo x s).0) same
          ((turbo_outcome-none_iff f (backend.set_turbo b s).0).0 h),
    λ h. (turbo_outcome-none_iff f (backend.set_turbo b s).0).1 (h b refl),
  )

module _ (f : Format) {S : Type 0} (backend : PowerBackend S) (s : S) where
  -- With labels that ask for a profile and a turbo state, `apply` is called once with that profile,
  -- and then `set_turbo` once with that state.
  pub reconcile_once-calls :
      (profile_label turbo_label : Option String) (p : PowerProfile) (enabled : Bool)
      → AsksProfile profile_label p
      → AsksTurbo turbo_label (some enabled)
      → let r = reconcile_once f backend profile_label turbo_label s in
        let applied = backend.apply p s in
        (r.1 ≡ (backend.set_turbo enabled applied.1).1)
        × (r.0.profile ≡ p)
        × (r.0.turbo ≡ some enabled)
  unfolding reconcile_once
  reconcile_once-calls pl tl p enabled asks asks_turbo = ground (
    arith,
    ((parse_profile_label_lem pl).0 p).0 asks,
    (parse_turbo_label_lem tl).0 (some enabled) asks_turbo,
  )

  -- Without a turbo label, or with one that spells no state, `set_turbo` is not called; with a
  -- profile label that spells no profile, `apply` is called with `default`.
  pub reconcile_once_fallbacks :
      (profile_label turbo_label : Option String)
      → ((turbo_label ≡ none) ⊎ SpellsNoTurbo turbo_label)
      → let r = reconcile_once f backend profile_label turbo_label s in
        (r.1 ≡ (backend.apply r.0.profile s).1)
        × (r.0.turbo ≡ none)
        × (SpellsNoProfile profile_label
            → (r.0.profile ≡ default) × (r.0.profile_invalid_value ≡ profile_label))
  unfolding reconcile_once
  reconcile_once_fallbacks pl tl h =
      let quiet : (parse_turbo_label tl).0 ≡ none = no_turbo tl h in
      (
        ground arith,
        quiet,
        λ bad. (
          ap (λ r. r.0) ((parse_profile_label_lem pl).1 bad),
          ap (λ r. r.1) ((parse_profile_label_lem pl).1 bad),
        ),
      )

  -- The status is `ok` exactly when no label is invalid, the profile was applied, turbo was set or
  -- is unsupported by the backend or was not asked for, and the node supports power management.
  pub result_label-ok_iff :
      (profile_label turbo_label : Option String)
      → let r = (reconcile_once f backend profile_label turbo_label s).0 in
        let applied = backend.apply r.profile s in
        (result_label r ≡ "ok") ↔ (
          (¬ SpellsNoProfile profile_label)
          × (¬ SpellsNoTurbo turbo_label)
          × (applied.0 ≡ ok tt)
          × ((enabled : Bool)
              → r.turbo ≡ some enabled
              → IsFine (backend.set_turbo enabled applied.1).0)
          × (backend.kind ≢ unsupported))
  unfolding reconcile_once
  result_label-ok_iff pl tl = (
    λ e.
        let (a, b, c, d, k) = (report-ok_iff _).0 e in
        (
          (profile_invalid_iff pl).0 c,
          (turbo_invalid_iff tl).0 d,
          (error_of-none_iff f _).0 a,
          (try_turbo-none_iff f backend _ _).0 b,
          (is_unsupported_iff _).0 k,
        ),
    λ (c, d, a, b, k). (report-ok_iff _).1 (
      (error_of-none_iff f _).1 a,
      (try_turbo-none_iff f backend _ _).1 b,
      (profile_invalid_iff pl).1 c,
      (turbo_invalid_iff tl).1 d,
      (is_unsupported_iff _).1 k,
    ),
  )
