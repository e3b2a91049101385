-- ===== src/Cli/Laws.antt =====
-- Lemmas on the command `apply` of crates/pstate-cli/src/main.rs.
use k8s_power_management.Base.{
  String, ◌≡◌, ◌≢◌, ◌↔◌, inl, inr, refl, sym, ◌∙◌, ap, subst, Bool, true, false, ◌&&◌, Option, none,
  some, [], Result, ok, err, str_eq, str_eq-cases, eq_iff, if◌then◌else◌,
}
use k8s_power_management.Error.{PowerError, Format}
use k8s_power_management.Profile.{PowerProfile, as_kernel_str, from_str}
use k8s_power_management.Profile.Laws.{from_str-as_kernel_str, from_str-eq-ok}
use k8s_power_management.Sysfs.{SysfsIo}
use k8s_power_management.Backend.Interface.{PowerBackend, Host}
use k8s_power_management.Backend.Detect.{detect_backend, methods, fresh}
use k8s_power_management.Cli.{
  Progress, success, failure, profile_result, profile_parsed, profile_part, turbo_result,
  turbo_part, apply_parts, exit_code, apply,
}

pub and-false_right : (b : Bool) → (b && false) ≡ false
and-false_right true = refl
and-false_right false = refl

pub and-true_right : (b : Bool) → (b && true) ≡ b
and-true_right true = refl
and-true_right false = refl

abbrev pub turbo_word : Bool → String
turbo_word enabled = if enabled then "enabled" else "disabled"

module _ (f : Format) {S : Type 0} (backend : PowerBackend S) where
  -- The option `--profile` is absent, or names a profile that the backend applies.
  abbrev pub ProfileDone : Option String → S → S → Type 0
  ProfileDone none s s' = s' ≡ s
  ProfileDone (some raw) s s' =
      (p : PowerProfile) × (raw ≡ as_kernel_str p) × (backend.apply p s ≡ (ok tt, s'))

  -- The option `--turbo` is absent, or names a state that the backend sets.
  abbrev pub TurboDone : Option String → S → S → Type 0
  TurboDone none s s' = s' ≡ s
  TurboDone (some raw) s s' =
      (enabled : Bool) × (raw ≡ turbo_word enabled) × (backend.set_turbo enabled s ≡ (ok tt, s'))

  profile_result-good :
      (raw : String) (p : PowerProfile) (r : Result (Unit {0}) PowerError × S) (g : Progress S)
      → ((profile_result f backend raw p r g).good ≡ true)
        ↔ ((g.good ≡ true) × (r ≡ (ok tt, (profile_result f backend raw p r g).machine)))
  unfolding profile_result
  profile_result-good raw p (ok _, s) g =
      (λ h. (sym (and-true_right g.good) ∙ h, refl), λ (h, _). and-true_right g.good ∙ h)
  profile_result-good raw p (err e, s) g = (
    λ h. absurd (let no = and-false_right g.good in cc),
    λ (_, h). absurd (let no : err e ≡ ok tt = ap (λ x. x.0) h in cc),
  )

  turbo_result-good :
      (raw : String) (r : Result (Unit {0}) PowerError × S) (g : Progress S)
      → ((turbo_result f backend raw r g).good ≡ true)
        ↔ ((g.good ≡ true) × (r ≡ (ok tt, (turbo_result f backend raw r g).machine)))
  unfolding turbo_result
  turbo_result-good raw (ok _, s) g =
      (λ h. (sym (and-true_right g.good) ∙ h, refl), λ (h, _). and-true_right g.good ∙ h)
  turbo_result-good raw (err e, s) g = (
    λ h. absurd (let no = and-false_right g.good in cc),
    λ (_, h). absurd (let no : err e ≡ ok tt = ap (λ x. x.0) h in cc),
  )

  profile_parsed-good :
      (raw : String) (r : Result PowerProfile PowerError) (g : Progress S)
      → from_str raw ≡ r
      → ((profile_parsed f backend raw r g).good ≡ true) ↔ (
          (g.good ≡ true)
          × ProfileDone (some raw) g.machine (profile_parsed f backend raw r g).machine)
  unfolding profile_parsed
  profile_parsed-good raw (ok p) g e =
      let law = profile_result-good raw p (backend.apply p g.machine) g in
      (
        λ h. ((law.0 h).0, (p, from_str-eq-ok raw p e, (law.0 h).1)),
        λ (h, (q, named, done)).
            let found : ok q ≡ from_str raw = sym (ap from_str named ∙ from_str-as_kernel_str q) in
            let same : q ≡ p = cc in
            law.1 (h, ap (λ x. backend.apply x g.machine) (sym same) ∙ done),
      )
  profile_parsed-good raw (err x) g e = (
    λ h. absurd (let no = and-false_right g.good in cc),
    λ (h, (q, named, done)). absurd (
        let found : ok q ≡ from_str raw = sym (ap from_str named ∙ from_str-as_kernel_str q) in cc),
  )

  profile_part-good :
      (o : Option String) (g : Progress S)
      → ((profile_part f backend o g).good ≡ true)
        ↔ ((g.good ≡ true) × ProfileDone o g.machine (profile_part f backend o g).machine)
  unfolding profile_part
  profile_part-good none g = (λ h. (h, refl), λ (h, _). h)
  profile_part-good (some raw) g = profile_parsed-good raw (from_str raw) g refl

  word-found : (raw : String) (b : Bool) → raw ≡ turbo_word b → str_eq raw "enabled" ≡ b
  word-found raw true e = (eq_iff raw "enabled").1 e
  word-found raw false e = ap (λ r. str_eq r "enabled") e

  turbo_set-good :
      (raw : String) (b : Bool) (g : Progress S)
      → raw ≡ turbo_word b
      → ((turbo_result f backend raw (backend.set_turbo b g.machine) g).good ≡ true) ↔ (
          (g.good ≡ true)
          × TurboDone
              (some raw)
              g.machine
              (turbo_result f backend raw (backend.set_turbo b g.machine) g).machine)
  turbo_set-good raw b g e =
      let law = turbo_result-good raw (backend.set_turbo b g.machine) g in
      (
        λ h. ((law.0 h).0, (b, e, (law.0 h).1)),
        λ (h, (c, named, done)).
            let same : c ≡ b = sym (word-found raw c named) ∙ word-found raw b e in
            law.1 (h, ap (λ x. backend.set_turbo x g.machine) (sym same) ∙ done),
      )

  turbo_part-good :
      (o : Option String) (g : Progress S)
      → ((turbo_part f backend o g).good ≡ true)
        ↔ ((g.good ≡ true) × TurboDone o g.machine (turbo_part f backend o g).machine)
  unfolding turbo_part
  turbo_part-good none g = (λ h. (h, refl), λ (h, _). h)
  turbo_part-good (some raw) g = elim (str_eq-cases raw "enabled") [
    | inl (t, e) ↦ rw (t) (turbo_set-good raw true g e)
    | inr (t, n) ↦ elim (str_eq-cases raw "disabled") [
      | inl (u, e) ↦ rw (t, u) (turbo_set-good raw false g e)
      | inr (u, m) ↦
          rw (t, u)
            (
              λ h. absurd (let no = and-false_right g.good in cc),
              λ (h, (b, named, done)). absurd (word-other b raw named n m),
            )
    ]
  ]
    where
      word-other :
          (b : Bool) (raw : String) → raw ≡ turbo_word b → raw ≢ "enabled" → raw ≢ "disabled" → ⊥
      word-other true raw e n m = n e
      word-other false raw e n m = m e

  profile_part-machine :
      (o : Option String) (g : Progress S) (s1 : S)
      → ProfileDone o g.machine s1
      → (profile_part f backend o g).machine ≡ s1
  unfolding profile_part profile_parsed profile_result
  profile_part-machine none g s1 done = sym done
  profile_part-machine (some raw) g s1 (p, named, done) =
      ap (λ r. (profile_parsed f backend raw r g).machine)
        (ap from_str named ∙ from_str-as_kernel_str p)
      ∙ ap (λ r. (profile_result f backend raw p r g).machine) done

  pub exit_code-success_iff :
      (g : Progress S) → ((exit_code f backend g).0 ≡ success) ↔ (g.good ≡ true)
  exit_code-success_iff g = go g.good
    where
      go : (b : Bool) → ((if b then success else failure) ≡ success) ↔ (b ≡ true)
      go true = (λ _. refl, λ _. refl)
      go false = (λ h. absurd (cc), λ h. absurd (cc))

  apply_parts-success_iff :
      (profile turbo : Option String) (s : S)
      → ((exit_code f backend (apply_parts f backend profile turbo s)).0 ≡ success) ↔ (
          (s1 : S) × ProfileDone profile s s1
          × TurboDone turbo s1 (exit_code f backend (apply_parts f backend profile turbo s)).2)
  unfolding apply_parts
  apply_parts-success_iff profile turbo s =
      let start : Progress S = record { good = true; lines = []; machine = s } in
      let middle = profile_part f backend profile start in
      let first = profile_part-good profile start in
      let second = turbo_part-good turbo middle in
      let last = exit_code-success_iff (turbo_part f backend turbo middle) in
      (
        λ e.
            let (fine, turbo_done) = second.0 (last.0 e) in
            (middle.machine, (first.0 fine).1, turbo_done),
        λ (s1, a, b).
            let same = profile_part-machine profile start s1 a in
            last.1 (
              second.1 (
                first.1 (refl, subst (ProfileDone profile s) (sym same) a),
                subst (λ x. TurboDone turbo x (turbo_part f backend turbo middle).machine)
                    (sym same) b,
              )),
      )

-- The command `apply` exits with success exactly when an option is given, every option that is given
-- is spelled as the program documents it, and the detected backend carries each of them out, the
-- profile first. The machine is then as the last of these calls leaves it.
pub apply-success_iff :
    (f : Format) (sysfs : SysfsIo) (profile turbo : Option String) (s : sysfs.State)
    → let backend = methods sysfs (detect_backend sysfs s) in
      let outcome = apply f sysfs profile turbo s in
      (outcome.0 ≡ success) ↔ (
        (¬ ((profile ≡ none) × (turbo ≡ none)))
        × ((h : Host sysfs) × ProfileDone f backend profile (fresh sysfs s) h
            × TurboDone f backend turbo h outcome.2))
unfolding apply
apply-success_iff f sysfs none none s =
    (λ e. absurd (cc), λ (given, _). absurd (given (refl, refl)))
apply-success_iff f sysfs (some p) turbo s =
    let law =
      apply_parts-success_iff f (methods sysfs (detect_backend sysfs s)) (some p) turbo
        (fresh sysfs s) in
    (λ e. (λ (x, y). absurd (cc), law.0 e), λ (_, done). law.1 done)
apply-success_iff f sysfs none (some t) s =
    let law =
      apply_parts-success_iff f (methods sysfs (detect_backend sysfs s)) none (some t)
        (fresh sysfs s) in
    (λ e. (λ (x, y). absurd (cc), law.0 e), λ (_, done). law.1 done)
