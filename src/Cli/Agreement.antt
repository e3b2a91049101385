-- ===== src/Cli/Agreement.antt =====
-- The command `apply` of crates/pstate-cli/src/main.rs beside `reconcile_once` of
-- crates/power-agent/src/reconcile.rs.
use k8s_power_management.Base.{
  String, ◌≡◌, ◌↔◌, refl, sym, ◌∙◌, ap, Bool, true, false, ◌&&◌, Option, none, some, [], Result, ok,
  err, arith,
}
use k8s_power_management.Error.{PowerError, io, invalid_profile, unsupported_profile, Format}
use k8s_power_management.Profile.{PowerProfile, as_kernel_str}
use k8s_power_management.Profile.Laws.{from_str-as_kernel_str}
use k8s_power_management.Sysfs.{SysfsIo}
use k8s_power_management.Backend.Interface.{PowerBackend}
use k8s_power_management.Backend.Detect.{detect_backend, methods, fresh}
use k8s_power_management.Agent.Reconcile.{
  ReconcileReport, reconcile_once, parse_profile_label, parse_turbo_label, try_turbo, turbo_outcome,
  error_of,
}
use k8s_power_management.Agent.Reconcile.Labels.{parse_profile_label_lem, parse_turbo_label_lem}
use k8s_power_management.Cli.{
  Progress, success, profile_result, profile_parsed, profile_part, turbo_result, turbo_part,
  apply_parts, exit_code, apply,
}
use k8s_power_management.Cli.Laws.{
  turbo_word, and-false_right, and-true_right, exit_code-success_iff,
}

-- Both programs' options: no turbo, or a state that both know.
abbrev pub turbo_option : Option Bool → Option String
turbo_option none = none
turbo_option (some b) = some (turbo_word b)

-- The report has no error, and no missing knob either.
abbrev pub IsClean : ReconcileReport → Type 0
IsClean r =
    (r.profile_apply_error ≡ none) × (r.turbo_apply_error ≡ none) × (r.turbo_unsupported ≡ false)

module _ (f : Format) {S : Type 0} (backend : PowerBackend S) where
  profile_result-machine :
      (raw : String) (p : PowerProfile) (r : Result (Unit {0}) PowerError × S) (g : Progress S)
      → (profile_result f backend raw p r g).machine ≡ r.1
  unfolding profile_result
  profile_result-machine raw p (ok _, s) g = refl
  profile_result-machine raw p (err e, s) g = refl

  turbo_result-machine :
      (raw : String) (r : Result (Unit {0}) PowerError × S) (g : Progress S)
      → (turbo_result f backend raw r g).machine ≡ r.1
  unfolding turbo_result
  turbo_result-machine raw (ok _, s) g = refl
  turbo_result-machine raw (err e, s) g = refl

  turbo_part-machine :
      (t : Option Bool) (g : Progress S)
      → (turbo_part f backend (turbo_option t) g).machine ≡ (try_turbo f backend t g.machine).1
  unfolding turbo_part try_turbo
  turbo_part-machine none g = refl
  turbo_part-machine (some true) g =
      turbo_result-machine "enabled" (backend.set_turbo true g.machine) g
  turbo_part-machine (some false) g =
      turbo_result-machine "disabled" (backend.set_turbo false g.machine) g

  and_false : (b : Bool) → (b && false) ≡ true → ⊥
  and_false b e = let no = and-false_right b in cc

  and_true : (b : Bool) → ((b && true) ≡ true) ↔ (b ≡ true)
  and_true b = (λ e. sym (and-true_right b) ∙ e, λ e. and-true_right b ∙ e)

  profile_result-good :
      (raw : String) (p : PowerProfile) (r : Result (Unit {0}) PowerError × S) (g : Progress S)
      → ((profile_result f backend raw p r g).good ≡ true)
        ↔ ((g.good ≡ true) × (error_of f r.0 ≡ none))
  unfolding profile_result
  profile_result-good raw p (ok _, s) g =
      (λ e. ((and_true g.good).0 e, refl), λ (e, _). (and_true g.good).1 e)
  profile_result-good raw p (err x, s) g = (λ e. absurd (and_false g.good e), λ (_, e). absurd (cc))

  turbo_result-good :
      (raw : String) (r : Result (Unit {0}) PowerError × S) (g : Progress S)
      → ((turbo_result f backend raw r g).good ≡ true)
        ↔ ((g.good ≡ true) × ((turbo_outcome f r.0).0 ≡ none) × ((turbo_outcome f r.0).1 ≡ false))
  unfolding turbo_result turbo_outcome
  turbo_result-good raw (ok _, s) g =
      (λ e. ((and_true g.good).0 e, refl, refl), λ (e, _, _). (and_true g.good).1 e)
  turbo_result-good raw (err PowerError.turbo_unsupported, s) g =
      (λ e. absurd (and_false g.good e), λ (_, _, e). absurd (cc))
  turbo_result-good raw (err (io path source), s) g =
      (λ e. absurd (and_false g.good e), λ (_, e, _). absurd (cc))
  turbo_result-good raw (err (invalid_profile x), s) g =
      (λ e. absurd (and_false g.good e), λ (_, e, _). absurd (cc))
  turbo_result-good raw (err (unsupported_profile i x l), s) g =
      (λ e. absurd (and_false g.good e), λ (_, e, _). absurd (cc))

  turbo_part-good :
      (t : Option Bool) (g : Progress S)
      → let tried = try_turbo f backend t g.machine in
        ((turbo_part f backend (turbo_option t) g).good ≡ true)
        ↔ ((g.good ≡ true) × (tried.0.0 ≡ none) × (tried.0.1 ≡ false))
  unfolding turbo_part try_turbo
  turbo_part-good none g = (λ e. (e, refl, refl), λ (e, _, _). e)
  turbo_part-good (some true) g = turbo_result-good "enabled" (backend.set_turbo true g.machine) g
  turbo_part-good (some false) g =
      turbo_result-good "disabled" (backend.set_turbo false g.machine) g

  profile_part-eq :
      (p : PowerProfile) (g : Progress S)
      → profile_part f backend (some (as_kernel_str p)) g
        ≡ profile_result f backend (as_kernel_str p) p (backend.apply p g.machine) g
  unfolding profile_part profile_parsed
  profile_part-eq p g =
      ap (λ r. profile_parsed f backend (as_kernel_str p) r g) (from_str-as_kernel_str p)

  read_profile : (p : PowerProfile) → (parse_profile_label (some (as_kernel_str p))).0 ≡ p
  read_profile p = ap (λ r. r.0) (((parse_profile_label_lem (some (as_kernel_str p))).0 p).0 refl)

  read_turbo : (t : Option Bool) → (parse_turbo_label (turbo_option t)).0 ≡ t
  read_turbo none = ap (λ r. r.0) ((parse_turbo_label_lem none).0 none refl)
  read_turbo (some true) =
      ap (λ r. r.0) ((parse_turbo_label_lem (some "enabled")).0 (some true) refl)
  read_turbo (some false) =
      ap (λ r. r.0) ((parse_turbo_label_lem (some "disabled")).0 (some false) refl)

  -- A reconcile whose labels have been read.
  report_of :
      (pl tl : Option String) (p : PowerProfile) (t : Option Bool) (s : S)
      → (parse_profile_label pl).0 ≡ p
      → (parse_turbo_label tl).0 ≡ t
      → let r = reconcile_once f backend pl tl s in
        let applied = backend.apply p s in
        let tried = try_turbo f backend t applied.1 in
        (r.1 ≡ tried.1)
        × (r.0.profile_apply_error ≡ error_of f applied.0)
        × (r.0.turbo_apply_error ≡ tried.0.0)
        × (r.0.turbo_unsupported ≡ tried.0.1)
  unfolding reconcile_once
  report_of pl tl p t s a b = ground arith

  parts_agree :
      (p : PowerProfile) (t : Option Bool) (s : S)
      → let r = reconcile_once f backend (some (as_kernel_str p)) (turbo_option t) s in
        let outcome =
          exit_code f backend (apply_parts f backend (some (as_kernel_str p)) (turbo_option t) s) in
        (outcome.2 ≡ r.1) × ((outcome.0 ≡ success) ↔ IsClean r.0)
  unfolding apply_parts
  parts_agree p t s =
      let start : Progress S = record { good = true; lines = []; machine = s } in
      let applied = backend.apply p s in
      let middle : Progress S = profile_result f backend (as_kernel_str p) p applied start in
      let begun = profile_part-eq p start in
      let moved : middle.machine ≡ applied.1 =
        profile_result-machine (as_kernel_str p) p applied start in
      let (machine, profile_error, turbo_error, no_turbo) =
        report_of (some (as_kernel_str p)) (turbo_option t) p t s (read_profile p) (read_turbo t) in
      let first = profile_result-good (as_kernel_str p) p applied start in
      let second = turbo_part-good t middle in
      let last = exit_code-success_iff f backend (turbo_part f backend (turbo_option t) middle) in
      rw begun (
        turbo_part-machine t middle ∙ ap (λ m. (try_turbo f backend t m).1) moved ∙ sym machine,
        (
          λ e.
              let (good, no_error, a_knob) = second.0 (last.0 e) in
              (
                profile_error ∙ (first.0 good).1,
                turbo_error ∙ sym (ap (λ m. (try_turbo f backend t m).0.0) moved) ∙ no_error,
                no_turbo ∙ sym (ap (λ m. (try_turbo f backend t m).0.1) moved) ∙ a_knob,
              ),
          λ (a, b, c). last.1 (
              second.1 (
                first.1 (refl, sym profile_error ∙ a),
                ap (λ m. (try_turbo f backend t m).0.0) moved ∙ sym turbo_error ∙ b,
                ap (λ m. (try_turbo f backend t m).0.1) moved ∙ sym no_turbo ∙ c,
              )),
        ),
      )

-- With a profile, and a turbo state or none, `pstate-cli apply` and a reconcile of a node whose labels
-- say the same leave the same machine behind on the same host. The command exits with success exactly
-- when the reconcile has neither an error nor a turbo state that the backend cannot set.
pub apply-agrees :
    (f : Format) (sysfs : SysfsIo) (p : PowerProfile) (turbo : Option Bool) (s : sysfs.State)
    → let backend = methods sysfs (detect_backend sysfs s) in
      let r =
        reconcile_once f backend (some (as_kernel_str p)) (turbo_option turbo) (fresh sysfs s) in
      let outcome = apply f sysfs (some (as_kernel_str p)) (turbo_option turbo) s in
      (outcome.2 ≡ r.1) × ((outcome.0 ≡ success) ↔ IsClean r.0)
unfolding apply
apply-agrees f sysfs p turbo s =
    parts_agree f (methods sysfs (detect_backend sysfs s)) p turbo (fresh sysfs s)
