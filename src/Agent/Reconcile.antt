-- ===== src/Agent/Reconcile.antt =====
-- crates/power-agent/src/reconcile.rs: the labels, `reconcile_once` and its report.
pub mod Labels
pub mod Laws
pub mod Delivery
pub mod Recording
use k8s_power_management.Base.{
  String, Bool, true, false, ◌||◌, Option, none, some, Result, ok, err, str_eq, if◌then◌else◌,
}
use k8s_power_management.Error.{
  PowerError, turbo_unsupported, io, invalid_profile, unsupported_profile, Format, error_text,
}
use k8s_power_management.Profile.{PowerProfile, default, from_str}
use k8s_power_management.Backend.Interface.{
  BackendKind, PowerBackend, intel_epp, amd_epp, unknown_epp, governor_fallback, unsupported,
}

pub record ReconcileReport : Type 0 where
  pub profile : PowerProfile
  pub profile_invalid_value : Option String
  pub profile_apply_error : Option String
  pub turbo : Option Bool
  pub turbo_invalid_value : Option String
  pub turbo_apply_error : Option String
  pub turbo_unsupported : Bool
  pub backend_kind : BackendKind

abbrev pub is_some {ℓ} : {A : Type ℓ} → Option A → Bool
is_some none = false
is_some (some a) = true

-- `kind == BackendKind::Unsupported`
abbrev pub is_unsupported : BackendKind → Bool
is_unsupported unsupported = true
is_unsupported intel_epp = false
is_unsupported amd_epp = false
is_unsupported unknown_epp = false
is_unsupported governor_fallback = false

unfoldable pub result_label : ReconcileReport → String
result_label r =
    if is_some r.profile_apply_error || is_some r.turbo_apply_error
    then "error"
    else if is_some r.profile_invalid_value || is_some r.turbo_invalid_value
    then "invalid_label"
    else if is_unsupported r.backend_kind
    then "unsupported"
    else "ok"

profile_or_default : String → Result PowerProfile PowerError → PowerProfile × Option String
profile_or_default s (ok p) = (p, none)
profile_or_default s (err _) = (default, some s)

unfoldable pub parse_profile_label : Option String → PowerProfile × Option String
unfolding profile_or_default
parse_profile_label none = (default, none)
parse_profile_label (some s) = profile_or_default s (from_str s)

unfoldable pub parse_turbo_label : Option String → Option Bool × Option String
parse_turbo_label none = (none, none)
parse_turbo_label (some s) =
    if str_eq s "enabled"
    then (some true, none)
    else if str_eq s "disabled"
    then (some false, none)
    else (none, some s)

-- `.err().map(|e| e.to_string())`
abbrev pub error_of : Format → Result (Unit {0}) PowerError → Option String
error_of f (ok _) = none
error_of f (err e) = some (error_text f e)

-- The match on the result of `set_turbo`: the error's text, and whether turbo is unsupported.
unfoldable pub turbo_outcome : Format → Result (Unit {0}) PowerError → Option String × Bool
turbo_outcome f (ok _) = (none, false)
turbo_outcome f (err PowerError.turbo_unsupported) = (none, true)
turbo_outcome f (err (io path source)) = (some (error_text f (io path source)), false)
turbo_outcome f (err (invalid_profile s)) = (some (error_text f (invalid_profile s)), false)
turbo_outcome f (err (unsupported_profile policy profile available)) =
    (some (error_text f (unsupported_profile policy profile available)), false)

module _ (f : Format) {S : Type 0} (backend : PowerBackend S) where
  -- `if let Some(enabled) = turbo`
  unfoldable pub try_turbo : Option Bool → S → (Option String × Bool) × S
  unfolding turbo_outcome
  try_turbo none s = ((none, false), s)
  try_turbo (some enabled) s = let (r, s') = backend.set_turbo enabled s in (turbo_outcome f r, s')

  unfoldable pub reconcile_once : Option String → Option String → S → ReconcileReport × S
  unfolding try_turbo parse_profile_label parse_turbo_label
  reconcile_once profile_label turbo_label s =
      let (profile, profile_invalid) = parse_profile_label profile_label in
      let (turbo, turbo_invalid) = parse_turbo_label turbo_label in
      let (applied, s') = backend.apply profile s in
      let ((turbo_error, no_turbo), s'') = try_turbo turbo s' in
      (
        record {
          profile = profile;
          profile_invalid_value = profile_invalid;
          profile_apply_error = error_of f applied;
          turbo = turbo;
          turbo_invalid_value = turbo_invalid;
          turbo_apply_error = turbo_error;
          turbo_unsupported = no_turbo;
          backend_kind = backend.kind;
        },
        s'',
      )
