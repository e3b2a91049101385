-- ===== src/Tests/AgentRuns.antt =====
-- The theorems about crates/power-agent/src and crates/pstate-cli/src, on that host.
use k8s_power_management.Base.{
  String, ◌≡◌, ◌≢◌, ◌↔◌, ◌⊎◌, inl, inr, refl, sym, subst, Bool, true, false, none, some, [], ◌∷◌,
  ◌++◌, ok, err, All, In, str_eq-cases,
}
use k8s_power_management.FilePath.{join}
use k8s_power_management.Error.{turbo_unsupported, Format}
use k8s_power_management.Profile.{power, as_kernel_str, from_str}
use k8s_power_management.Sysfs.Rooted.{write, resolve}
use k8s_power_management.Sysfs.Memory.{FilePath_discrete}
use k8s_power_management.Backend.Interface.{
  intel, Host, PowerBackend, BackendKind, unknown, unsupported,
}
use k8s_power_management.Backend.Writes.{write_each}
use k8s_power_management.Backend.Epp.{EppBackend, epp_path, epp_value, epp_backend, kind}
use k8s_power_management.Backend.Epp as Epp
use k8s_power_management.Backend.Epp.Turbo.{turbo_allowed}
use k8s_power_management.Backend.Detect.{detect_backend, methods, epp}
use k8s_power_management.Backend.Detect.Laws.{Enforced}
use k8s_power_management.Agent.Reconcile.{
  try_turbo, turbo_outcome, ReconcileReport, reconcile_once, result_label, parse_profile_label,
  parse_turbo_label,
}
use k8s_power_management.Agent.Reconcile.Labels.{
  AsksProfile, SpellsNoProfile, AsksTurbo, SpellsNoTurbo,
}
use k8s_power_management.Agent.Reconcile.Laws.{IsFine, result_label-ok_iff}
use k8s_power_management.Agent.Reconcile.Delivery.{
  reconcile_once-delivers, reconcile_once-delivers_both,
}
use k8s_power_management.Agent.Status.{
  Annotations, get, desired_annotations, Node, Client, events_of, normal,
}
use k8s_power_management.Agent.Status.Laws.{Merges, turbo_annotation_never_unsupported}
use k8s_power_management.Agent.Status.Events.{
  events-normal_iff, turbo_applied, turbo_applied_though_unsupported,
}
use k8s_power_management.Tests.{machine, disk}
use k8s_power_management.Tests.Host.{own, lawful, both}
use k8s_power_management.Tests.Hal.{intel_backend, start, detected}

abbrev pub text_format : Format
text_format = record { display_path = λ p. "a path"; debug_texts = λ l. "values" }

abbrev pub backend : PowerBackend (Host machine)
backend = epp_backend machine intel_backend

-- The same policies on a host whose driver no vendor claims.
abbrev other_backend : PowerBackend (Host machine)
other_backend = epp_backend machine (record { policies = both; vendor = unknown })

-- A cluster of one node, by its annotations.
abbrev pub cluster : Client
cluster = record {
  State = Annotations;
  patch = λ name desired s. (ok tt, desired ++ s);
  get_opt = λ name s. ok none;
  publish = λ name e s. (ok tt, s);
}

get-append :
    (key value : String) (desired s : Annotations)
    → get key desired ≡ some value
    → get key (desired ++ s) ≡ some value
unfolding get
get-append key value [] s e = absurd (cc)
get-append key value ((k, v) ∷ rest) s e = elim (str_eq-cases k key) [
  | inl (same, _) ↦ rw (same) (rw (same) at e)
  | inr (differ, _) ↦ rw (differ) (get-append key value rest s (rw (differ) at e))
]

pub cluster-Merges : Merges cluster (λ name s. s)
cluster-Merges name desired s done key value e = get-append key value desired s e

asks_power : AsksProfile (some "power") power
unfolding as_kernel_str
asks_power = refl

result_label-ok_iff_example :
    let r = (reconcile_once text_format backend (some "power") (some "enabled") start).0 in
    let applied = backend.apply r.profile start in
    (result_label r ≡ "ok") ↔ (
      (¬ SpellsNoProfile (some "power"))
      × (¬ SpellsNoTurbo (some "enabled"))
      × (applied.0 ≡ ok tt)
      × ((enabled : Bool) → r.turbo ≡ some enabled → IsFine (backend.set_turbo enabled applied.1).0)
      × (backend.kind ≢ unsupported))
result_label-ok_iff_example =
    result_label-ok_iff text_format backend start (some "power") (some "enabled")

pub delivered :
    result_label
      (reconcile_once text_format (methods machine (epp intel_backend)) (some "power") none start).0
    ≡ "ok"
unfolding result_label reconcile_once Epp.apply write_each epp_value as_kernel_str epp_path write
    FilePath_discrete join resolve from_str parse_profile_label parse_turbo_label kind
delivered = refl

reconcile_once-delivers_example :
    let b = detect_backend machine disk in
    let r = reconcile_once text_format (methods machine b) (some "power") none start in
    ((methods machine b).kind ≢ unsupported) × Enforced machine b power r.1.files
reconcile_once-delivers_example =
    reconcile_once-delivers machine lawful text_format (some "power") power disk start asks_power (
      subst
        (λ b.
          result_label (reconcile_once text_format (methods machine b) (some "power") none start).0
          ≡ "ok")
        (sym detected) delivered)

abbrev pub report : ReconcileReport
report = record {
  profile = power;
  profile_invalid_value = none;
  profile_apply_error = none;
  turbo = some true;
  turbo_invalid_value = some "on";
  turbo_apply_error = none;
  turbo_unsupported = false;
  backend_kind = BackendKind.amd_epp;
}

abbrev pub node : Node
node = record { name = "n1"; labels = []; annotations = ("a", "b") ∷ [] }

turbo_annotation_never_unsupported_example :
    let annotation = get "cpu-power.io/applied-turbo" (
      desired_annotations
        (reconcile_once text_format other_backend none (some "enabled") start).0) in
    ((enabled : Bool) → AsksTurbo (some "enabled") (some enabled) → annotation ≡ some "enabled")
    × (annotation ≢ some "unsupported")
turbo_annotation_never_unsupported_example =
    turbo_annotation_never_unsupported text_format other_backend none (some "enabled") start

events-normal_iff_example :
    All (λ e. e.type_ ≡ normal) (events_of report)
    ↔ ((result_label report ≡ "ok") ⊎ (result_label report ≡ "unsupported"))
events-normal_iff_example = events-normal_iff report

refuses : (t : Host machine) → (other_backend.set_turbo true t).0 ≡ err turbo_unsupported
unfolding Epp.set_turbo
refuses t = refl

turbo_applied_though_unsupported_example :
    In
      (turbo_applied true)
      (events_of (reconcile_once text_format other_backend none (some "enabled") start).0)
turbo_applied_though_unsupported_example =
    turbo_applied_though_unsupported text_format other_backend none (some "enabled") true start refl
      refuses

both_delivered :
    result_label (reconcile_once text_format backend (some "power") (some "disabled") start).0
    ≡ "ok"
unfolding result_label reconcile_once Epp.apply write_each epp_value as_kernel_str epp_path write
    FilePath_discrete join resolve from_str parse_profile_label parse_turbo_label kind Epp.set_turbo
    turbo_outcome try_turbo
both_delivered = refl

reconcile_once-delivers_both_example :
    let r = reconcile_once text_format backend (some "power") (some "disabled") start in
    All (λ q. machine.read_to_string (epp_path q) r.1.files ≡ ok (as_kernel_str power)) both
    × (intel ≢ unknown → turbo_allowed machine intel r.1.files ≡ some false)
reconcile_once-delivers_both_example =
    reconcile_once-delivers_both machine lawful text_format intel_backend (some "power")
      (some "disabled") power false start own asks_power refl both_delivered
