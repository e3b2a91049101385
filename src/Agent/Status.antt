-- ===== src/Agent/Status.antt =====
-- crates/power-agent/src/status.rs: the annotations and events that report a reconcile.
pub mod Laws
pub mod Events
use k8s_power_management.Base.{
  String, ◌<>◌, Bool, true, false, not, ◌&&◌, Option, none, some, List, [], ◌∷◌, ◌++◌, Result, ok,
  err, any, str_eq, if◌then◌else◌,
}
use k8s_power_management.Profile.{as_kernel_str}
use k8s_power_management.Backend.Interface.{kind_text}
use k8s_power_management.Agent.Reconcile.{ReconcileReport, result_label, is_unsupported}

-- A `BTreeMap<String, String>` by its entries.
abbrev pub Annotations : Type 0
Annotations = List (String × String)

-- `get`
unfoldable pub get : String → Annotations → Option String
get key [] = none
get key ((k, v) ∷ rest) = if str_eq k key then some v else get key rest

abbrev applied_turbo : Option Bool → Bool → String
applied_turbo (some true) no_turbo = "enabled"
applied_turbo (some false) no_turbo = "disabled"
applied_turbo none no_turbo = if no_turbo then "unsupported" else "unmanaged"

unfoldable pub desired_annotations : ReconcileReport → Annotations
desired_annotations report =
    ("cpu-power.io/applied-profile", as_kernel_str report.profile)
    ∷ ("cpu-power.io/applied-turbo", applied_turbo report.turbo report.turbo_unsupported)
    ∷ ("cpu-power.io/backend", kind_text report.backend_kind)
    ∷ ("cpu-power.io/status", result_label report)
    ∷ []

-- `current.get(key) != Some(value)`
abbrev differs : Option String → String → Bool
differs none value = true
differs (some v) value = not (str_eq v value)

unfoldable pub needs_patch : Annotations → Annotations → Bool
unfolding get
needs_patch current desired = any (λ (key, value). differs (get key current) value) desired

-- `kube::Error`, of which the agent uses only the text.
pub record KubeError : Type 0 where
  pub message : String

-- `k8s_openapi`'s `Node`, as far as the agent reads it.
pub record Node : Type 0 where
  pub name : String
  pub labels : Annotations
  pub annotations : Annotations

pub data EventType : Type 0 where
  normal warning : EventType

pub record K8sEvent : Type 0 where
  pub type_ : EventType
  pub reason : String
  pub note : String
  pub action : String

-- The calls of the Kubernetes client: a merge patch of a node's annotations, the read of a node,
-- and the publication of an event about a node.
pub record Client : Type 1 where
  pub State : Type 0
  pub patch : String → Annotations → State → Result (Unit {0}) KubeError × State
  pub get_opt : String → State → Result (Option Node) KubeError
  pub publish : String → K8sEvent → State → Result (Unit {0}) KubeError × State

abbrev event : EventType → String → String → K8sEvent
event t reason note = record {
  type_ = t;
  reason = reason;
  note = note;
  action = "ReconcilePowerState";
}

invalid_profile_events : Option String → List K8sEvent
invalid_profile_events none = []
invalid_profile_events (some invalid) =
    event warning "InvalidProfileLabel" (
      "'"
      <> (invalid <> "' is not a recognized cpu-power.io/profile value; falling back to default"))
    ∷ []

invalid_turbo_events : Option String → List K8sEvent
invalid_turbo_events none = []
invalid_turbo_events (some invalid) =
    event warning "InvalidTurboLabel" (
      "'"
      <> (invalid
          <> "' is not a valid cpu-power.io/turbo value (expected enabled/disabled); turbo left unmanaged"))
    ∷ []

profile_event : ReconcileReport → Option String → K8sEvent
profile_event report (some e) =
    event warning "ApplyFailed"
      ("failed to apply power profile " <> (as_kernel_str report.profile <> (": " <> e)))
profile_event report none =
    if is_unsupported report.backend_kind
    then event normal "ProfileUnsupported"
        "no cpufreq policies detected on this node; power management is a no-op here"
    else event normal "ProfileApplied" ("applied power profile " <> as_kernel_str report.profile)

turbo_events : Option String → Option Bool → List K8sEvent
turbo_events (some e) turbo =
    event warning "ApplyFailed" ("failed to apply turbo state: " <> e) ∷ []
turbo_events none none = []
turbo_events none (some enabled) =
    event normal "TurboApplied"
      ("turbo boost set to " <> (if enabled then "enabled" else "disabled"))
    ∷ []

-- The events that `emit_events` publishes, in order.
unfoldable pub events_of : ReconcileReport → List K8sEvent
unfolding invalid_profile_events invalid_turbo_events profile_event turbo_events
events_of report =
    invalid_profile_events report.profile_invalid_value
    ++ (invalid_turbo_events report.turbo_invalid_value
        ++ (profile_event report report.profile_apply_error
            ∷ turbo_events report.turbo_apply_error report.turbo))

module _ (client : Client) where
  unfoldable pub patch_status :
      Node → ReconcileReport → client.State → Result (Unit {0}) KubeError × client.State
  patch_status node report s =
      let desired = desired_annotations report in
      if not (needs_patch node.annotations desired)
      then (ok tt, s)
      else client.patch node.name desired s

  -- `publish`: a failure is logged and otherwise ignored.
  unfoldable pub publish_all : String → List K8sEvent → client.State → client.State
  publish_all name [] s = s
  publish_all name (e ∷ events) s = publish_all name events (client.publish name e s).1

  unfoldable pub emit_events : Node → ReconcileReport → client.State → client.State
  unfolding publish_all events_of
  emit_events node report s = publish_all node.name (events_of report) s
