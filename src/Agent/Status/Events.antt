-- ===== src/Agent/Status/Events.antt =====
-- Lemmas on `emit_events` of crates/power-agent/src/status.rs.
use k8s_power_management.Base.{
  String, ◌<>◌, ◌≡◌, ◌↔◌, ◌⊎◌, inl, inr, refl, ap, Bool, true, false, Option, none, some, List, [],
  ◌∷◌, ◌++◌, err, All, Bool-cases, ◌||◌, In, arith, eq_iff, if◌then◌else◌,
}
use k8s_power_management.Error.{PowerError, Format}
use k8s_power_management.Backend.Interface.{PowerBackend}
use k8s_power_management.Agent.Reconcile.{
  ReconcileReport, reconcile_once, parse_profile_label, parse_turbo_label, result_label, is_some,
  is_unsupported, try_turbo, turbo_outcome,
}
use k8s_power_management.Agent.Reconcile.Labels.{AsksTurbo, parse_turbo_label_lem}
use k8s_power_management.Agent.Status.{
  K8sEvent, normal, warning, event, events_of, turbo_events, profile_event, invalid_profile_events,
  invalid_turbo_events,
}

In-append_right : {A : Type 0} (a : A) (xs ys : List A) → In a ys → In a (xs ++ ys)
In-append_right a [] ys m = m
In-append_right a (x ∷ xs) ys m = inr (In-append_right a xs ys m)

-- The four things that can go wrong are all absent.
abbrev Untroubled : Option String → Option String → Option String → Option String → Type 0
Untroubled a b c d = (a ≡ none) × (b ≡ none) × (c ≡ none) × (d ≡ none)

clash : warning ≡ normal → ⊥
clash e = cc

some_clash : {t : String} → ◌≡◌ {A = Option String} (some t) none → ⊥
some_clash e = cc

turbo_events-normal : (t : Option Bool) → All (λ e. e.type_ ≡ normal) (turbo_events none t)
unfolding turbo_events
turbo_events-normal none = tt
turbo_events-normal (some b) = (refl, tt)

profile_event-normal : (r : ReconcileReport) → (profile_event r none).type_ ≡ normal
unfolding profile_event
profile_event-normal r = elim (Bool-cases (is_unsupported r.backend_kind)) [
  | inl u ↦ rw (u, profile_event)
  | inr u ↦ rw (u, profile_event)
]

-- The events of a report with these four values.
Untroubled-events :
    (r : ReconcileReport) (t : Option Bool) (a b c d : Option String)
    → All
        (λ e. e.type_ ≡ normal)
        (invalid_profile_events a
          ++ (invalid_turbo_events b ++ (profile_event r c ∷ turbo_events d t)))
      ↔ Untroubled a b c d
unfolding invalid_profile_events invalid_turbo_events profile_event turbo_events
Untroubled-events r t (some x) b c d = (λ h. absurd (clash h.0), λ h. absurd (some_clash h.0))
Untroubled-events r t none (some x) c d = (λ h. absurd (clash h.0), λ h. absurd (some_clash h.1))
Untroubled-events r t none none (some x) d = (λ h. absurd (clash h.0), λ h. absurd (some_clash h.2))
Untroubled-events r t none none none (some x) =
    (λ h. absurd (clash h.1.0), λ h. absurd (some_clash h.3))
Untroubled-events r t none none none none =
    (λ _. (refl, refl, refl, refl), λ _. (profile_event-normal r, turbo_events-normal t))

abbrev IsQuiet : String → Type 0
IsQuiet status = (status ≡ "ok") ⊎ (status ≡ "unsupported")

not-IsQuiet : (¬ IsQuiet "error") × (¬ IsQuiet "invalid_label")
not-IsQuiet = (
  elim [
    | inl e ↦ ground (arith, eq_iff "error" "ok")
    | inr e ↦ ground (arith, eq_iff "error" "unsupported")
  ],
  elim [
    | inl e ↦ ground (arith, eq_iff "invalid_label" "ok")
    | inr e ↦ ground (arith, eq_iff "invalid_label" "unsupported")
  ],
)

Untroubled-status :
    (a b c d : Option String) (u : Bool)
    → IsQuiet (
        if is_some c || is_some d
        then "error"
        else if is_some a || is_some b
        then "invalid_label"
        else if u
        then "unsupported"
        else "ok")
      ↔ Untroubled a b c d
Untroubled-status a b (some x) d u = (λ h. absurd (not-IsQuiet.0 h), λ h. absurd (some_clash h.2))
Untroubled-status a b none (some x) u =
    (λ h. absurd (not-IsQuiet.0 h), λ h. absurd (some_clash h.3))
Untroubled-status (some x) b none none u =
    (λ h. absurd (not-IsQuiet.1 h), λ h. absurd (some_clash h.0))
Untroubled-status none (some x) none none u =
    (λ h. absurd (not-IsQuiet.1 h), λ h. absurd (some_clash h.1))
Untroubled-status none none none none true = (λ _. (refl, refl, refl, refl), λ _. inr refl)
Untroubled-status none none none none false = (λ _. (refl, refl, refl, refl), λ _. inl refl)

-- Every event is a normal one exactly when the status annotation is `ok` or `unsupported`.
pub events-normal_iff :
    (r : ReconcileReport)
    → All (λ e. e.type_ ≡ normal) (events_of r)
      ↔ ((result_label r ≡ "ok") ⊎ (result_label r ≡ "unsupported"))
unfolding events_of result_label
events-normal_iff r =
    let events =
      Untroubled-events r r.turbo r.profile_invalid_value r.turbo_invalid_value
        r.profile_apply_error r.turbo_apply_error in
    let status =
      Untroubled-status r.profile_invalid_value r.turbo_invalid_value r.profile_apply_error
        r.turbo_apply_error (is_unsupported r.backend_kind) in
    (λ h. status.1 (events.0 h), λ h. events.1 (status.0 h))

turbo_events-applied :
    (f : Format) {S : Type 0} (backend : PowerBackend S) (t : Option Bool) (enabled : Bool) (s : S)
    → t ≡ some enabled
    → (backend.set_turbo enabled s).0 ≡ err PowerError.turbo_unsupported
    → turbo_events (try_turbo f backend t s).0.0 t
      ≡ event normal "TurboApplied"
          ("turbo boost set to " <> (if enabled then "enabled" else "disabled"))
        ∷ []
unfolding try_turbo turbo_events turbo_outcome
turbo_events-applied f backend none enabled s e refused = absurd (cc)
turbo_events-applied f backend (some b) enabled s e refused =
    let same : b ≡ enabled = cc in rw (same, refused, turbo_outcome)

In-events_of :
    (r : ReconcileReport) (e : K8sEvent)
    → In e (turbo_events r.turbo_apply_error r.turbo)
    → In e (events_of r)
unfolding events_of
In-events_of r e m =
    let rest : List K8sEvent =
      profile_event r r.profile_apply_error ∷ turbo_events r.turbo_apply_error r.turbo in
    In-append_right e (invalid_profile_events r.profile_invalid_value)
      (invalid_turbo_events r.turbo_invalid_value ++ rest)
      (In-append_right e (invalid_turbo_events r.turbo_invalid_value) rest (inr m))

-- The event that says that a turbo state was applied.
abbrev pub turbo_applied : Bool → K8sEvent
turbo_applied enabled = record {
  type_ = normal;
  reason = "TurboApplied";
  note = "turbo boost set to " <> (if enabled then "enabled" else "disabled");
  action = "ReconcilePowerState";
}

turbo_of_report :
    (f : Format) {S : Type 0} (backend : PowerBackend S) (pl tl : Option String) (s : S)
    → (reconcile_once f backend pl tl s).0.turbo ≡ (parse_turbo_label tl).0
unfolding reconcile_once
turbo_of_report f backend pl tl s = refl

turbo_error_of_report :
    (f : Format) {S : Type 0} (backend : PowerBackend S) (pl tl : Option String) (s : S)
    → (reconcile_once f backend pl tl s).0.turbo_apply_error
      ≡ (try_turbo f backend
          (parse_turbo_label tl).0
          (backend.apply (parse_profile_label pl).0 s).1).0.0
unfolding reconcile_once
turbo_error_of_report f backend pl tl s = refl

-- Where the label asks for a turbo state and the backend answers that turbo is unsupported, the
-- event `TurboApplied` is published all the same, with the state that was asked for.
pub turbo_applied_though_unsupported :
    (f : Format) {S : Type 0} (backend : PowerBackend S) (profile_label turbo_label : Option String)
    (enabled : Bool) (s : S)
    → AsksTurbo turbo_label (some enabled)
    → ((t : S) → (backend.set_turbo enabled t).0 ≡ err PowerError.turbo_unsupported)
    → In
        (turbo_applied enabled)
        (events_of (reconcile_once f backend profile_label turbo_label s).0)
turbo_applied_though_unsupported f {S = S} backend pl tl enabled s asks refuses =
    let t : (parse_turbo_label tl).0 ≡ some enabled =
      ap (λ r. r.0) ((parse_turbo_label_lem tl).0 (some enabled) asks) in
    let s' : S = (backend.apply (parse_profile_label pl).0 s).1 in
    In-events_of (reconcile_once f backend pl tl s).0 (turbo_applied enabled) (
      rw
        (
          turbo_of_report f backend pl tl s,
          turbo_error_of_report f backend pl tl s,
          turbo_events-applied f backend (parse_turbo_label tl).0 enabled s' t (refuses s'),
        )
        (inl refl))
