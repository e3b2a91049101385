-- ===== src/Agent/Status/Laws.antt =====
-- Lemmas on crates/power-agent/src/status.rs: when `patch_status` sends a patch, and the
-- annotation about turbo.
use k8s_power_management.Base.{
  List, String, ◌≡◌, ◌≢◌, ◌↔◌, inl, inr, refl, sym, ◌∙◌, ap, Bool, true, false, Option, none, some,
  [], ◌∷◌, ok, All, All-map, arith, eq_iff, str_eq-cases, Bool-cases,
}
use k8s_power_management.Error.{Format}
use k8s_power_management.Backend.Interface.{PowerBackend}
use k8s_power_management.Agent.Reconcile.{
  ReconcileReport, reconcile_once, parse_turbo_label, try_turbo,
}
use k8s_power_management.Agent.Reconcile.Labels.{AsksTurbo, parse_turbo_label_lem}
use k8s_power_management.Agent.Status.{
  K8sEvent, publish_all, emit_events, events_of, Annotations, get, differs, applied_turbo,
  desired_annotations, needs_patch, Node, Client, patch_status,
}

differs_iff : (o : Option String) (v : String) → (differs o v ≡ false) ↔ (o ≡ some v)
differs_iff none v = (λ h. absurd (cc), λ h. absurd (cc))
differs_iff (some w) v = elim (str_eq-cases w v) [
  | inl (same, e) ↦ (λ _. ap some e, λ _. rw same)
  | inr (differ, n) ↦ (λ h. absurd (ground arith), λ h. absurd (n (cc)))
]

-- No patch is needed exactly when every desired annotation is there with its value.
pub needs_patch_iff :
    (current desired : Annotations)
    → (needs_patch current desired ≡ false) ↔ All (λ kv. get kv.0 current ≡ some kv.1) desired
unfolding needs_patch
needs_patch_iff current [] = (λ _. tt, λ _. refl)
needs_patch_iff current ((key, value) ∷ rest) =
    let one = differs_iff (get key current) value in
    let others = needs_patch_iff current rest in
    (
      λ h. (one.0 (ground arith), others.0 (ground arith)),
      λ (a, b).
          let x : differs (get key current) value ≡ false = one.1 a in
          let y : needs_patch current rest ≡ false = others.1 b in ground arith,
    )

-- What a merge patch promises of the annotations that the watch shows afterwards.
abbrev pub Merges : (client : Client) → (String → client.State → Annotations) → Type 0
Merges client view =
    (name : String) (desired : Annotations) (s : client.State)
    → (client.patch name desired s).0 ≡ ok tt
    → (key value : String) → get key desired ≡ some value
    → get key (view name (client.patch name desired s).1) ≡ some value

-- The four keys are different, so each is found with its value.
desired-get :
    (r : ReconcileReport)
    → All (λ kv. get kv.0 (desired_annotations r) ≡ some kv.1) (desired_annotations r)
unfolding desired_annotations get
desired-get r = (refl, (refl, (refl, (refl, tt))))

module _ (client : Client) where
  pub patch_status-skip :
      (node : Node) (report : ReconcileReport) (s : client.State)
      → needs_patch node.annotations (desired_annotations report) ≡ false
      → patch_status client node report s ≡ (ok tt, s)
  unfolding patch_status
  patch_status-skip node report s quiet = rw quiet

  pub patch_status-send :
      (node : Node) (report : ReconcileReport) (s : client.State)
      → needs_patch node.annotations (desired_annotations report) ≡ true
      → patch_status client node report s ≡ client.patch node.name (desired_annotations report) s
  unfolding patch_status
  patch_status-send node report s sends = rw sends

module _ (client : Client) {B : Type 0} (look : client.State → B)
    (blind : (name : String) (e : K8sEvent) (s : client.State)
      → look (client.publish name e s).1 ≡ look s) where
  unseen-publish_all :
      (name : String) (events : List K8sEvent) (s : client.State)
      → look (publish_all client name events s) ≡ look s
  unfolding publish_all
  unseen-publish_all name [] s = refl
  unseen-publish_all name (e ∷ events) s =
      unseen-publish_all name events (client.publish name e s).1 ∙ blind name e s

  -- Whatever no publication changes, the events of a report do not change.
  pub unseen-emit_events :
      (node : Node) (report : ReconcileReport) (s : client.State)
      → look (emit_events client node report s) ≡ look s
  unfolding emit_events
  unseen-emit_events node report s = unseen-publish_all node.name (events_of report) s

module _ (client : Client) (view : String → client.State → Annotations)
    (merges : Merges client view) where
  -- Once a patch was sent and answered well, the desired annotations are there.
  pub patch_status-quiets :
      (node : Node) (report : ReconcileReport) (s : client.State)
      → needs_patch node.annotations (desired_annotations report) ≡ true
      → (patch_status client node report s).0 ≡ ok tt
      → needs_patch
          (view node.name (patch_status client node report s).1)
          (desired_annotations report)
        ≡ false
  patch_status-quiets node report s sends good =
      let sent = patch_status-send client node report s sends in
      ap (λ t. needs_patch (view node.name t) (desired_annotations report)) (ap (λ r. r.1) sent)
      ∙ (needs_patch_iff _ (desired_annotations report)).1 (
          All-map _ _
            (λ kv found.
              merges node.name (desired_annotations report) s (ap (λ r. r.0) (sym sent) ∙ good) kv.0
                kv.1 found)
            (desired_annotations report) (desired-get report))

  -- After a `patch_status` that ends well, the same report on the node as the watch then shows it
  -- sends no patch: the agent does not wake itself up again.
  patch_status_settles :
      (node : Node) (report : ReconcileReport) (s : client.State)
      → view node.name s ≡ node.annotations
      → (patch_status client node report s).0 ≡ ok tt
      → let s' = (patch_status client node report s).1 in
        patch_status client (record node { annotations = view node.name s' }) report s'
        ≡ (ok tt, s')
  patch_status_settles node report s current good =
      patch_status-skip client _ report _
        (elim (Bool-cases (needs_patch node.annotations (desired_annotations report))) [
          | inr quiet ↦
              ap (λ t. needs_patch (view node.name t) (desired_annotations report))
                (ap (λ r. r.1) (patch_status-skip client node report s quiet))
              ∙ ap (λ a. needs_patch a (desired_annotations report)) current
              ∙ quiet
          | inl sends ↦ patch_status-quiets node report s sends good
        ])

-- The annotation for a label that asks for this.
abbrev plain : Option Bool → String
plain none = "unmanaged"
plain (some true) = "enabled"
plain (some false) = "disabled"

plain-asked :
    (label : Option String) (b : Bool) → AsksTurbo label (some b) → some (plain (some b)) ≡ label
plain-asked none b asks = absurd (cc)
plain-asked (some s) true asks = ap some (sym asks)
plain-asked (some s) false asks = ap some (sym asks)

plain-ne-unsupported : (t : Option Bool) → plain t ≢ "unsupported"
plain-ne-unsupported none = ground (arith, eq_iff "unmanaged" "unsupported")
plain-ne-unsupported (some true) = ground (arith, eq_iff "enabled" "unsupported")
plain-ne-unsupported (some false) = ground (arith, eq_iff "disabled" "unsupported")

applied-try_turbo :
    (f : Format) {S : Type 0} (backend : PowerBackend S) (t : Option Bool) (s : S)
    → applied_turbo t (try_turbo f backend t s).0.1 ≡ plain t
unfolding try_turbo
applied-try_turbo f backend none s = refl
applied-try_turbo f backend (some true) s = refl
applied-try_turbo f backend (some false) s = refl

module _ (f : Format) {S : Type 0} (backend : PowerBackend S)
    (profile_label turbo_label : Option String) (s : S) where
  abbrev turbo_annotation : Option String
  turbo_annotation =
      get "cpu-power.io/applied-turbo"
        (desired_annotations (reconcile_once f backend profile_label turbo_label s).0)

  turbo_annotation-eq : turbo_annotation ≡ some (plain (parse_turbo_label turbo_label).0)
  unfolding reconcile_once desired_annotations get
  turbo_annotation-eq = ap some (applied-try_turbo f backend (parse_turbo_label turbo_label).0 _)

  -- Whatever the backend answers, the annotation `applied-turbo` repeats a turbo label that asks for
  -- a state, and is `unmanaged` for a label that does not. So it is never `unsupported`, also where
  -- the backend has no knob for turbo.
  pub turbo_annotation_never_unsupported :
      ((enabled : Bool) → AsksTurbo turbo_label (some enabled) → turbo_annotation ≡ turbo_label)
      × (turbo_annotation ≢ some "unsupported")
  turbo_annotation_never_unsupported = (
    λ enabled asks.
        turbo_annotation-eq
        ∙ ap (λ r. some (plain r.0)) ((parse_turbo_label_lem turbo_label).0 (some enabled) asks)
        ∙ plain-asked turbo_label enabled asks,
    λ e. plain-ne-unsupported _ (some_inj (sym turbo_annotation-eq ∙ e)),
  )
    where
      some_inj : {a b : String} → ◌≡◌ {A = Option String} (some a) (some b) → a ≡ b
      some_inj e = cc
