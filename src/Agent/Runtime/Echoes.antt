-- ===== src/Agent/Runtime/Echoes.antt =====
-- The agent watches the node that it patches: each patch of crates/power-agent/src/status.rs comes
-- back to the loop of crates/power-agent/src/reconcile.rs as an event of the watch stream.
use k8s_power_management.Base.{
  ℕ, zero, suc, ◌≤◌, String, ◌≡◌, ◌≢◌, ◌⊎◌, inl, inr, refl, sym, ◌∙◌, ap, subst, Bool, true, false,
  Bool-cases, Option, none, some, ok, arith,
}
use k8s_power_management.Base.Int.{ℤ}
use k8s_power_management.Error.{Format}
use k8s_power_management.Profile.{PowerProfile}
use k8s_power_management.Backend.Interface.{PowerBackend}
use k8s_power_management.Agent.Config.{Config}
use k8s_power_management.Agent.Reconcile.{
  ReconcileReport, reconcile_once, try_turbo, turbo_outcome, parse_profile_label, parse_turbo_label,
}
use k8s_power_management.Agent.Status.{
  Annotations, Node, Client, K8sEvent, desired_annotations, needs_patch, patch_status,
}
use k8s_power_management.Agent.Status.Laws.{
  Merges, patch_status-quiets, patch_status-skip, patch_status-send, unseen-emit_events,
}
use k8s_power_management.Agent.Metrics.{Prometheus}
use k8s_power_management.Agent.Runtime.{AgentState, reconcile_node, report_for}

-- What the watch shows of a node: its annotations, and the version that every change of it raises.
pub record View (client : Client) : Type 0 where
  pub annotations : String → client.State → Annotations
  pub version : String → client.State → ℕ

-- An event that is published changes neither the annotations nor the version of a node.
abbrev pub KeepsNodes : (client : Client) → View client → Type 0
KeepsNodes client view =
    (name other : String) (e : K8sEvent) (s : client.State)
    → (view.annotations name (client.publish other e s).1 ≡ view.annotations name s)
      × (view.version name (client.publish other e s).1 ≡ view.version name s)

-- A patch that is answered with an error has not changed the node.
abbrev pub RefusesWhole : (client : Client) → View client → Type 0
RefusesWhole client view =
    (name : String) (desired : Annotations) (s : client.State)
    → ((client.patch name desired s).0 ≡ ok tt)
      ⊎ (view.version name (client.patch name desired s).1 ≡ view.version name s)

-- What the backend answers does not depend on the state of the machine.
abbrev pub AnswersAlike : {S : Type 0} → PowerBackend S → Type 0
AnswersAlike {S} backend =
    ((p : PowerProfile) (s t : S) → (backend.apply p s).0 ≡ (backend.apply p t).0)
    × ((b : Bool) (s t : S) → (backend.set_turbo b s).0 ≡ (backend.set_turbo b t).0)

module _ (f : Format) {S : Type 0} (backend : PowerBackend S) (alike : AnswersAlike backend) where
  try_turbo-alike :
      (o : Option Bool) (s t : S) → (try_turbo f backend o s).0 ≡ (try_turbo f backend o t).0
  unfolding try_turbo
  try_turbo-alike none s t = refl
  try_turbo-alike (some b) s t = ap (turbo_outcome f) (alike.1 b s t)

  reconcile_once-alike :
      (pl tl : Option String) (s t : S)
      → (reconcile_once f backend pl tl s).0 ≡ (reconcile_once f backend pl tl t).0
  unfolding reconcile_once
  reconcile_once-alike pl tl s t =
      let p = (parse_profile_label pl).0 in
      let applied = alike.0 p s t in
      let tried =
        try_turbo-alike (parse_turbo_label tl).0 (backend.apply p s).1 (backend.apply p t).1 in
      ground arith

module _ (f : Format) (P : Prometheus) (client : Client) (view : View client) {S : Type 0}
    (config : Config) (backend : PowerBackend S) where
  -- The agent, and the node of the event that the watch stream has for it.
  pub record Watched : Type 0 where
    pub agent : AgentState f P client config backend
    pub event : Option Node

  abbrev report_on : Node → Watched → ReconcileReport
  report_on node w = (report_for f P client config backend node w.agent.machine).0

  abbrev pub after : Node → ℤ → ℤ → Watched → AgentState f P client config backend
  after node observed now w = reconcile_node f P client config backend node observed now w.agent

  -- The agent handles the event. Where the version of the node is then another one, the stream has the
  -- node again, as the cluster now shows it, and else nothing.
  pub data Handles (w : Watched) (w' : Watched) : Type 0 where
    quietly :
        (node : Node) (observed now : ℤ)
        → w.event ≡ some node
        → view.version node.name (after node observed now w).cluster
          ≡ view.version node.name w.agent.cluster
        → w' ≡ record { agent = after node observed now w; event = none }
        → Handles w w'
    echoing :
        (node : Node) (observed now : ℤ)
        → w.event ≡ some node
        → view.version node.name (after node observed now w).cluster
          ≢ view.version node.name w.agent.cluster
        → w' ≡ record {
          agent = after node observed now w;
          event = some (record node {
            annotations = view.annotations node.name (after node observed now w).cluster;
          });
        }
        → Handles w w'

  -- A run of `n` handlings, with nothing else in between.
  abbrev pub HandlesTimes : ℕ → Watched → Watched → Type 0
  HandlesTimes zero w w' = w ≡ w'
  HandlesTimes (suc n) w w' = (v : Watched) × Handles w v × HandlesTimes n v w'

  -- The event, if there is one, needs no patch.
  IsCalm : Watched → Type 0
  IsCalm w =
      (node : Node)
      → w.event ≡ some node
      → needs_patch node.annotations (desired_annotations (report_on node w)) ≡ false

  Handles-none : (w w' : Watched) → w.event ≡ none → ¬ Handles w w'
  Handles-none w w' none_left (quietly node observed now e same next) = absurd (cc)
  Handles-none w w' none_left (echoing node observed now e moved next) = absurd (cc)

  module _ (keeps : KeepsNodes client view) where
    -- The version behind a reconcile is the one behind its patch.
    after-version :
        (node : Node) (observed now : ℤ) (w : Watched)
        → view.version node.name (after node observed now w).cluster
          ≡ view.version node.name (patch_status client node (report_on node w) w.agent.cluster).1
    unfolding reconcile_node
    after-version node observed now w =
        unseen-emit_events client (view.version node.name)
          (λ other e s. (keeps node.name other e s).1) node (report_on node w)
          (patch_status client node (report_on node w) w.agent.cluster).1

    Handles-IsCalm : (w w' : Watched) → IsCalm w → Handles w w' → w'.event ≡ none
    unfolding IsCalm
    Handles-IsCalm w w' calm (quietly node observed now e same next) = ap (λ x. x.event) next
    Handles-IsCalm w w' calm (echoing node observed now e moved next) = absurd (
        moved (
          after-version node observed now w
          ∙ ap (λ r. view.version node.name r.1)
              (patch_status-skip client node (report_on node w) w.agent.cluster (calm node e))))

    module _ (merges : Merges client view.annotations) (whole : RefusesWhole client view)
        (alike : AnswersAlike backend) where
      -- A reconcile behind which the version is another one has sent its patch, and that was taken.
      moved-sent :
          (node : Node) (observed now : ℤ) (w : Watched)
          → view.version node.name (after node observed now w).cluster
            ≢ view.version node.name w.agent.cluster
          → (needs_patch node.annotations (desired_annotations (report_on node w)) ≡ true)
            × ((patch_status client node (report_on node w) w.agent.cluster).0 ≡ ok tt)
      moved-sent node observed now w moved =
          let r = report_on node w in
          let s = w.agent.cluster in
          elim (Bool-cases (needs_patch node.annotations (desired_annotations r))) [
            | inr calm ↦ absurd (
                moved (
                  after-version node observed now w
                  ∙ ap (λ x. view.version node.name x.1) (patch_status-skip client node r s calm)))
            | inl sends ↦
                let sent = patch_status-send client node r s sends in
                (
                  sends,
                  elim (whole node.name (desired_annotations r) s) [
                    | inl good ↦ ap (λ x. x.0) sent ∙ good
                    | inr same ↦ absurd (
                        moved (
                          after-version node observed now w
                          ∙ ap (λ x. view.version node.name x.1) sent
                          ∙ same))
                  ],
                )
          ]

      -- The annotations that come back after a patch are those of the report.
      echo_quiet :
          (node : Node) (observed now : ℤ) (w : Watched)
          → view.version node.name (after node observed now w).cluster
            ≢ view.version node.name w.agent.cluster
          → needs_patch
              (view.annotations node.name (after node observed now w).cluster)
              (desired_annotations (report_on node w))
            ≡ false
      unfolding reconcile_node
      echo_quiet node observed now w moved =
          let r = report_on node w in
          let (sends, good) = moved-sent node observed now w moved in
          ap (λ a. needs_patch a (desired_annotations r))
            (unseen-emit_events client (view.annotations node.name)
              (λ other e s. (keeps node.name other e s).0) node r
              (patch_status client node r w.agent.cluster).1)
          ∙ patch_status-quiets client view.annotations merges node r w.agent.cluster sends good

      Handles-calms : (w w' : Watched) → Handles w w' → IsCalm w'
      unfolding IsCalm
      Handles-calms w w' (quietly node observed now e same next) other there =
          absurd (let gone : w'.event ≡ none = ap (λ x. x.event) next in cc)
      Handles-calms w w' (echoing node observed now e moved next) other there =
          let annotations = view.annotations node.name (after node observed now w).cluster in
          let echo : Node = record node { annotations = annotations } in
          let shown : w'.event ≡ some echo = ap (λ x. x.event) next in
          let same : other ≡ echo = cc in
          subst (λ n. needs_patch n.annotations (desired_annotations (report_on n w')) ≡ false)
            (sym same)
            (ap (λ r. needs_patch annotations (desired_annotations r))
                (reconcile_once-alike f backend alike _ _ w'.agent.machine w.agent.machine)
              ∙ echo_quiet node observed now w moved)

      -- No hot loop: whatever node the agent is shown, the changes that its own reconciles make to the
      -- node make it reconcile at most once more. Of a backend whose answers do not depend on the state,
      -- over a client whose merge patches are taken whole or not at all and whose publications leave the
      -- nodes alone, three handlings in a row are impossible.
      pub handlings_end : (n : ℕ) (w w' : Watched) → HandlesTimes n w w' → n ≤ 2
      handlings_end zero w w' run = omega arith
      handlings_end (suc zero) w w' run = omega arith
      handlings_end (suc (suc zero)) w w' run = omega arith
      handlings_end (suc (suc (suc n))) w w' (u, first, (v, second, (x, third, rest))) =
          absurd (Handles-none v x (Handles-IsCalm u v (Handles-calms w u first) second) third)
