-- ===== src/Tests/EchoRuns.antt =====
-- The theorem about the echoes of the agent's patches, on a cluster of one node.
use k8s_power_management.Base.{ℕ, suc, ◌≡◌, ◌≤◌, inl, refl, none, some, [], ◌∷◌, arith}
use k8s_power_management.Base.Int.{pos}
use k8s_power_management.Profile.{
  PowerProfile, default, performance, balance_performance, balance_power, power, as_kernel_str,
}
use k8s_power_management.Backend.Interface.{Host, PowerBackend, kind_text}
use k8s_power_management.Backend.Detect.{fresh}
use k8s_power_management.Backend.Epp.{epp_backend, epp_value, apply, set_turbo, kind}
use k8s_power_management.Backend.Writes.{write_each}
use k8s_power_management.Agent.Status.{
  Annotations, get, Node, needs_patch, desired_annotations, patch_status, emit_events, events_of,
  publish_all,
}
use k8s_power_management.Agent.Reconcile.{
  reconcile_once, try_turbo, parse_profile_label, parse_turbo_label, result_label,
}
use k8s_power_management.Agent.Runtime.{AgentState, reconcile_node}
use k8s_power_management.Agent.Runtime.Echoes.{
  View, KeepsNodes, RefusesWhole, AnswersAlike, Watched, after, Handles, quietly, echoing,
  handlings_end,
}
use k8s_power_management.Tests.Hal.{recorder, intel_backend}
use k8s_power_management.Tests.AgentRuns.{text_format, cluster, cluster-Merges, node}
use k8s_power_management.Tests.LoopRuns.{registry, no_metrics, config}

abbrev size : Annotations → ℕ
size [] = 0
size (a ∷ s) = suc (size s)

abbrev view : View cluster
view = record { annotations = λ name s. s; version = λ name s. size s }

keeps : KeepsNodes cluster view
keeps name other e s = (refl, refl)

whole : RefusesWhole cluster view
whole name desired s = inl refl

abbrev recording : PowerBackend (Host recorder)
recording = epp_backend recorder intel_backend

alike : AnswersAlike recording
unfolding apply set_turbo write_each epp_value as_kernel_str
alike = (applied, λ b s t. refl)
  where
    applied :
        (p : PowerProfile) (s t : Host recorder) → (recording.apply p s).0 ≡ (recording.apply p t).0
    applied default s t = refl
    applied performance s t = refl
    applied balance_performance s t = refl
    applied balance_power s t = refl
    applied power s t = refl

abbrev agent : AgentState text_format registry cluster config recording
agent = record {
  machine = fresh recorder [];
  cluster = node.annotations;
  metrics = no_metrics;
  last_reconcile_unix = pos 0;
}

abbrev shown : Watched text_format registry cluster view config recording
shown = record { agent = agent; event = some node }

abbrev echoed : Watched text_format registry cluster view config recording
echoed =
    let b = after text_format registry cluster view config recording node (pos 1) (pos 2) shown in
    record { agent = b; event = some (record node { annotations = b.cluster }) }

-- The patch adds its four annotations.
patches :
    size
      (after text_format registry cluster view config recording node (pos 1) (pos 2) shown).cluster
    ≡ 5
unfolding reconcile_node patch_status needs_patch desired_annotations emit_events get publish_all
    events_of reconcile_once
patches = refl

echoes : Handles text_format registry cluster view config recording shown echoed
echoes = echoing node (pos 1) (pos 2) refl (λ e. (let five = patches in omega arith)) refl

abbrev echo : Node
echo = record node { annotations = echoed.agent.cluster }

abbrev rested : Watched text_format registry cluster view config recording
rested = record {
  agent = after text_format registry cluster view config recording echo (pos 3) (pos 4) echoed;
  event = none;
}

rests : Handles text_format registry cluster view config recording echoed rested
unfolding reconcile_node patch_status needs_patch desired_annotations emit_events get publish_all
    events_of apply set_turbo write_each epp_value as_kernel_str reconcile_once try_turbo
    parse_profile_label parse_turbo_label kind_text kind result_label
rests = quietly echo (pos 3) (pos 4) refl refl refl

handlings_end_example : 2 ≤ 2
handlings_end_example =
    handlings_end text_format registry cluster view config recording keeps cluster-Merges whole
      alike 2 shown rested (echoed, echoes, (rested, rests, refl))
