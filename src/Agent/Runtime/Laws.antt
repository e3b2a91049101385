-- ===== src/Agent/Runtime/Laws.antt =====
-- Lemmas on the loop `Runtime::run` of crates/power-agent/src/reconcile.rs.
use k8s_power_management.Base.{
  ◌≡◌, ◌↔◌, inl, inr, refl, Bool, true, Option, none, some, List, [], ◌∷◌, Result, ok, err, In, All,
}
use k8s_power_management.Base.Int.{ℤ, ◌≤ℤ◌}
use k8s_power_management.Error.{Format}
use k8s_power_management.Backend.Interface.{PowerBackend}
use k8s_power_management.Agent.Config.{Config}
use k8s_power_management.Agent.Status.{Client, Node, KubeError}
use k8s_power_management.Agent.Metrics.{Prometheus, observe}
use k8s_power_management.Agent.Runtime.{
  Occurrence, watch_node, watch_ended, watch_failed, resync_tick, AgentState, reconcile_node,
  resynced, run,
}

abbrev pub what : List (Occurrence × ℤ × ℤ) → List Occurrence
what [] = []
what ((o, observed, now) ∷ rest) = o ∷ what rest

module _ (f : Format) (P : Prometheus) (client : Client) {S : Type 0} (config : Config)
    (backend : PowerBackend S) where
  abbrev loop :
      List (Occurrence × ℤ × ℤ)
      → AgentState f P client config backend
      → AgentState f P client config backend × Bool
  loop = run f P client config backend

  -- The loop ends exactly when the watch stream has ended: no failure of the stream, of a resync or
  -- of a reconcile ends it.
  pub run-ends_iff :
      (occurrences : List (Occurrence × ℤ × ℤ)) (a : AgentState f P client config backend)
      → ((run f P client config backend occurrences a).1 ≡ true) ↔ In watch_ended (what occurrences)
  unfolding run
  run-ends_iff [] a = (λ e. absurd (cc), λ m. absurd m)
  run-ends_iff ((watch_ended, observed, now) ∷ rest) a = (λ _. inl refl, λ _. refl)
  run-ends_iff ((watch_node node, observed, now) ∷ rest) a =
      let law = run-ends_iff rest (reconcile_node f P client config backend node observed now a) in
      (λ e. inr (law.0 e), elim [ inl e ↦ absurd (cc) | inr m ↦ law.1 m ])
  run-ends_iff ((watch_failed x, observed, now) ∷ rest) a =
      let law = run-ends_iff rest a in
      (λ e. inr (law.0 e), elim [ inl e ↦ absurd (cc) | inr m ↦ law.1 m ])
  run-ends_iff ((resync_tick, observed, now) ∷ rest) a =
      let law = run-ends_iff rest (
        resynced f P client config backend (client.get_opt config.node_name a.cluster) observed now
          a) in
      (λ e. inr (law.0 e), elim [ inl e ↦ absurd (cc) | inr m ↦ law.1 m ])

  -- The time that `/healthz` reads is not before the one that the metrics show.
  abbrev Agrees : AgentState f P client config backend → Type 0
  Agrees a = a.metrics.last_reconcile_timestamp ≤ℤ a.last_reconcile_unix

  reconcile_node-Agrees :
      (node : Node) (observed now : ℤ) (a : AgentState f P client config backend)
      → observed ≤ℤ now
      → Agrees (reconcile_node f P client config backend node observed now a)
  unfolding reconcile_node observe
  reconcile_node-Agrees node observed now a o = o

  resynced-Agrees :
      (answer : Result (Option Node) KubeError) (observed now : ℤ)
      (a : AgentState f P client config backend)
      → observed ≤ℤ now
      → Agrees a
      → Agrees (resynced f P client config backend answer observed now a)
  resynced-Agrees (ok (some node)) observed now a o h = reconcile_node-Agrees node observed now a o
  resynced-Agrees (ok none) observed now a o h = h
  resynced-Agrees (err e) observed now a o h = h

  -- Over every sequence of occurrences, if the clock is not set back between the two readings of a
  -- reconcile, the time that `/healthz` reads is never before the time of
  -- the last reconcile that the metrics show.
  run-Agrees :
      (occurrences : List (Occurrence × ℤ × ℤ)) (a : AgentState f P client config backend)
      → All (λ o. o.1 ≤ℤ o.2) occurrences
      → Agrees a
      → Agrees (run f P client config backend occurrences a).0
  unfolding run
  run-Agrees [] a os h = h
  run-Agrees ((watch_ended, observed, now) ∷ rest) a (o, os) h = h
  run-Agrees ((watch_failed x, observed, now) ∷ rest) a (o, os) h = run-Agrees rest a os h
  run-Agrees ((watch_node node, observed, now) ∷ rest) a (o, os) h =
      run-Agrees rest (reconcile_node f P client config backend node observed now a) os
        (reconcile_node-Agrees node observed now a o)
  run-Agrees ((resync_tick, observed, now) ∷ rest) a (o, os) h =
      let answer = client.get_opt config.node_name a.cluster in
      run-Agrees rest (resynced f P client config backend answer observed now a) os
        (resynced-Agrees answer observed now a o h)
