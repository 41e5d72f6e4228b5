-- ===== src/Tests/Causes.antt =====
-- The dependency graph and the correlation.
use k8s_diagnose.Prelude.{
  String, Bool, true, false, Option, none, some, List, [], ◌∷◌, ◌≡◌, ◌≢◌, ◌⊎◌, Memᴰ, pos, refl,
  arith, inl, ◌==◌, contains, count_if, int_leb, if◌then◌else◌, All,
}
use k8s_diagnose.Prelude.Sort.{IsOrdered, sort}
use k8s_diagnose.Model.Types.{issue, RootCause}
use k8s_diagnose.Rules.Graph.{GraphPath, descendants, descendants_within}
use k8s_diagnose.Rules.Graph
use k8s_diagnose.Rules.Graph.Walk.{Walk, here, step}
use k8s_diagnose.Rules.Graph.Correct.{descendants_total, descendants_sound, descendants_once}
use k8s_diagnose.Rules.RootCause.{
  is_log, strong_root_code, symptom_code, root_assessment, root_eligible,
}
use k8s_diagnose.Rules.Correlate.{finding_by_id, build_root, correlate, root_less}
use k8s_diagnose.Rules.Workloads.{
  resolve_workloads, outermost_workloads, is_controller, is_replica_set,
}
use k8s_diagnose.Rules.Workloads.Owners.{
  IsAffected, resolve_workloads-IsAffected, outermost_workloads-apart,
}
use k8s_diagnose.Rules.Correlate.Claims.{correlate-covers}
use k8s_diagnose.Rules.Correlate.Roots.{IsImpactOf}
use k8s_diagnose.Rules.Correlate.Result.{
  RootBefore, correlate-IsOrdered, correlate-roots, correlate-confirmed,
}
use k8s_diagnose.Tests.Samples.{digest, degraded, cause, symptom, state, graph, edge}

descendants_total_example :
    descendants_within graph "Secret/a/db" "" ≡ some (descendants graph "Secret/a/db" "")
descendants_total_example = descendants_total graph "Secret/a/db" ""

descendants_sound_example :
    All
      (λ p. Walk graph "" "Secret/a/db" p.resource p.path p.relations)
      (descendants graph "Secret/a/db" "")
descendants_sound_example = descendants_sound graph "Secret/a/db" ""

to_pod : Walk graph "" "Secret/a/db" "Pod/a/web" ("Secret/a/db" ∷ "Pod/a/web" ∷ []) ("uses" ∷ [])
unfolding Graph.edges_of
to_pod = step here (Memᴰ.head {x = edge "Pod/a/web"} refl) (λ _. inl refl)

descendants_once_example :
    count_if (λ p. p.resource == "Pod/a/web") (descendants graph "Secret/a/db" "") ≡ 1
descendants_once_example =
    descendants_once graph "Secret/a/db" "" "Pod/a/web" ("Secret/a/db" ∷ "Pod/a/web" ∷ [])
      ("uses" ∷ []) to_pod

correlate-covers_example :
    (r : RootCause) × Memᴰ r (correlate digest degraded graph state).root_causes
    × ((r.cause.id ≡ "f2")
        ⊎ ((r.confirmed ≡ true)
            × (symptom_code "K8S.POD.ABNORMAL_STATE" ≡ true)
            × (contains r.related_finding_ids "f2" ≡ true)))
unfolding finding_by_id
correlate-covers_example =
    correlate-covers digest degraded graph state symptom (Memᴰ.tail (Memᴰ.head refl)) refl refl refl

correlate-IsOrdered_example :
    IsOrdered RootBefore (correlate digest degraded graph state).root_causes
correlate-IsOrdered_example = correlate-IsOrdered digest degraded graph state

abbrev root : RootCause
root = build_root digest degraded graph state.findings cause

correlate_run : (correlate digest degraded graph state).root_causes ≡ root ∷ []
unfolding correlate k8s_diagnose.Model.State.set_root_causes sort
    k8s_diagnose.Rules.Correlate.correlate_from k8s_diagnose.Rules.Correlate.root_candidates
    k8s_diagnose.Rules.Correlate.is_candidate root_eligible
    k8s_diagnose.Rules.Correlate.candidate_less k8s_diagnose.Rules.RootCause.root_priority
    strong_root_code build_root k8s_diagnose.Model.RootCause.new_root_cause
    k8s_diagnose.Rules.Correlate.claims finding_by_id k8s_diagnose.Rules.Correlate.collect
    k8s_diagnose.Rules.Correlate.add_paths descendants descendants_within
    k8s_diagnose.Model.Finding.clean_evidence k8s_diagnose.Model.Finding.compact_evidence
    k8s_diagnose.Model.Finding.compact_from k8s_diagnose.Model.Finding.evidence_key
    k8s_diagnose.Model.RootCause.clamp_confidence k8s_diagnose.Model.RootCause.classify
    k8s_diagnose.Model.RootCause.count_kinds k8s_diagnose.Model.RootCause.impacted
    k8s_diagnose.Model.RootCause.increment k8s_diagnose.Model.RootCause.is_confirmed
    k8s_diagnose.Model.RootCause.root_id k8s_diagnose.Model.RootCause.root_penalty
    k8s_diagnose.Model.RootCause.unique_from k8s_diagnose.Model.RootCause.unique_strings
    k8s_diagnose.Prelude.lookup k8s_diagnose.Prelude.put k8s_diagnose.Prelude.Sort.insert
    k8s_diagnose.Prelude.concat k8s_diagnose.Prelude.is_space k8s_diagnose.Prelude.join
    k8s_diagnose.Prelude.lower k8s_diagnose.Prelude.split_at k8s_diagnose.Prelude.split_slash
    k8s_diagnose.Prelude.trim_space k8s_diagnose.Redact.keeps_rune k8s_diagnose.Redact.sanitize_text
    k8s_diagnose.Rules.Correlate.add_logs k8s_diagnose.Rules.Correlate.add_path
    k8s_diagnose.Rules.Correlate.add_values k8s_diagnose.Rules.Correlate.by_resource
    k8s_diagnose.Rules.Correlate.degrading k8s_diagnose.Rules.Correlate.impact_message
    k8s_diagnose.Rules.Correlate.impact_of k8s_diagnose.Rules.Correlate.required_key
    k8s_diagnose.Rules.Correlate.resource_kind root_less Graph.all_edges Graph.begin Graph.child
    Graph.edge_less Graph.edges_of Graph.expand Graph.known_by Graph.offer Graph.scan Graph.search
    Graph.wrong_key k8s_diagnose.Rules.RootCause.append_log_evidence
    k8s_diagnose.Rules.RootCause.code_remediations
    k8s_diagnose.Rules.RootCause.confirmation_commands
    k8s_diagnose.Rules.RootCause.probe_remediations k8s_diagnose.Rules.RootCause.remediations
    root_assessment symptom_code
correlate_run = refl

root_listed : Memᴰ root (correlate digest degraded graph state).root_causes
root_listed = rw correlate_run (Memᴰ.head refl)

correlate-roots_example :
    Memᴰ root.cause state.findings
    × (root_eligible root.cause ≡ true)
    × All
        (λ i. IsImpactOf digest degraded graph state.findings root.cause i × (i.depth ≡ 1))
        root.direct_impacts
    × All
        (λ i. IsImpactOf digest degraded graph state.findings root.cause i × (i.depth ≢ 1))
        root.propagated_impacts
correlate-roots_example = correlate-roots digest degraded graph state root root_listed

root_confirmed : root.confirmed ≡ true
unfolding build_root k8s_diagnose.Model.RootCause.new_root_cause
    k8s_diagnose.Model.RootCause.is_confirmed k8s_diagnose.Model.RootCause.clamp_confidence
    root_assessment symptom_code strong_root_code
root_confirmed = refl

correlate-confirmed_example :
    (root.cause.severity ≡ issue)
    × (int_leb (pos 90) root.cause.confidence ≡ true)
    × (strong_root_code root.cause.code ≡ true)
    × (symptom_code root.cause.code ≡ false)
    × (is_log root.cause ≡ false)
correlate-confirmed_example =
    correlate-confirmed digest degraded graph state root root_listed root_confirmed

resolved : resolve_workloads graph symptom ≡ "Deployment/a/web" ∷ []
unfolding resolve_workloads k8s_diagnose.Rules.Workloads.affected
    k8s_diagnose.Rules.Workloads.outermost_workloads k8s_diagnose.Rules.Workloads.owned_by_another
    k8s_diagnose.Rules.Workloads.unique_resource_refs k8s_diagnose.Rules.Workloads.unseen_from
    k8s_diagnose.Rules.Workloads.is_top_level_controller k8s_diagnose.Rules.Correlate.resource_kind
    k8s_diagnose.Prelude.split_slash k8s_diagnose.Prelude.split_at
    k8s_diagnose.Prelude.Sort.sort_strings sort k8s_diagnose.Prelude.Sort.insert descendants
    descendants_within Graph.all_edges Graph.begin Graph.child Graph.edge_less Graph.edges_of
    Graph.expand Graph.known_by Graph.offer Graph.scan Graph.search Graph.wrong_key
    k8s_diagnose.Prelude.lookup k8s_diagnose.Prelude.put k8s_diagnose.Prelude.concat
resolved = refl

resolve_workloads_example :
    IsAffected graph "Pod/a/web" "Deployment/a/web"
    × ((is_controller "Deployment/a/web" ≡ true) ⊎ (is_replica_set "Deployment/a/web" ≡ true))
resolve_workloads_example =
    resolve_workloads-IsAffected graph symptom "Deployment/a/web" (rw resolved (Memᴰ.head refl))

outermost : outermost_workloads graph ("Deployment/a/web" ∷ []) ≡ "Deployment/a/web" ∷ []
unfolding k8s_diagnose.Rules.Workloads.outermost_workloads
    k8s_diagnose.Rules.Workloads.owned_by_another k8s_diagnose.Rules.Workloads.unique_resource_refs
    k8s_diagnose.Rules.Workloads.unseen_from k8s_diagnose.Prelude.Sort.sort_strings sort
    k8s_diagnose.Prelude.Sort.insert descendants descendants_within Graph.all_edges Graph.begin
    Graph.child Graph.edge_less Graph.edges_of Graph.expand Graph.known_by Graph.offer Graph.scan
    Graph.search Graph.wrong_key k8s_diagnose.Prelude.lookup k8s_diagnose.Prelude.put
    k8s_diagnose.Prelude.concat
outermost = refl

outermost_workloads_example : ◌≡◌ {A = String} "Deployment/a/web" "Deployment/a/web"
outermost_workloads_example =
    outermost_workloads-apart graph ("Deployment/a/web" ∷ []) "Deployment/a/web" "Deployment/a/web"
      ("Deployment/a/web" ∷ []) [] (rw outermost (Memᴰ.head refl)) (rw outermost (Memᴰ.head refl))
      here
