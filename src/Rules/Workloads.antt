-- ===== src/Rules/Workloads.antt =====
-- `BaselineWorkloadResolver` of internal/rules/rootcause.go: the workloads that own the resource of
-- a finding, for any dependency graph. The cache of results is left out.
pub mod Owners
use k8s_diagnose.Prelude.{
  String, Bool, not, List, [], ◌∷◌, if◌then◌else◌, ◌==◌, ◌&&◌, ◌||◌, any, contains, keep, map,
  is_empty,
}
use k8s_diagnose.Prelude.Sort.{sort_strings}
use k8s_diagnose.Model.Types.{Finding}
use k8s_diagnose.Rules.Graph.{Graph, GraphPath, descendants}
use k8s_diagnose.Rules.Correlate.{resource_kind}

unfoldable pub is_top_level_controller : String → Bool
is_top_level_controller kind =
    contains ("Deployment" ∷ "StatefulSet" ∷ "DaemonSet" ∷ "Job" ∷ "CronJob" ∷ []) kind

-- The loop of `uniqueResourceRefs`.
unfoldable pub unseen_from : List String → List String → List String
unseen_from seen [] = []
unseen_from seen (v ∷ vs) =
    let skipped = unseen_from seen vs in
    let added = v ∷ unseen_from (v ∷ seen) vs in
    if v == "" || contains seen v then skipped else added

unfoldable pub unique_resource_refs : List String → List String
unfolding unseen_from sort_strings
unique_resource_refs values = sort_strings (unseen_from [] values)

-- The flag `ownedByAnotherWorkload`.
unfoldable pub owned_by_another : Graph → List String → String → Bool
unfolding descendants
owned_by_another g values v = any (λ p. contains values p.resource) (descendants g v "")

unfoldable pub outermost_workloads : Graph → List String → List String
unfolding owned_by_another unique_resource_refs
outermost_workloads g values =
    unique_resource_refs (keep (λ v. not (owned_by_another g values v)) values)

abbrev pub is_controller : String → Bool
is_controller resource = is_top_level_controller (resource_kind resource)

abbrev pub is_replica_set : String → Bool
is_replica_set resource = not (is_controller resource) && resource_kind resource == "ReplicaSet"

-- The resource of the finding and what it affects.
unfoldable pub affected : Graph → String → List String
unfolding descendants
affected g resource = resource ∷ map (λ (p : GraphPath). p.resource) (descendants g resource "")

unfoldable pub resolve_workloads : Graph → Finding → List String
unfolding affected outermost_workloads
resolve_workloads g f =
    let top_level = keep is_controller (affected g f.resource) in
    let replica_sets = keep is_replica_set (affected g f.resource) in
    if f.resource == ""
    then []
    else if is_empty top_level
    then unique_resource_refs replica_sets
    else outermost_workloads g (unique_resource_refs top_level)
