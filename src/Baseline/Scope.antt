-- ===== src/Baseline/Scope.antt =====
-- Which findings a rule is about: `matchResourceScope` and `matchWorkload`.
use k8s_diagnose.Prelude.{
  String, Bool, true, false, not, Option, none, some, List, [], ◌∷◌, ◌++◌, if◌then◌else◌, ◌==◌,
  ◌&&◌, ◌||◌, contains, all, keep, length, leb, split_slash, concat, join, last_or, get_or,
  is_empty, map,
}
use k8s_diagnose.Prelude.Sort.{sort_strings}
use k8s_diagnose.Model.Types.{Finding, Impact, RootCause}
use k8s_diagnose.Baseline.Pattern.{match}

pub record Rule : Type 0 where
  pub id : String
  pub code : String
  pub namespace : String
  pub workload : String
  pub resource : String
  pub reason : String
  pub expires : String
  pub source : String

pub record Baseline : Type 0 where
  pub path : String
  pub rules : List Rule

-- `parts[0] + "/" + parts[len(parts)-1]`
unfoldable pub short_ref : List String → String
unfolding concat
short_ref parts = concat (get_or parts 0 "" ∷ "/" ∷ last_or "" parts ∷ [])

unfoldable pub match_resource_scope : Rule → String → Bool
match_resource_scope rule resource =
    let parts = split_slash resource in
    let namespace = (if leb 3 (length parts) then get_or parts 1 "" else "") in
    if not (rule.namespace == "") && not (match rule.namespace namespace)
    then false
    else rule.resource == ""
      || (match rule.resource resource
          || (leb 2 (length parts) && match rule.resource (short_ref parts)))

unfoldable pub resource_kind : String → String
resource_kind resource = elim (split_slash resource) [ [] ↦ resource | kind ∷ _ ↦ kind ]

unfoldable pub is_top_level_workload : String → Bool
is_top_level_workload kind =
    contains ("Deployment" ∷ "StatefulSet" ∷ "DaemonSet" ∷ "Job" ∷ "CronJob" ∷ []) kind

-- The loop of `uniqueStrings`.
unfoldable pub distinct_from : List String → List String → List String
distinct_from seen [] = []
distinct_from seen (s ∷ ss) =
    let skipped = distinct_from seen ss in
    let added = s ∷ distinct_from (s ∷ seen) ss in
    if s == "" || contains seen s then skipped else added

unfoldable pub unique_strings : List String → List String
unfolding distinct_from sort_strings
unique_strings values = sort_strings (distinct_from [] values)

-- The impacts of the roots that a finding belongs to.
unfoldable pub related_impacts : Finding → List RootCause → List Impact
related_impacts finding [] = []
related_impacts finding (root ∷ roots) =
    let rest = related_impacts finding roots in
    if not (root.cause.id == finding.id) && not (contains root.related_finding_ids finding.id)
    then rest
    else (root.direct_impacts ++ root.propagated_impacts) ++ rest

-- The workloads that a finding affects: those that the graph resolves, or top-level workloads
-- among the impacts and the finding itself, or ReplicaSets if there are none.
unfoldable pub workload_candidates :
    Finding → List RootCause → Option (Finding → List String) → List String
workload_candidates finding roots resolve =
    let resolved : List String = elim resolve [ none ↦ [] | some r ↦ r finding ] in
    let impacts = related_impacts finding roots in
    let own_kind = resource_kind finding.resource in
    let top_level =
      map (λ (i : Impact). i.resource) (keep (λ i. is_top_level_workload i.kind) impacts)
      ++ (if is_top_level_workload own_kind then finding.resource ∷ [] else []) in
    let replica_sets =
      map (λ (i : Impact). i.resource)
        (keep (λ i. not (is_top_level_workload i.kind) && i.kind == "ReplicaSet") impacts)
      ++ (if not (is_top_level_workload own_kind) && own_kind == "ReplicaSet"
          then finding.resource ∷ []
          else []) in
    unique_strings (
      if is_empty resolved
      then (if is_empty top_level then replica_sets else top_level)
      else resolved)

-- A candidate by its full or its short name.
unfoldable pub match_candidate : Rule → String → Bool
match_candidate rule candidate =
    let parts = split_slash candidate in
    match rule.workload candidate
    || match rule.workload (if leb 2 (length parts) then short_ref parts else candidate)

-- Every affected workload must be acknowledged.
unfoldable pub match_workload :
    Rule → Finding → List RootCause → Option (Finding → List String) → Bool × String
match_workload rule finding roots resolve =
    if rule.workload == ""
    then (true, "")
    else (let candidates = workload_candidates finding roots resolve in
        if is_empty candidates
        then (false, "")
        else if all (match_candidate rule) candidates
        then (true, join ", " candidates)
        else (false, ""))
