-- ===== src/Rules/Correlate.antt =====
-- `Correlate` of internal/rules/rootcause.go: from flat findings to root causes with their impacts.
-- The graph and `degraded`, the message of `degradedResourceMessage` for a resource ("" for none),
-- come from the cluster snapshot.
pub mod Claims
pub mod Roots
pub mod Result
use k8s_diagnose.Prelude.{
  ℕ, String, Bool, true, false, not, Option, none, some, List, [], ◌∷◌, ◌++◌, ◌-◌, ℤ, pos, int_eq,
  int_ltb, if◌then◌else◌, ◌==◌, ◌&&◌, ◌||◌, is_some, starts_with, contains, any, all, keep, length,
  nat_eq, bool_eq, ltb, text_lt, split_slash, map, last_or, is_empty,
}
use k8s_diagnose.Prelude.Sort.{sort}
use k8s_diagnose.Model.Types.{
  Severity, issue, warning, severity_eq, Finding, Evidence, Impact, RootCause, State,
}
use k8s_diagnose.Model.RootCause.{new_root_cause}
use k8s_diagnose.Model.State.{set_root_causes}
use k8s_diagnose.Rules.Graph.{Graph, GraphPath, descendants}
use k8s_diagnose.Rules.RootCause.{
  is_log, symptom_code, root_eligible, root_priority, root_assessment, append_log_evidence,
  remediations, confirmation_commands,
}

-- `strings.Index(resource, "/")`: the text before the first slash, or all of it
unfoldable pub resource_kind : String → String
unfolding split_slash
resource_kind resource = elim (split_slash resource) [ [] ↦ resource | kind ∷ _ ↦ kind ]

-- `byResource[resource]`, in the order of the IDs
unfoldable pub by_resource : List Finding → String → List Finding
by_resource findings resource =
    sort (λ a b. text_lt a.id b.id)
      (keep (λ f. not (f.resource == "") && f.resource == resource) findings)

-- `findingsByID[id]`: a later finding replaces an earlier one
unfoldable pub finding_by_id : List Finding → String → Option Finding
finding_by_id [] id = none
finding_by_id (f ∷ fs) id =
    let later = finding_by_id fs id in
    let here = (if f.id == id then some f else none) in if is_some later then later else here

-- A log finding is not a candidate where its resource has another eligible finding.
unfoldable pub is_candidate : List Finding → Finding → Bool
unfolding by_resource
is_candidate findings f =
    root_eligible f
    && not
        (is_log f && any (λ o. not (is_log o) && root_eligible o) (by_resource findings f.resource))

-- The comparison of the candidates.
unfoldable pub candidate_less : Finding → Finding → Bool
candidate_less a b =
    if nat_eq (root_priority a) (root_priority b)
    then (if int_eq a.confidence b.confidence
        then text_lt a.id b.id
        else int_ltb b.confidence a.confidence)
    else ltb (root_priority a) (root_priority b)

unfoldable pub root_candidates : List Finding → List Finding
root_candidates findings = sort candidate_less (keep (is_candidate findings) findings)

-- A missing key is the last part of the stable key.
unfoldable pub required_key : Finding → String
required_key cause =
    if cause.code == "K8S.DEPENDENCY.MISSING_KEY"
    then (let parts = split_slash cause.stable_key in
        if ltb 1 (length parts) then last_or "" parts else "")
    else ""

-- The variables of the loops over one cause.
pub record Collected : Type 0 where
  pub direct : List Impact
  pub propagated : List Impact
  pub related : List String
  pub evidence : List Evidence

-- The loop over `byResource[cause.Resource]`: logs of the same resource.
unfoldable pub add_logs : Finding → List Finding → Collected → Collected
add_logs cause [] c = c
add_logs cause (f ∷ fs) c = add_logs cause fs (
    if f.id == cause.id || not (is_log f)
    then c
    else record c { related = c.related ++ f.id ∷ []; evidence = append_log_evidence c.evidence f })

-- The loop over the findings of an impacted resource.
unfoldable pub add_values : List Finding → Collected → Collected
add_values [] c = c
add_values (f ∷ fs) c = add_values fs (record c {
  related = c.related ++ f.id ∷ [];
  evidence = if is_log f then append_log_evidence c.evidence f else c.evidence;
})

module _ (degraded : String → String) (findings : List Finding) where
  -- The issues and warnings of a resource.
  unfoldable pub degrading : String → List Finding
  degrading resource =
      keep (λ f. severity_eq f.severity issue || severity_eq f.severity warning)
        (by_resource findings resource)

  -- The first finding's message, or what the resource's own status says.
  unfoldable pub impact_message : String → String
  impact_message resource = elim (degrading resource) [ [] ↦ degraded resource | f ∷ _ ↦ f.message ]

  unfoldable pub impact_of : GraphPath → Impact
  impact_of p = record {
    resource = p.resource;
    kind = resource_kind p.resource;
    message = impact_message p.resource;
    relation = last_or "" p.relations;
    depth = length p.path - 1;
    finding_ids = map (λ f. f.id) (degrading p.resource);
    path = p.path;
    path_relations = p.relations;
  }

  -- The body of the loop over the paths: a resource with no message is only on the way.
  unfoldable pub add_path : GraphPath → Collected → Collected
  add_path p c =
      if impact_message p.resource == ""
      then c
      else (let d = add_values (degrading p.resource) c in
          if nat_eq (impact_of p).depth 1
          then record d { direct = d.direct ++ impact_of p ∷ [] }
          else record d { propagated = d.propagated ++ impact_of p ∷ [] })

  unfoldable pub add_paths : List GraphPath → Collected → Collected
  add_paths [] c = c
  add_paths (p ∷ ps) c = add_paths ps (add_path p c)

module _ (digest : String → String) (degraded : String → String) (g : Graph)
    (findings : List Finding) where
  unfoldable pub collect : Finding → Collected
  collect cause = add_paths degraded findings (descendants g cause.resource (required_key cause)) (
      add_logs cause (by_resource findings cause.resource) (record {
        direct = [];
        propagated = [];
        related = [];
        evidence =
            cause.evidence
            ++ record {
              kind = "assessment";
              key = "classification";
              value = (root_assessment cause).1;
            }
              ∷ [];
      }))

  unfoldable pub build_root : Finding → RootCause
  build_root cause =
      let c = collect cause in
      new_root_cause digest cause (root_assessment cause).0 c.evidence c.direct c.propagated
        (remediations cause) (confirmation_commands cause) c.related

  -- The findings that a root takes over: its cause, and the symptoms of a confirmed one.
  unfoldable pub claims : RootCause → String → Bool
  claims root id = elim (finding_by_id findings id) [
    | none ↦ false
    | some f ↦
        severity_eq f.severity issue
        && (id == root.cause.id || (root.confirmed && symptom_code f.code))
  ]

  -- The loop over the candidates, with `claimed` and `roots`.
  unfoldable pub correlate_from : List String → List RootCause → List Finding → List RootCause
  correlate_from claimed roots [] = roots
  correlate_from claimed roots (cause ∷ causes) =
      let root = build_root cause in
      let skipped = correlate_from claimed roots causes in
      let added =
        correlate_from (keep (claims root) root.related_finding_ids ++ claimed) (roots ++ root ∷ [])
          causes in
      if contains claimed cause.id then skipped else added

-- The comparison of the roots.
unfoldable pub root_less : RootCause → RootCause → Bool
root_less a b =
    if bool_eq a.confirmed b.confirmed
    then (if int_eq a.confidence b.confidence
        then (if a.cause.resource == b.cause.resource
            then text_lt a.id b.id
            else text_lt a.cause.resource b.cause.resource)
        else int_ltb b.confidence a.confidence)
    else a.confirmed

unfoldable pub correlate :
    (digest : String → String) (degraded : String → String) → Graph → State → State
correlate digest degraded g s = set_root_causes s (
    sort root_less (correlate_from digest degraded g s.findings [] [] (root_candidates s.findings)))
