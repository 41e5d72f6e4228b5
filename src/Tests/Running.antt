-- ===== src/Tests/Running.antt =====
-- The registry, the commands and the score of a Pod.
use k8s_diagnose.Prelude.{
  String, some, List, [], ◌∷◌, ◌≡◌, ◌≤◌, ◌↔◌, inr, Memᴰ, pos, refl, ◌==◌, count_if, lookup,
  if◌then◌else◌, All,
}
use k8s_diagnose.Model.State.{new_state, finding_key, set_scoped_score}
use k8s_diagnose.Model.State.Invariant.{IsValid}
use k8s_diagnose.Model.State.Runs.{Reachable-IsValid, new}
use k8s_diagnose.Model.Health.{health}
use k8s_diagnose.Rules.Registry.{
  Rule, tagged, enabled, missing, status, new_registry, run, run_rule,
}
use k8s_diagnose.Rules.Registry.Accepted.{new_registry_iff}
use k8s_diagnose.Rules.Registry.Valid.{run-IsValid, run_rule-unavailable}
use k8s_diagnose.Rules.Registry.Records.{run-records}
use k8s_diagnose.App.PodScore.{calculate_pod_score, dimensions, total_score}
use k8s_diagnose.App.PodScore.Bounds.{InBounds, calculate_pod_score-InBounds}
use k8s_diagnose.Tests.Samples.{digest, cause, state, config, pod, snapshot, checker}

abbrev pods_rule : Rule
pods_rule = checker "pods" ("pods" ∷ [])

abbrev secrets_rule : Rule
secrets_rule = checker "secrets" ("pods" ∷ "secrets" ∷ [])

abbrev rules : List Rule
rules = pods_rule ∷ secrets_rule ∷ []

new_registry_example :
    (new_registry rules ≡ inr rules)
    ↔ ((id : String) → count_if (λ r. r.metadata.id == id) rules ≤ (if id == "" then 0 else 1))
new_registry_example = new_registry_iff rules

run-IsValid_example : IsValid digest (run digest rules snapshot config new_state)
run-IsValid_example =
    run-IsValid digest rules snapshot config new_state (Reachable-IsValid digest new)

run-records_example :
    count_if
      (λ g. finding_key digest g == finding_key digest (tagged "pods" cause))
      (run digest rules snapshot config new_state).findings
    ≡ 1
unfolding enabled missing status lookup
run-records_example =
    run-records digest rules snapshot config new_state pods_rule cause
      (Reachable-IsValid digest new) (Memᴰ.head refl) refl refl (Memᴰ.head refl)

run_rule-unavailable_example :
    run_rule digest snapshot config secrets_rule state
    ≡ run_rule digest snapshot config (record secrets_rule { evaluate = λ _ _. [] }) state
unfolding status lookup
run_rule-unavailable_example =
    run_rule-unavailable digest snapshot config secrets_rule (λ _ _. []) "secrets" state
      (Memᴰ.tail (Memᴰ.head refl)) refl

calculate_pod_score_example :
    All InBounds (calculate_pod_score pod state (some snapshot)).dimensions
    × ((calculate_pod_score pod state (some snapshot)).maximum ≡ pos 100)
    × (health (set_scoped_score state (calculate_pod_score pod state (some snapshot)))
        ≡ total_score (dimensions pod state.findings (some snapshot)))
calculate_pod_score_example = calculate_pod_score-InBounds pod state (some snapshot)
