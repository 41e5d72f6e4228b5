-- ===== src/App/PodScore.antt =====
-- `calculatePodScore` of internal/app/pod_score.go: twelve dimensions and their sum.
mod Parts
mod Findings
mod Runtime
mod Memory
mod Details
pub mod Bounds
unfoldable pub use Parts.*
unfoldable pub use Findings.*
unfoldable pub use Runtime.*
unfoldable pub use Memory.*
unfoldable pub use Details.*
use k8s_diagnose.Prelude.{ℕ, String, Option, List, [], ◌∷◌, ◌+◌, pos, concat}
use k8s_diagnose.Model.Types.{ScoreDimension, ScopedScore, State, Finding}
use k8s_diagnose.Kube.Types.{Pod, Snapshot}

unfoldable pub total_score : List ScoreDimension → ℕ
total_score [] = 0
total_score (d ∷ ds) = d.score + total_score ds

unfoldable pub total_maximum : List ScoreDimension → ℕ
total_maximum [] = 0
total_maximum (d ∷ ds) = d.maximum + total_maximum ds

unfoldable pub dimensions : Pod → List Finding → Option Snapshot → List ScoreDimension
dimensions pod findings snapshot =
    pod_lifecycle_dimension pod
    ∷ pod_readiness_dimension pod
    ∷ pod_container_dimension pod
    ∷ restart_log_dimension pod findings
    ∷ resource_config_dimension pod findings snapshot
    ∷ scheduling_node_dimension pod findings snapshot
    ∷ with_detail
        (finding_dimension "dependencies" "依存リソース" 7 findings dependency_finding (weights 7 3 1))
        (dependency_detail pod)
    ∷ with_detail (finding_dimension "storage" "Storage" 4 findings storage_finding (weights 4 2 1))
        (storage_detail snapshot)
    ∷ with_detail (finding_dimension "probe" "Probe・接続" 6 findings probe_finding (weights 6 3 1))
        (probe_detail pod)
    ∷ with_detail
        (finding_dimension "service" "Service・Endpoint" 4 findings service_finding (weights 4 2 1))
        (service_detail snapshot)
    ∷ with_detail
        (finding_dimension "network-policy" "NetworkPolicy" 2 findings network_policy_finding
          (weights 2 1 1))
        (network_policy_detail snapshot)
    ∷ with_detail
        (finding_dimension "ingress-tls" "Ingress・TLS" 4 findings ingress_tls_finding
          (weights 4 2 1))
        (ingress_tls_detail snapshot)
    ∷ []

unfoldable pub calculate_pod_score : Pod → State → Option Snapshot → ScopedScore
unfolding dimensions total_score total_maximum
calculate_pod_score pod state snapshot = record {
  kind = "Pod";
  resource = concat ("Pod/" ∷ pod.namespace ∷ "/" ∷ pod.name ∷ []);
  score = pos (total_score (dimensions pod state.findings snapshot));
  maximum = pos (total_maximum (dimensions pod state.findings snapshot));
  dimensions = dimensions pod state.findings snapshot;
}
