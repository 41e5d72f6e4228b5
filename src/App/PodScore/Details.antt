-- ===== src/App/PodScore/Details.antt =====
-- The details beside the dimensions.
use k8s_diagnose.Prelude.{
  ℕ, String, Bool, true, Option, none, some, List, [], ◌∷◌, ◌+◌, if◌then◌else◌, ◌==◌, ◌||◌, not,
  concat, decimal, length, is_empty, count_if,
}
use k8s_diagnose.Kube.Types.{Container, Pod, Snapshot}
use k8s_diagnose.App.References.{selected_pod_object_references}
use k8s_diagnose.App.PodScore.Parts.{is_sidecar}

unfoldable pub dependency_detail : Pod → String
unfolding selected_pod_object_references
dependency_detail pod =
    let (config_maps, secrets) = selected_pod_object_references pod in
    concat (
      "参照先: ConfigMap "
      ∷ decimal (length config_maps)
      ∷ "件 / Secret "
      ∷ decimal (length secrets)
      ∷ "件 / ServiceAccount 1件"
      ∷ [])

unfoldable pub storage_detail : Option Snapshot → String
storage_detail none = "対象情報なし"
storage_detail (some s) = concat (
    "関連PVC "
    ∷ decimal (length s.persistent_volume_claims)
    ∷ "件 / PV "
    ∷ decimal (length s.persistent_volumes)
    ∷ "件"
    ∷ [])

abbrev one_if : Bool → ℕ
one_if b = if b then 1 else 0

-- The closure `visit`.
unfoldable pub probes_of : Container → ℕ
probes_of c = one_if c.readiness_probe + one_if c.liveness_probe + one_if c.startup_probe

unfoldable pub sidecar_probes : List Container → ℕ
unfolding probes_of
sidecar_probes [] = 0
sidecar_probes (c ∷ cs) = (if is_sidecar c then probes_of c else 0) + sidecar_probes cs

unfoldable pub container_probes : List Container → ℕ
unfolding probes_of
container_probes [] = 0
container_probes (c ∷ cs) = probes_of c + container_probes cs

unfoldable pub probe_detail : Pod → String
unfolding sidecar_probes container_probes
probe_detail pod = concat (
    "設定済みProbe "
    ∷ decimal (sidecar_probes pod.init_containers + container_probes pod.containers)
    ∷ "件"
    ∷ [])

-- A nil `Ready` counts as ready.
abbrev is_ready : Option Bool → Bool
is_ready none = true
is_ready (some b) = b

unfoldable pub ready_endpoints : List (List (Option Bool)) → ℕ
ready_endpoints [] = 0
ready_endpoints (es ∷ slices) = count_if is_ready es + ready_endpoints slices

unfoldable pub service_detail : Option Snapshot → String
unfolding ready_endpoints
service_detail none = "対象情報なし"
service_detail (some s) = concat (
    "関連Service "
    ∷ decimal (length s.services)
    ∷ "件 / Ready Endpoint "
    ∷ decimal (ready_endpoints s.endpoint_slices)
    ∷ "件"
    ∷ [])

unfoldable pub network_policy_detail : Option Snapshot → String
network_policy_detail none = "対象情報なし"
network_policy_detail (some s) =
    concat ("このPodを選択するNetworkPolicy " ∷ decimal (length s.network_policies) ∷ "件" ∷ [])

unfoldable pub ingress_tls_detail : Option Snapshot → String
ingress_tls_detail none = "対象情報なし"
ingress_tls_detail (some s) = concat (
    "関連Ingress "
    ∷ decimal (length s.ingresses)
    ∷ "件 / TLS証明書Secret "
    ∷ decimal (
        count_if (λ secret. (secret.kind == "kubernetes.io/tls") || not (is_empty secret.tls_cert))
          s.secrets)
    ∷ "件"
    ∷ [])
