-- ===== src/Rules/RootCause.antt =====
-- internal/rules/rootcause.go: what kind of cause a finding can be, how sure the tool is of it, and
-- what it advises.
pub mod Confirmed
use k8s_diagnose.Prelude.{
  ℕ, String, Bool, true, false, not, List, [], ◌∷◌, ◌++◌, ℤ, pos, int_leb, int_min, if◌then◌else◌,
  ◌==◌, ◌&&◌, ◌||◌, starts_with, contains, any, keep, length, nat_eq, split_slash, concat, lower,
  map, get_or,
}
use k8s_diagnose.Model.Types.{
  Severity, issue, warning, unavailable, candidate, severity_eq, Finding, Evidence,
}

abbrev pub is_log : Finding → Bool
is_log f = starts_with f.code "K8S.LOG."

abbrev strong_codes : List String
strong_codes =
    "K8S.DEPENDENCY.MISSING_OBJECT" ∷ "K8S.DEPENDENCY.MISSING_KEY" ∷ "K8S.NODE.CONDITION"
    ∷ "K8S.PVC.NOT_BOUND" ∷ "K8S.PVC.LOST" ∷ "K8S.PVC.STORAGE_CLASS_NOT_FOUND" ∷ "K8S.PV.FAILED"
    ∷ "K8S.TLS.CERT_EXPIRED" ∷ "K8S.TLS.CERT_INVALID" ∷ "K8S.TLS.KEY_PAIR_INVALID"
    ∷ "K8S.CONTROL_PLANE.READYZ_FAILED" ∷ "K8S.INGRESS.MISSING_REFERENCE"
    ∷ "K8S.WEBHOOK.MISSING_SERVICE" ∷ "K8S.SERVICE.TARGET_PORT_UNRESOLVED"
    ∷ "K8S.PROBE.PORT_UNRESOLVED" ∷ "K8S.SCHEDULING.NO_AVAILABLE_NODE"
    ∷ "K8S.SCHEDULING.NODE_AFFINITY_MISMATCH" ∷ "K8S.SCHEDULING.UNTOLERATED_TAINT"
    ∷ "K8S.SCHEDULING.INSUFFICIENT_RESOURCES" ∷ []

unfoldable pub strong_root_code : String → Bool
strong_root_code code = contains strong_codes code

abbrev symptom_codes : List String
symptom_codes =
    "K8S.POD.ABNORMAL_STATE" ∷ "K8S.POD.PENDING_STATE" ∷ "K8S.POD.NOT_READY"
    ∷ "K8S.POD.FAILED_PHASE" ∷ "K8S.WORKLOAD.PROGRESS_DEADLINE_EXCEEDED"
    ∷ "K8S.WORKLOAD.REPLICA_FAILURE" ∷ "K8S.WORKLOAD.REPLICAS_UNAVAILABLE"
    ∷ "K8S.SERVICE.NO_READY_ENDPOINT" ∷ "K8S.SERVICE.TERMINATING_ENDPOINTS_ONLY" ∷ []

unfoldable pub symptom_code : String → Bool
symptom_code code = contains symptom_codes code || starts_with code "K8S.CONNECT."

abbrev warning_prefixes : List String
warning_prefixes =
    "K8S.SCHEDULING." ∷ "K8S.NODE." ∷ "K8S.PVC." ∷ "K8S.WORKLOAD.ROLLOUT"
    ∷ "K8S.WORKLOAD.REPLICA_FAILURE" ∷ "K8S.POD.SANDBOX" ∷ "K8S.PROBE." ∷ "K8S.CONNECT." ∷ []

unfoldable pub root_eligible : Finding → Bool
root_eligible f =
    if is_log f && (severity_eq f.severity warning || severity_eq f.severity candidate)
    then true
    else if severity_eq f.severity issue
    then true
    else if severity_eq f.severity warning
    then any (λ p. starts_with f.code p) warning_prefixes
    else false

unfoldable pub root_priority : Finding → ℕ
root_priority f =
    if starts_with f.code "K8S.DEPENDENCY." then 0 else if strong_root_code f.code then 1 else 2

-- The confidence and the assessment.
unfoldable pub root_assessment : Finding → ℤ × String
root_assessment f =
    if symptom_code f.code
    then (int_min f.confidence (pos 70), "異常な状態は確認しましたが、その状態を引き起こした原因は未確定です。Event・ログ・依存先を照合してください")
    else if is_log f
    then (int_min f.confidence (pos 85), "ログの記録に基づく候補です。発生時刻・対象コンテナ・現在の状態を照合する必要があります")
    else if not (strong_root_code f.code)
    then (int_min f.confidence (pos 85), "所見は検出しましたが、原因を直接確認する判定ではないため候補として扱います")
    else if severity_eq f.severity issue && int_leb (pos 90) f.confidence
    then (f.confidence, "対象リソースの設定・参照・状態を直接確認した判定です。依存先で見つかった異常との因果関係は別途確認してください")
    else (f.confidence, "原因を示す所見はありますが、確定条件を満たしていません。根拠と対象リソースの現在の状態を確認してください")

unfoldable pub append_log_evidence : List Evidence → Finding → List Evidence
append_log_evidence evidence f =
    (evidence ++ record { kind = "log-signature"; key = f.code; value = f.message } ∷ [])
    ++ keep (λ e. e.kind == "log" && e.key == "match") f.evidence

unfoldable pub probe_remediations : String → List String
probe_remediations reason =
    if reason == "readinessProbe"
    then "readinessProbeの path、port、scheme、timeoutSeconds、HTTPヘッダーを確認する"
      ∷ "アプリがReadyになるまでの時間と initialDelaySeconds を比較する" ∷ []
    else if reason == "livenessProbe"
    then "livenessProbeの path、port、timeoutSeconds を確認し、アプリの応答時間に対して厳しすぎないか見直す" ∷ []
    else if reason == "startupProbe"
    then "startupProbeの failureThreshold × periodSeconds が、アプリの最大起動時間を十分にカバーしているか確認する" ∷ []
    else if reason == "NamedPortUnresolved"
    then "Probeのポート名を同じコンテナの ports[].name に合わせるか、有効な数値ポートへ修正する" ∷ []
    else "Probeの handler、port、path、判定しきい値を、Pod定義とアプリの待受設定に合わせる" ∷ []

unfoldable pub code_remediations : String → List String
code_remediations code =
    if code == "K8S.DEPENDENCY.MISSING_OBJECT"
    then "必須の参照先リソースを作成するか、Podまたはワークロードの参照名を修正する" ∷ []
    else if code == "K8S.DEPENDENCY.MISSING_KEY"
    then "SecretまたはConfigMapに必要なキーを追加するか、keyRefを修正する" ∷ []
    else if code == "K8S.SERVICE.TARGET_PORT_UNRESOLVED"
    then "Serviceの spec.ports[].targetPort を、selectorに一致するPodの ports[].name に合わせる" ∷ []
    else if code == "K8S.WORKLOAD.PROGRESS_DEADLINE_EXCEEDED"
    then "Deploymentの状態条件（condition）とReplicaSetのEventを確認し、ロールアウトを妨げている設定またはコンテナイメージを修正する" ∷ []
    else if code == "K8S.WORKLOAD.REPLICA_FAILURE"
    then "ReplicaFailureのメッセージを確認し、ResourceQuota、Admission、PVCなどによる拒否原因を修正する" ∷ []
    else if code == "K8S.SCHEDULING.INSUFFICIENT_RESOURCES"
    then "Podの resources.requests を見直すか、Node容量の追加または不要なPodの整理を検討する" ∷ []
    else if code == "K8S.SCHEDULING.UNTOLERATED_TAINT"
    then "NodeのtaintとPodのtolerationの意図を確認し、必要な場合に限ってtolerationを追加する" ∷ []
    else if code == "K8S.POD.ABNORMAL_STATE"
    then "コンテナの現在のログ、前回終了時のログ、Eventを確認する" ∷ "Probe失敗がある場合は path、port、timeoutSeconds を確認する" ∷ []
    else if code == "K8S.TLS.CERT_EXPIRED"
    then "TLS Secretの証明書を更新し、Ingressなどの利用側が新しいSecretを読み込んだことを確認する" ∷ []
    else if code == "K8S.TLS.CERT_INVALID"
    then "TLS Secretの tls.crt を、有効なPEM形式のX.509証明書へ置き換える" ∷ []
    else if code == "K8S.TLS.KEY_PAIR_INVALID"
    then "TLS Secretの tls.crt に対応するPEM形式の秘密鍵を tls.key に設定する" ∷ []
    else if code == "K8S.PVC.STORAGE_CLASS_NOT_FOUND"
    then "PVCの storageClassName を既存のStorageClass名へ修正するか、必要なStorageClassを作成する" ∷ []
    else if code == "K8S.PV.FAILED"
    then "PVの status.message、CSIまたはボリュームプラグインのEvent、ストレージ基盤を確認する" ∷ []
    else "対象リソースの現在の状態とEventを確認し、所見の発生時刻・参照先・関連ログを照合する" ∷ []

unfoldable pub remediations : Finding → List String
unfolding probe_remediations code_remediations
remediations f =
    if starts_with f.code "K8S.LOG."
    then "ログの発生時刻と対象コンテナを確認し、現在のログ・前回終了時のログ・Eventを比較する" ∷ "同じエラーが継続しているかを確認してから、ログに示された設定・依存先を調査する"
      ∷ []
    else if starts_with f.code "K8S.PROBE."
    then probe_remediations f.reason
    else code_remediations f.code

-- The commands that confirm a finding, by the parts of its resource.
unfoldable pub confirmation_commands : Finding → List String
unfolding split_slash concat lower
confirmation_commands f =
    let parts = split_slash f.resource in
    let kind = get_or parts 0 "" in
    let second = get_or parts 1 "" in
    let third = get_or parts 2 "" in
    let n = length parts in
    if is_log f && (nat_eq n 3 && kind == "Pod")
    then concat ("kubectl describe pod " ∷ third ∷ " -n " ∷ second ∷ [])
      ∷ concat (
          "kubectl logs " ∷ third ∷ " -n " ∷ second
          ∷ " --all-containers=true --tail=100 --timestamps=true" ∷ [])
      ∷ concat (
          "kubectl logs " ∷ third ∷ " -n " ∷ second
          ∷ " --all-containers=true --previous --tail=100 --timestamps=true" ∷ [])
      ∷ []
    else if nat_eq n 2 && (kind == "ControlPlane" && (second == "readyz" || second == "livez"))
    then concat ("kubectl get --raw='/" ∷ second ∷ "?verbose'" ∷ []) ∷ []
    else if nat_eq n 5 && kind == "Probe"
    then concat ("kubectl get pod " ∷ third ∷ " -n " ∷ second ∷ " -o yaml" ∷ [])
      ∷ concat ("kubectl describe pod " ∷ third ∷ " -n " ∷ second ∷ [])
      ∷ []
    else if nat_eq n 3
    then (if kind == "Secret"
        then concat ("kubectl describe secret " ∷ third ∷ " -n " ∷ second ∷ []) ∷ []
        else concat ("kubectl get " ∷ lower kind ∷ " " ∷ third ∷ " -n " ∷ second ∷ " -o yaml" ∷ [])
          ∷ [])
    else if nat_eq n 2
    then concat ("kubectl get " ∷ lower kind ∷ " " ∷ second ∷ " -o yaml" ∷ []) ∷ []
    else []
