-- ===== src/App/PodScore/Memory.antt =====
-- The dimensions of resources, with the use of memory against its limit, and of scheduling.
use k8s_diagnose.Prelude.{
  ℕ, String, Bool, false, not, Option, none, some, List, [], ◌∷◌, ◌-◌, ◌%◌, min, ℤ, pos, negsuc,
  if◌then◌else◌, ◌==◌, ◌&&◌, concat, int_decimal, is_empty, ltb, int_ltb, int_leb, int_max, int_add,
  int_scale, int_quot, lookup, put,
}
use k8s_diagnose.Model.Types.{Finding, ScoreDimension}
use k8s_diagnose.Kube.Types.{
  Condition, Container, FetchStatus, MetricContainer, Node, Pod, Snapshot,
}
use k8s_diagnose.App.PodScore.Parts.{is_sidecar}
use k8s_diagnose.App.PodScore.Findings.{
  weights, finding_dimension, with_detail, resource_finding, scheduling_finding,
}

-- The value of a 64-bit signed integer after wrapping around.
unfoldable pub wrap : ℤ → ℤ
wrap (pos n) =
    let r = n % 18446744073709551616 in
    if ltb r 9223372036854775808 then pos r else negsuc (18446744073709551615 - r)
wrap (negsuc n) =
    let r = n % 18446744073709551616 in
    if ltb r 9223372036854775808 then negsuc r else pos (18446744073709551615 - r)

unfoldable pub sidecar_limits : List Container → List (String × ℤ) → List (String × ℤ)
unfolding put
sidecar_limits [] m = m
sidecar_limits (c ∷ cs) m =
    sidecar_limits cs (if is_sidecar c then put c.name c.memory_limit m else m)

unfoldable pub container_limits : List Container → List (String × ℤ) → List (String × ℤ)
unfolding put
container_limits [] m = m
container_limits (c ∷ cs) m = container_limits cs (put c.name c.memory_limit m)

-- `limits[name]`
abbrev limit_of : Option ℤ → ℤ
limit_of none = pos 0
limit_of (some v) = v

-- `usage * 100 / limit`
abbrev ratio_of : ℤ → ℤ → ℤ
ratio_of usage limit = int_quot (wrap (int_scale usage 100)) limit

-- The loop over the containers of one object: the highest ratio and the total so far.
unfoldable pub container_ratios : ℤ → List (String × ℤ) → List MetricContainer → ℤ × ℤ → ℤ × ℤ
unfolding wrap lookup
container_ratios pod_limit limits [] (ratio, total) = (ratio, total)
container_ratios pod_limit limits (c ∷ cs) (ratio, total) =
    container_ratios pod_limit limits cs (elim c.usage [
      | none ↦ (ratio, total)
      | some usage ↦
          let limit = limit_of (lookup c.name limits) in
          (
            if int_leb pod_limit (pos 0) && int_ltb (pos 0) limit
                then int_max ratio (ratio_of usage limit)
                else ratio,
            wrap (int_add total usage),
          )
    ])

unfoldable pub metric_ratios :
    ℤ → List (String × ℤ) → List (Option (List MetricContainer)) → ℤ × ℤ → ℤ × ℤ
unfolding container_ratios
metric_ratios pod_limit limits [] acc = acc
metric_ratios pod_limit limits (none ∷ ms) acc = metric_ratios pod_limit limits ms acc
metric_ratios pod_limit limits (some cs ∷ ms) acc =
    metric_ratios pod_limit limits ms (container_ratios pod_limit limits cs acc)

-- The highest ratio in per cent, -1 where nothing can be computed.
unfoldable pub maximum_ratio : Pod → Snapshot → ℤ
unfolding sidecar_limits container_limits metric_ratios
maximum_ratio pod snapshot =
    let pod_limit = limit_of pod.pod_memory_limit in
    let limits = container_limits pod.containers (sidecar_limits pod.init_containers []) in
    let (ratio, total) = metric_ratios pod_limit limits snapshot.pod_metrics (negsuc 0, pos 0) in
    if int_ltb (pos 0) pod_limit then ratio_of total pod_limit else ratio

unfoldable pub ratio_penalty : ℤ → ℕ
ratio_penalty ratio =
    if int_leb (pos 100) ratio
    then 5
    else if int_leb (pos 90) ratio
    then 3
    else if int_leb (pos 75) ratio
    then 1
    else 0

-- `tracked && !status.Available`
abbrev is_denied : Option FetchStatus → Bool
is_denied none = false
is_denied (some st) = not st.available

unfoldable pub memory_limit_pressure : Pod → Option Snapshot → ℕ × String
unfolding maximum_ratio ratio_penalty
memory_limit_pressure pod none = (0, "メトリクス未取得")
memory_limit_pressure pod (some snapshot) =
    let denied = is_denied (lookup "pod_metrics" snapshot.statuses) in
    let ratio = maximum_ratio pod snapshot in
    if denied
    then (0, "メトリクスを確認できません")
    else if is_empty snapshot.pod_metrics
    then (0, "メトリクスデータなし")
    else if int_ltb ratio (pos 0)
    then (0, "メモリ上限に対する使用率は算出対象なし")
    else (ratio_penalty ratio, concat ("メモリ上限に対する最大使用率 " ∷ int_decimal ratio ∷ "%" ∷ []))

unfoldable pub resource_config_dimension : Pod → List Finding → Option Snapshot → ScoreDimension
unfolding memory_limit_pressure
resource_config_dimension pod findings snapshot =
    let d =
      finding_dimension "resources" "Resources・構成" 5 findings resource_finding (weights 5 3 1) in
    let (penalty, detail) = memory_limit_pressure pod snapshot in
    with_detail (record d { score = d.score - penalty }) detail

-- The first condition `Ready` of a Node: its status, and the score it leaves.
unfoldable pub node_ready : List Condition → ℕ → String × ℕ
node_ready [] score = ("未取得", score)
node_ready (c ∷ cs) score =
    let rest = node_ready cs score in
    if c.kind == "Ready"
    then (
      c.status,
      if c.status == "False"
          then min score 2
          else if c.status == "Unknown"
          then min score 3
          else score,
    )
    else rest

unfoldable pub on_node : String → List Node → ScoreDimension → ScoreDimension
unfolding node_ready
on_node name [] d = with_detail d "配置Nodeの情報なし"
on_node name (n ∷ ns) d =
    let rest = on_node name ns d in
    let (ready, score) = node_ready n.conditions d.score in
    if n.name == name
    then with_detail (record d { score = score })
        (concat (
          "Node="
          ∷ n.name
          ∷ " / Ready="
          ∷ ready
          ∷ (if n.unschedulable then " / cordon済み（稼働中Podは減点なし）" else "")
          ∷ []))
    else rest

unfoldable pub place_on_node : Pod → Option Snapshot → ScoreDimension → ScoreDimension
unfolding on_node
place_on_node pod none d = with_detail d "Node未配置"
place_on_node pod (some s) d =
    if pod.node_name == "" then with_detail d "Node未配置" else on_node pod.node_name s.nodes d

unfoldable pub scheduling_node_dimension : Pod → List Finding → Option Snapshot → ScoreDimension
unfolding place_on_node
scheduling_node_dimension pod findings snapshot =
    let d =
      finding_dimension "scheduling" "Scheduling・Node" 8 findings scheduling_finding
        (weights 8 4 2) in
    place_on_node pod snapshot d
