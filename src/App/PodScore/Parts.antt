-- ===== src/App/PodScore/Parts.antt =====
-- The dimensions of life cycle, readiness and containers.
use k8s_diagnose.Prelude.{
  ℕ, String, Bool, false, Option, none, some, List, [], ◌∷◌, ◌++◌, ◌+◌, ◌*◌, ◌/◌, min, pos,
  if◌then◌else◌, ◌==◌, ◌&&◌, ◌||◌, concat, decimal, length, ltb, int_eq, lookup, put,
}
use k8s_diagnose.Model.Types.{ScoreDimension}
use k8s_diagnose.Kube.Types.{Condition, ContainerStatus, Container, Pod}

unfoldable pub value_or : String → String → String
value_or value fallback = if value == "" then fallback else value

unfoldable pub condition_status : List Condition → String → Option String
condition_status [] kind = none
condition_status (c ∷ cs) kind =
    let rest = condition_status cs kind in if c.kind == kind then some c.status else rest

unfoldable pub pod_condition_status : Pod → String → Option String
unfolding condition_status
pod_condition_status pod kind = condition_status pod.conditions kind

-- `value, known := …; known && value == want`
abbrev pub has_status : Option String → String → Bool
has_status none want = false
has_status (some value) want = value == want

unfoldable pub lifecycle_score : Pod → ℕ
unfolding pod_condition_status
lifecycle_score pod =
    let score =
      if pod.phase == "Running" || pod.phase == "Succeeded"
      then 15
      else if pod.phase == "Pending"
      then 5
      else if pod.phase == "Failed"
      then 0
      else if pod.phase == "Unknown"
      then 2
      else 5 in
    let alive = if pod.deleting then min score 5 else score in
    if has_status (pod_condition_status pod "DisruptionTarget") "True" then min alive 8 else alive

unfoldable pub pod_lifecycle_dimension : Pod → ScoreDimension
unfolding lifecycle_score value_or
pod_lifecycle_dimension pod = record {
  id = "lifecycle";
  label = "ライフサイクル";
  score = lifecycle_score pod;
  maximum = 15;
  detail =
      concat
        ("phase: " ∷ value_or pod.phase "Unknown" ∷ (if pod.deleting then " / 終了処理中" else "") ∷ []);
}

-- Score and label by the condition `Ready`.
abbrev ready_part : Option String → ℕ × String
ready_part none = (7, "未取得")
ready_part (some ready) = (if ready == "True" then 15 else 0, ready)

unfoldable pub pod_readiness_dimension : Pod → ScoreDimension
unfolding pod_condition_status
pod_readiness_dimension pod =
    let (score, label) = ready_part (pod_condition_status pod "Ready") in
    let stuck = has_status (pod_condition_status pod "PodReadyToStartContainers") "False" in
    if pod.phase == "Succeeded"
    then record {
      id = "readiness";
      label = "Ready・Condition";
      score = 15;
      maximum = 15;
      detail = "正常完了";
    }
    else record {
      id = "readiness";
      label = "Ready・Condition";
      score = if stuck then 0 else score;
      maximum = 15;
      detail = concat ("Ready: " ∷ label ∷ (if stuck then " / sandbox未準備" else "") ∷ []);
    }

unfoldable pub put_statuses :
    String
    → List ContainerStatus
    → List (String × ContainerStatus)
    → List (String × ContainerStatus)
unfolding put
put_statuses prefix [] m = m
put_statuses prefix (s ∷ ss) m = put_statuses prefix ss (put (concat (prefix ∷ s.name ∷ [])) s m)

-- `container.RestartPolicy != nil && *container.RestartPolicy == …Always`
abbrev pub is_sidecar : Container → Bool
is_sidecar c = has_status c.restart_policy "Always"

unfoldable pub sidecar_keys : List Container → List String
sidecar_keys [] = []
sidecar_keys (c ∷ cs) =
    let rest = sidecar_keys cs in
    if is_sidecar c then concat ("init/" ∷ c.name ∷ []) ∷ rest else rest

unfoldable pub app_keys : List Container → List String
app_keys [] = []
app_keys (c ∷ cs) = concat ("app/" ∷ c.name ∷ []) ∷ app_keys cs

-- The keys of the restartable init containers and of the containers.
unfoldable pub active_keys : Pod → List String
unfolding sidecar_keys app_keys
active_keys pod = sidecar_keys pod.init_containers ++ app_keys pod.containers

abbrev pub is_starting : String → Bool
is_starting reason = reason == "ContainerCreating" || reason == "PodInitializing"

-- Points of a container, whether it counts as ready, and whether it counts as abnormal.
unfoldable pub container_unit : Pod → ContainerStatus → ℕ × ℕ × ℕ
container_unit pod s =
    if s.state.running && s.ready
    then (100, 1, 0)
    else if s.state.running
    then (55, 0, 0)
    else (elim s.state.waiting [
      | some reason ↦ if is_starting reason then (35, 0, 1) else (0, 0, 1)
      | none ↦ elim s.state.terminated [
        | some code ↦
            if (pod.phase == "Succeeded") && int_eq code (pos 0) then (100, 1, 0) else (0, 0, 1)
        | none ↦ (20, 0, 0)
      ]
    ])

-- A container without a status has twenty points.
unfoldable pub found_unit : Pod → Option ContainerStatus → ℕ × ℕ × ℕ
unfolding container_unit
found_unit pod none = (20, 0, 0)
found_unit pod (some s) = container_unit pod s

-- The loop over the active containers: points, ready and abnormal.
unfoldable pub container_units : Pod → List (String × ContainerStatus) → List String → ℕ × ℕ × ℕ
unfolding lookup found_unit
container_units pod statuses [] = (0, 0, 0)
container_units pod statuses (key ∷ keys) =
    let (unit, ready, abnormal) = found_unit pod (lookup key statuses) in
    let (units, readies, abnormals) = container_units pod statuses keys in
    (unit + units, ready + readies, abnormal + abnormals)

unfoldable pub container_dimension : List String → ℕ × ℕ × ℕ → ScoreDimension
container_dimension [] sums = record {
  id = "containers";
  label = "コンテナ稼働";
  score = 0;
  maximum = 20;
  detail = "評価対象コンテナなし";
}
container_dimension (key ∷ keys) (units, ready, abnormal) =
    let count = length (key ∷ keys) in
    record {
      id = "containers";
      label = "コンテナ稼働";
      score = (units * 20 + count * 50) / (count * 100);
      maximum = 20;
      detail = concat (
          "Ready "
          ∷ decimal ready
          ∷ "/"
          ∷ decimal count
          ∷ (if ltb 0 abnormal then concat (" / 異常状態 " ∷ decimal abnormal ∷ "件" ∷ []) else "")
          ∷ []);
    }

unfoldable pub pod_container_dimension : Pod → ScoreDimension
unfolding put_statuses active_keys container_units container_dimension
pod_container_dimension pod =
    let statuses =
      put_statuses "app/" pod.container_statuses
        (put_statuses "init/" pod.init_container_statuses []) in
    container_dimension (active_keys pod) (container_units pod statuses (active_keys pod))
