-- ===== src/App/PodScore/Bounds.antt =====
-- Each dimension keeps to its maximum, and the maxima are 100 points.
use k8s_diagnose.Prelude.{
  ℕ, suc, String, Bool, Option, none, some, List, [], ◌∷◌, ◌≡◌, ◌≤◌, ◌+◌, ◌-◌, ◌*◌, ◌/◌, arith,
  refl, min, Bool-cases, inl, inr, ◌==◌, length, All, pos, ap, ◌∙◌, lookup,
}
use k8s_diagnose.Model.Types.{Finding, ScoreDimension, State}
use k8s_diagnose.Model.State.{set_scoped_score}
use k8s_diagnose.Model.Health.{health}
use k8s_diagnose.Model.Health.Bounds.{health-set_scoped_score}
use k8s_diagnose.Kube.Types.{Condition, ContainerStatus, Node, Pod, Snapshot}
use k8s_diagnose.App.PodScore.{
  DimensionWeights, finding_dimension, with_detail, container_unit, container_units,
  container_dimension, pod_container_dimension, dimensions, total_score, total_maximum, found_unit,
  calculate_pod_score, dependency_finding, dependency_detail, storage_finding, storage_detail,
  probe_finding, probe_detail, service_finding, service_detail, network_policy_finding,
  network_policy_detail, ingress_tls_finding, ingress_tls_detail, pod_lifecycle_dimension,
  pod_readiness_dimension, restart_log_dimension, resource_config_dimension,
  scheduling_node_dimension, on_node, node_ready, weights, resource_finding, scheduling_finding,
  memory_limit_pressure, place_on_node,
}

abbrev pub InBounds : ScoreDimension → Type 0
InBounds d = d.score ≤ d.maximum

container_unit-le : (pod : Pod) (s : ContainerStatus) → (container_unit pod s).0 ≤ 100
unfolding container_unit
container_unit-le pod s = grind arith

container_units-le :
    (pod : Pod) (statuses : List (String × ContainerStatus)) (keys : List String)
    → (container_units pod statuses keys).0 ≤ length keys * 100
unfolding container_units found_unit
container_units-le pod statuses [] = omega arith
container_units-le pod statuses (key ∷ keys) =
    let rest = container_units-le pod statuses keys in
    elim (lookup key statuses)
      as (λ o.
        (found_unit pod o).0 + (container_units pod statuses keys).0 ≤ suc (length keys) * 100) [
          | none ↦ omega arith
          | some s ↦ omega (arith, container_unit-le pod s)
        ]

rounded-le : (units n : ℕ) → units ≤ suc n * 100 → (units * 20 + suc n * 50) / (suc n * 100) ≤ 20
rounded-le units n h = grind arith

container_dimension-InBounds :
    (pod : Pod) (statuses : List (String × ContainerStatus)) (keys : List String)
    → InBounds (container_dimension keys (container_units pod statuses keys))
      × ((container_dimension keys (container_units pod statuses keys)).maximum ≡ 20)
unfolding container_dimension
container_dimension-InBounds pod statuses [] = (omega arith, refl)
container_dimension-InBounds pod statuses (key ∷ keys) = (
  rounded-le (container_units pod statuses (key ∷ keys)).0 (length keys)
      (container_units-le pod statuses (key ∷ keys)),
  refl,
)

with_detail-score :
    (d : ScoreDimension) (detail : String)
    → ((with_detail d detail).score ≡ d.score) × ((with_detail d detail).maximum ≡ d.maximum)
unfolding with_detail
with_detail-score d detail = grind arith

with_detail-InBounds :
    (d : ScoreDimension) (detail : String) → InBounds d → InBounds (with_detail d detail)
with_detail-InBounds d detail h = let (e, e') = with_detail-score d detail in rw (e, e') h

finding_dimension-InBounds :
    (id label : String) (maximum : ℕ) (findings : List Finding) (matches : Finding → Bool)
    (w : DimensionWeights)
    → InBounds (finding_dimension id label maximum findings matches w)
unfolding finding_dimension
finding_dimension-InBounds id label maximum findings matches w = omega arith

node_ready-le : (cs : List Condition) (score : ℕ) → (node_ready cs score).1 ≤ score
unfolding node_ready
node_ready-le [] score = omega arith
node_ready-le (c ∷ cs) score = ground (arith, node_ready-le cs score)

on_node-InBounds :
    (name : String) (nodes : List Node) (d : ScoreDimension)
    → InBounds d
    → InBounds (on_node name nodes d) × ((on_node name nodes d).maximum ≡ d.maximum)
unfolding on_node
on_node-InBounds name [] d h = let (e, e') = with_detail-score d "配置Nodeの情報なし" in (rw (e, e') h, e')
on_node-InBounds name (n ∷ ns) d h = elim (Bool-cases (n.name == name)) [
  | inl here ↦ rw here (
    with_detail-InBounds _ _ (omega (arith, node_ready-le n.conditions d.score)),
    (with_detail-score _ _).1,
  )
  | inr elsewhere ↦ rw elsewhere (on_node-InBounds name ns d h)
]

lifecycle-InBounds :
    (pod : Pod)
    → InBounds (pod_lifecycle_dimension pod) × ((pod_lifecycle_dimension pod).maximum ≡ 15)
unfolding pod_lifecycle_dimension
lifecycle-InBounds pod = (grind arith, refl)

readiness-InBounds :
    (pod : Pod)
    → InBounds (pod_readiness_dimension pod) × ((pod_readiness_dimension pod).maximum ≡ 15)
unfolding pod_readiness_dimension
readiness-InBounds pod = (grind arith, grind arith)

containers-InBounds :
    (pod : Pod)
    → InBounds (pod_container_dimension pod) × ((pod_container_dimension pod).maximum ≡ 20)
unfolding pod_container_dimension
containers-InBounds pod = container_dimension-InBounds pod _ _

restart_log-InBounds :
    (pod : Pod) (fs : List Finding)
    → InBounds (restart_log_dimension pod fs) × ((restart_log_dimension pod fs).maximum ≡ 10)
unfolding restart_log_dimension
restart_log-InBounds pod fs = (omega arith, refl)

finding_dimension-maximum :
    (id label : String) (maximum : ℕ) (findings : List Finding) (matches : Finding → Bool)
    (w : DimensionWeights)
    → (finding_dimension id label maximum findings matches w).maximum ≡ maximum
unfolding finding_dimension
finding_dimension-maximum id label maximum findings matches w = refl

lowered-InBounds :
    (d : ScoreDimension) (maximum penalty : ℕ) (detail : String)
    → InBounds d
    → d.maximum ≡ maximum
    → InBounds (with_detail (record d { score = d.score - penalty }) detail)
      × ((with_detail (record d { score = d.score - penalty }) detail).maximum ≡ maximum)
lowered-InBounds d maximum penalty detail h e = (
  with_detail-InBounds (record d { score = d.score - penalty }) detail (omega (arith, h)),
  (with_detail-score _ detail).1 ∙ e,
)

placed-InBounds :
    (pod : Pod) (snapshot : Option Snapshot) (d : ScoreDimension) (maximum : ℕ)
    → InBounds d
    → d.maximum ≡ maximum
    → InBounds (place_on_node pod snapshot d) × ((place_on_node pod snapshot d).maximum ≡ maximum)
unfolding place_on_node
placed-InBounds pod none d maximum h e = (with_detail-InBounds d _ h, (with_detail-score d _).1 ∙ e)
placed-InBounds pod (some s) d maximum h e = elim (Bool-cases (pod.node_name == "")) [
  | inl nowhere ↦ rw nowhere (with_detail-InBounds d _ h, (with_detail-score d _).1 ∙ e)
  | inr placed ↦
      rw placed (let (fits, same) = on_node-InBounds pod.node_name s.nodes d h in (fits, same ∙ e))
]

resource_config-InBounds :
    (pod : Pod) (fs : List Finding) (snapshot : Option Snapshot)
    → InBounds (resource_config_dimension pod fs snapshot)
      × ((resource_config_dimension pod fs snapshot).maximum ≡ 5)
unfolding resource_config_dimension
resource_config-InBounds pod fs snapshot =
    let d = finding_dimension "resources" "Resources・構成" 5 fs resource_finding (weights 5 3 1) in
    let fits =
      finding_dimension-InBounds "resources" "Resources・構成" 5 fs resource_finding (weights 5 3 1) in
    let (penalty, detail) = memory_limit_pressure pod snapshot in
    lowered-InBounds d 5 penalty detail fits (finding_dimension-maximum _ _ _ _ _ _)

scheduling-InBounds :
    (pod : Pod) (fs : List Finding) (snapshot : Option Snapshot)
    → InBounds (scheduling_node_dimension pod fs snapshot)
      × ((scheduling_node_dimension pod fs snapshot).maximum ≡ 8)
unfolding scheduling_node_dimension
scheduling-InBounds pod fs snapshot =
    let d =
      finding_dimension "scheduling" "Scheduling・Node" 8 fs scheduling_finding (weights 8 4 2) in
    placed-InBounds pod snapshot d 8 (finding_dimension-InBounds _ _ _ _ _ _)
      (finding_dimension-maximum _ _ _ _ _ _)

area-InBounds :
    (id label : String) (maximum : ℕ) (findings : List Finding) (matches : Finding → Bool)
    (w : DimensionWeights) (detail : String)
    → InBounds (with_detail (finding_dimension id label maximum findings matches w) detail)
      × ((with_detail (finding_dimension id label maximum findings matches w) detail).maximum
          ≡ maximum)
area-InBounds id label maximum findings matches w detail = (
  with_detail-InBounds _ detail (finding_dimension-InBounds id label maximum findings matches w),
  (with_detail-score _ detail).1 ∙ finding_dimension-maximum _ _ _ _ _ _,
)

dimensions-InBounds :
    (pod : Pod) (fs : List Finding) (snapshot : Option Snapshot)
    → All InBounds (dimensions pod fs snapshot) × (total_maximum (dimensions pod fs snapshot) ≡ 100)
unfolding dimensions total_maximum
dimensions-InBounds pod fs snapshot =
    let (a, a') = lifecycle-InBounds pod in
    let (b, b') = readiness-InBounds pod in
    let (c, c') = containers-InBounds pod in
    let (d, d') = restart_log-InBounds pod fs in
    let (e, e') = resource_config-InBounds pod fs snapshot in
    let (f, f') = scheduling-InBounds pod fs snapshot in
    let (g, g') =
      area-InBounds _ _ 7 fs dependency_finding (weights 7 3 1) (dependency_detail pod) in
    let (h, h') =
      area-InBounds _ _ 4 fs storage_finding (weights 4 2 1) (storage_detail snapshot) in
    let (i, i') = area-InBounds _ _ 6 fs probe_finding (weights 6 3 1) (probe_detail pod) in
    let (j, j') =
      area-InBounds _ _ 4 fs service_finding (weights 4 2 1) (service_detail snapshot) in
    let (k, k') =
      area-InBounds _ _ 2 fs network_policy_finding (weights 2 1 1)
        (network_policy_detail snapshot) in
    let (l, l') =
      area-InBounds _ _ 4 fs ingress_tls_finding (weights 4 2 1) (ingress_tls_detail snapshot) in
    (
      (a, (b, (c, (d, (e, (f, (g, (h, (i, (j, (k, (l, tt)))))))))))),
      omega (arith, a', b', c', d', e', f', g', h', i', j', k', l'),
    )

total-le : (ds : List ScoreDimension) → All InBounds ds → total_score ds ≤ total_maximum ds
unfolding total_score total_maximum
total-le [] h = omega arith
total-le (d ∷ ds) (h, hs) = omega (arith, h, total-le ds hs)

percent-id : (n : ℕ) → n ≤ 100 → min n 100 * 100 / 100 ≡ n
percent-id n h = grind arith

-- Whatever a Pod, its findings and the snapshot are, each of the twelve dimensions has at most its
-- maximum, the maxima are 100 points together, and a state that holds the score has its total as
-- health.
pub calculate_pod_score-InBounds :
    (pod : Pod) (s : State) (snapshot : Option Snapshot)
    → All InBounds (calculate_pod_score pod s snapshot).dimensions
      × ((calculate_pod_score pod s snapshot).maximum ≡ pos 100)
      × (health (set_scoped_score s (calculate_pod_score pod s snapshot))
          ≡ total_score (dimensions pod s.findings snapshot))
unfolding calculate_pod_score
calculate_pod_score-InBounds pod s snapshot =
    let (fits, full) = dimensions-InBounds pod s.findings snapshot in
    let total = total_score (dimensions pod s.findings snapshot) in
    let low = total-le (dimensions pod s.findings snapshot) fits in
    (
      fits,
      ap pos full,
      health-set_scoped_score s (calculate_pod_score pod s snapshot) total 100 refl (ap pos full)
            (omega arith)
          ∙ percent-id total (omega (arith, low, full)),
    )
