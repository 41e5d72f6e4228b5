-- ===== src/Rules/Degraded.antt =====
-- `degradedResourceMessage` of internal/rules/rootcause.go, with `serviceEndpointCounts` of
-- service.go, over the fields that they read. `matches` stands for Matches of the selector of
-- k8s.io/apimachinery that a map of labels makes.
pub mod Current
use k8s_diagnose.Prelude.{
  ℕ, suc, String, Bool, true, false, not, Option, none, some, List, [], ◌∷◌, ◌++◌, ◌+◌, ◌==◌, ◌&&◌,
  ◌||◌, if◌then◌else◌, concat, split_slash, ltb, nat_eq, length, decimal, ℤ, pos, int_leb, int_ltb,
  int_eq, int_decimal, keep, count_if, is_empty, find_first, lookup,
}
use k8s_diagnose.Kube.Types.{Condition, FetchStatus}

pub record PodStatus : Type 0 where
  pub namespace : String
  pub name : String
  pub labels : List (String × String)
  pub phase : String
  pub conditions : List Condition

-- A ReplicaSet, a Deployment or a StatefulSet. `replicas` is none where the pointer is nil.
pub record WorkloadStatus : Type 0 where
  pub namespace : String
  pub name : String
  pub generation : ℤ
  pub observed_generation : ℤ
  pub replicas : Option ℤ
  pub ready_replicas : ℤ

pub record DaemonStatus : Type 0 where
  pub namespace : String
  pub name : String
  pub generation : ℤ
  pub observed_generation : ℤ
  pub desired : ℤ
  pub ready : ℤ

-- The three conditions of an endpoint.
pub record Endpoint : Type 0 where
  pub ready : Option Bool
  pub serving : Option Bool
  pub terminating : Option Bool

pub record SliceStatus : Type 0 where
  pub namespace : String
  pub name : String
  pub service : String
  pub endpoints : List Endpoint

pub record ServiceStatus : Type 0 where
  pub namespace : String
  pub name : String
  pub external : Bool
  pub selector : List (String × String)

-- The legacy object: the number of addresses of each subset.
pub record EndpointsStatus : Type 0 where
  pub namespace : String
  pub name : String
  pub addresses : List ℕ

pub record Statuses : Type 0 where
  pub fetched : List (String × FetchStatus)
  pub pods : List PodStatus
  pub replica_sets : List WorkloadStatus
  pub deployments : List WorkloadStatus
  pub stateful_sets : List WorkloadStatus
  pub daemon_sets : List DaemonStatus
  pub slices : List SliceStatus
  pub services : List ServiceStatus
  pub endpoints : List EndpointsStatus

unfoldable pub short_ref : String → String → String
unfolding concat
short_ref namespace name = if namespace == "" then name else concat (namespace ∷ "/" ∷ name ∷ [])

unfoldable pub ready_count_message : String → String → ℤ → ℤ → String
unfolding concat int_decimal
ready_count_message kind reference ready desired = concat (
    kind
    ∷ " "
    ∷ reference
    ∷ " のReady状態のレプリカ数は "
    ∷ int_decimal ready
    ∷ "/"
    ∷ int_decimal desired
    ∷ " です"
    ∷ [])

unfoldable pub status_generation_current : ℤ → ℤ → Bool
status_generation_current generation observed =
    int_eq generation (pos 0) || int_leb generation observed

abbrev pub int32_value : Option ℤ → ℤ → ℤ
int32_value none fallback = fallback
int32_value (some n) fallback = n

-- The first result of a loop that returns.
abbrev pub or_message : Option String → Option String → Option String
or_message none rest = rest
or_message (some m) rest = some m

abbrev pub first_result {ℓ} : {A : Type ℓ} → (A → Option String) → List A → Option String
first_result f [] = none
first_result f (x ∷ xs) = or_message (f x) (first_result f xs)

abbrev is_true : Option Bool → Bool → Bool
is_true none default_value = default_value
is_true (some b) default_value = b

-- `ready != nil && ready.Status != corev1.ConditionTrue`
abbrev not_ready : Option Condition → Bool
not_ready none = false
not_ready (some c) = not (c.status == "True")

unfoldable pub pod_degraded : String → String → PodStatus → Option String
unfolding short_ref concat
pod_degraded namespace name p =
    if not (p.namespace == namespace && p.name == name)
    then none
    else if p.phase == "Failed"
        || p.phase == "Pending"
        || p.phase == "Running"
          && not_ready (find_first (λ (c : Condition). c.kind == "Ready") p.conditions)
    then some (
        concat (
          "Pod "
          ∷ short_ref namespace name
          ∷ " の状態（phase）は "
          ∷ p.phase
          ∷ " で、Ready条件を満たしていません"
          ∷ []))
    else none

-- The three loops over workloads with replicas.
unfoldable pub workload_degraded : String → String → String → WorkloadStatus → Option String
unfolding status_generation_current ready_count_message short_ref
workload_degraded kind namespace name w =
    let desired = int32_value w.replicas (pos 1) in
    if w.namespace == namespace
      && w.name == name
      && status_generation_current w.generation w.observed_generation
      && (int_ltb (pos 0) desired && int_ltb w.ready_replicas desired)
    then some (ready_count_message kind (short_ref namespace name) w.ready_replicas desired)
    else none

unfoldable pub daemon_degraded : String → String → DaemonStatus → Option String
unfolding status_generation_current ready_count_message short_ref
daemon_degraded namespace name d =
    if d.namespace == namespace
      && d.name == name
      && status_generation_current d.generation d.observed_generation
      && (int_ltb (pos 0) d.desired && int_ltb d.ready d.desired)
    then some (ready_count_message "DaemonSet" (short_ref namespace name) d.ready d.desired)
    else none

unfoldable pub is_ready : Endpoint → Bool
is_ready e = is_true e.ready true

unfoldable pub is_fallback : Endpoint → Bool
unfolding is_ready
is_fallback e = not (is_ready e) && (is_true e.serving true && is_true e.terminating false)

unfoldable pub slice_degraded : String → String → SliceStatus → Option String
unfolding is_ready short_ref concat decimal
slice_degraded namespace name s =
    let ready = count_if is_ready s.endpoints in
    let total = length s.endpoints in
    if not (s.namespace == namespace && s.name == name)
    then none
    else if ltb ready total || nat_eq total 0
    then some (
        concat (
          "EndpointSlice "
          ∷ short_ref namespace name
          ∷ " のReady状態のEndpoint数は "
          ∷ decimal ready
          ∷ "/"
          ∷ decimal total
          ∷ " です"
          ∷ []))
    else none

abbrev or_tracked : Option FetchStatus → Bool → Bool
or_tracked none untracked = untracked
or_tracked (some f) untracked = f.available

unfoldable pub endpoint_slices_authoritative : Statuses → Bool
unfolding lookup
endpoint_slices_authoritative s =
    or_tracked (lookup "endpoint_slices" s.fetched) (not (is_empty s.slices))

abbrev sum : List ℕ → ℕ
sum [] = 0
sum (n ∷ ns) = n + sum ns

-- The endpoints of the slices of a service.
unfoldable pub endpoints_of : ServiceStatus → List SliceStatus → List Endpoint
endpoints_of v [] = []
endpoints_of v (s ∷ ss) =
    let rest = endpoints_of v ss in
    if s.namespace == v.namespace && s.service == v.name then s.endpoints ++ rest else rest

unfoldable pub addresses_of : ServiceStatus → List EndpointsStatus → ℕ
addresses_of v [] = 0
addresses_of v (e ∷ es) =
    let rest = addresses_of v es in
    if e.namespace == v.namespace && e.name == v.name then sum e.addresses + rest else rest

-- Ready endpoints, and terminating ones that still serve.
unfoldable pub service_endpoint_counts : ServiceStatus → Statuses → ℕ × ℕ
unfolding endpoint_slices_authoritative endpoints_of addresses_of is_ready is_fallback lookup
service_endpoint_counts v s =
    if endpoint_slices_authoritative s
    then (
      count_if is_ready (endpoints_of v s.slices),
      count_if is_fallback (endpoints_of v s.slices),
    )
    else if or_tracked (lookup "endpoints" s.fetched) true
    then (addresses_of v s.endpoints, 0)
    else (0, 0)

module _ (matches : List (String × String) → List (String × String) → Bool) where
  -- Whether `selectedPods` has any Pod, for a service with a selector.
  unfoldable pub selects : Statuses → ServiceStatus → Bool
  selects s v = not (
      is_empty (
        keep (λ (p : PodStatus). p.namespace == v.namespace && matches v.selector p.labels) s.pods))

  unfoldable pub service_degraded : Statuses → String → String → ServiceStatus → Option String
  unfolding service_endpoint_counts selects short_ref concat decimal
  service_degraded s namespace name v =
      let (ready, fallback) = service_endpoint_counts v s in
      if not
        (v.namespace == namespace && v.name == name && not v.external && not (is_empty v.selector))
      then none
      else if nat_eq ready 0 && nat_eq fallback 0 && selects s v
      then some (concat ("Service " ∷ short_ref namespace name ∷ " には、Ready状態のEndpointがありません" ∷ []))
      else if nat_eq ready 0 && ltb 0 fallback
      then some (
          concat (
            "Service "
            ∷ short_ref namespace name
            ∷ " にはReady状態のEndpointがなく、終了処理中で serving=true のEndpointが "
            ∷ decimal fallback
            ∷ "件だけあります"
            ∷ []))
      else none

  -- The `switch` on the kind.
  unfoldable pub degraded_object : Statuses → String → String → String → Option String
  unfolding pod_degraded workload_degraded daemon_degraded slice_degraded service_degraded
  degraded_object s kind namespace name =
      if kind == "Pod"
      then first_result (pod_degraded namespace name) s.pods
      else if kind == "ReplicaSet"
      then first_result (workload_degraded kind namespace name) s.replica_sets
      else if kind == "Deployment"
      then first_result (workload_degraded kind namespace name) s.deployments
      else if kind == "StatefulSet"
      then first_result (workload_degraded kind namespace name) s.stateful_sets
      else if kind == "DaemonSet"
      then first_result (daemon_degraded namespace name) s.daemon_sets
      else if kind == "EndpointSlice"
      then first_result (slice_degraded namespace name) s.slices
      else if kind == "Service"
      then first_result (service_degraded s namespace name) s.services
      else none

  abbrev of_parts : Statuses → List String → Option String
  unfolding degraded_object
  of_parts s (kind ∷ namespace ∷ name ∷ []) = degraded_object s kind namespace name
  of_parts s (kind ∷ name ∷ []) = degraded_object s kind "" name
  of_parts s _ = none

  unfoldable pub degraded_resource_message : Statuses → String → Option String
  unfolding of_parts degraded_object split_slash
  degraded_resource_message s resource = of_parts s (split_slash resource)
