-- ===== src/Kube/Types.antt =====
-- The fields of a Pod, a Node and a snapshot that the models read. The types of k8s.io/api are
-- records of those fields; a pointer is an Option or, where only nil is asked, a Bool.
use k8s_diagnose.Prelude.{ℕ, String, Bool, Option, List, ℤ}

pub record Condition : Type 0 where
  pub kind : String
  pub status : String

-- `terminated` holds the exit code, `waiting` the reason.
pub record ContainerState : Type 0 where
  pub running : Bool
  pub waiting : Option String
  pub terminated : Option ℤ

pub record ContainerStatus : Type 0 where
  pub name : String
  pub ready : Bool
  pub restart_count : ℕ
  pub state : ContainerState

-- The names that one `envFrom`, one `env` or one source of a volume refers to.
pub record Reference : Type 0 where
  pub config_map : Option String
  pub secret : Option String

-- `memory_limit` is `Resources.Limits.Memory().Value()`, which is 0 without a limit.
pub record Container : Type 0 where
  pub name : String
  pub restart_policy : Option String
  pub memory_limit : ℤ
  pub env_from : List Reference
  pub env : List Reference
  pub readiness_probe : Bool
  pub liveness_probe : Bool
  pub startup_probe : Bool

-- `direct` holds `ConfigMap` and `Secret`, `drivers` the secrets of the volume drivers in the order
-- in which the source asks for them.
pub record Volume : Type 0 where
  pub direct : Reference
  pub projected : Option (List Reference)
  pub drivers : List (Option String)

-- `pod_memory_limit` is none where `Spec.Resources` is nil.
pub record Pod : Type 0 where
  pub namespace : String
  pub name : String
  pub uid : String
  pub deleting : Bool
  pub phase : String
  pub conditions : List Condition
  pub init_container_statuses : List ContainerStatus
  pub container_statuses : List ContainerStatus
  pub ephemeral_container_statuses : List ContainerStatus
  pub init_containers : List Container
  pub containers : List Container
  pub ephemeral_containers : List Container
  pub image_pull_secrets : List String
  pub volumes : List Volume
  pub pod_memory_limit : Option ℤ
  pub node_name : String

pub record Node : Type 0 where
  pub name : String
  pub conditions : List Condition
  pub unschedulable : Bool

-- One entry of a PodMetrics object: `usage` is the memory that `metricQuantity` reads, where it does.
pub record MetricContainer : Type 0 where
  pub name : String
  pub usage : Option ℤ

pub record FetchStatus : Type 0 where
  pub available : Bool
  pub status : String
  pub reason : String

pub record SecretProjection : Type 0 where
  pub kind : String
  pub tls_cert : List ℕ

-- `pod_metrics` has none where an object has no list of containers; a list of names stands for the
-- objects that are only counted. An endpoint is its condition `Ready`.
pub record Snapshot : Type 0 where
  pub statuses : List (String × FetchStatus)
  pub pods : List Pod
  pub nodes : List Node
  pub pod_metrics : List (Option (List MetricContainer))
  pub persistent_volume_claims : List String
  pub persistent_volumes : List String
  pub services : List String
  pub endpoint_slices : List (List (Option Bool))
  pub network_policies : List String
  pub ingresses : List String
  pub secrets : List SecretProjection
