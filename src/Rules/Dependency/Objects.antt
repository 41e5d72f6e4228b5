-- ===== src/Rules/Dependency/Objects.antt =====
-- The fields of the objects of a snapshot that the construction of the graph reads. A pointer is an
-- Option, and a pointer to a Bool is its value, false where it is nil.
use k8s_diagnose.Prelude.{String, Bool, Option, List}

-- A ConfigMap or a Secret as a whole, or one key of it.
pub record ObjectReference : Type 0 where
  pub name : String
  pub optional : Bool

pub record KeyReference : Type 0 where
  pub name : String
  pub key : String
  pub optional : Bool

pub record EnvFrom : Type 0 where
  pub config_map : Option ObjectReference
  pub secret : Option ObjectReference

-- Without `ValueFrom`, both are none.
pub record EnvVar : Type 0 where
  pub name : String
  pub config_map_key : Option KeyReference
  pub secret_key : Option KeyReference

pub record ContainerSpec : Type 0 where
  pub name : String
  pub restarts_always : Bool
  pub env_from : List EnvFrom
  pub env : List EnvVar
  pub readiness : Bool
  pub liveness : Bool
  pub startup : Bool

-- The source of a volume that is a ConfigMap or a Secret; `items` holds the keys.
pub record ItemSource : Type 0 where
  pub name : String
  pub items : List String
  pub optional : Bool

-- `drivers` holds the secret of each volume driver that is set, with its path in the source, in the
-- order of the code: csi, rbd, cinder, cephfs, flexVolume, iscsi, scaleIO, storageOS.
pub record VolumeSource : Type 0 where
  pub name : String
  pub config_map : Option ItemSource
  pub secret : Option ItemSource
  pub claim : Option String
  pub ephemeral : Bool
  pub projected : List (Option ItemSource × Option ItemSource)
  pub drivers : List (String × Option String)
  pub azure_file : Option String

pub record Owner : Type 0 where
  pub kind : String
  pub name : String
  pub controller : Bool

pub record PodObject : Type 0 where
  pub namespace : String
  pub name : String
  pub labels : List (String × String)
  pub owners : List Owner
  pub init_containers : List ContainerSpec
  pub containers : List ContainerSpec
  pub ephemeral_containers : List ContainerSpec
  pub volumes : List VolumeSource
  pub image_pull_secrets : List String
  pub service_account : String
  pub priority_class : String
  pub runtime_class : Option String
  pub node_name : String

-- A ReplicaSet or a Job.
pub record OwnedObject : Type 0 where
  pub namespace : String
  pub name : String
  pub owners : List Owner

pub record Claim : Type 0 where
  pub namespace : String
  pub name : String
  pub volume_name : String

-- `targets` holds the kind and the name of each `TargetRef`, `service` the label of the service.
pub record Slice : Type 0 where
  pub namespace : String
  pub name : String
  pub targets : List (Option (String × String))
  pub service : String

pub record ServiceObject : Type 0 where
  pub namespace : String
  pub name : String
  pub selector : List (String × String)

-- `rules` holds, for each rule, none where `HTTP` is nil, and else the service of each path.
pub record IngressObject : Type 0 where
  pub namespace : String
  pub name : String
  pub default_service : Option String
  pub rules : List (Option (List (Option String)))
  pub tls_secrets : List String

-- `services` holds the namespace and the name of the service of each webhook.
pub record WebhookObject : Type 0 where
  pub name : String
  pub services : List (Option (String × String))

pub record Objects : Type 0 where
  pub pods : List PodObject
  pub replica_sets : List OwnedObject
  pub jobs : List OwnedObject
  pub claims : List Claim
  pub slices : List Slice
  pub services : List ServiceObject
  pub ingresses : List IngressObject
  pub validating_webhooks : List WebhookObject
  pub mutating_webhooks : List WebhookObject
