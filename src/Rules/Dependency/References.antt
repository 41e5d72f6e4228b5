-- ===== src/Rules/Dependency/References.antt =====
-- `podDependencies` of internal/rules/dependency.go.
use k8s_diagnose.Prelude.{
  String, Bool, false, Option, none, some, List, [], ◌∷◌, ◌++◌, ◌==◌, if◌then◌else◌, concat,
}
use k8s_diagnose.Rules.Dependency.Objects.{
  ObjectReference, KeyReference, EnvFrom, EnvVar, ContainerSpec, ItemSource, VolumeSource,
  PodObject,
}

pub record ObjectDependency : Type 0 where
  pub kind : String
  pub namespace : String
  pub name : String
  pub key : String
  pub source : String
  pub optional : Bool

module _ {ℓ κ} {A : Type ℓ} {B : Type κ} where
  -- The results of a loop that appends, one item after the other.
  abbrev pub flat_map : (A → List B) → List A → List B
  flat_map f [] = []
  flat_map f (x ∷ xs) = f x ++ flat_map f xs

-- One dependency, where the name is not empty.
abbrev unless_empty : String → ObjectDependency → List ObjectDependency
unless_empty name d = if name == "" then [] else d ∷ []

module _ (namespace : String) where
  abbrev dependency : String → String → String → String → Bool → ObjectDependency
  dependency kind name key source optional = record {
    kind = kind;
    namespace = namespace;
    name = name;
    key = key;
    source = source;
    optional = optional;
  }

  abbrev of_object : String → String → Option ObjectReference → List ObjectDependency
  of_object kind source none = []
  of_object kind source (some r) = dependency kind r.name "" source r.optional ∷ []

  abbrev of_key : String → String → Option KeyReference → List ObjectDependency
  of_key kind source none = []
  of_key kind source (some r) = dependency kind r.name r.key source r.optional ∷ []

  -- One dependency for each key, and one without a key where there are none.
  abbrev item_dependencies : String → String → String → Bool → List String → List ObjectDependency
  item_dependencies kind source name optional [] = dependency kind name "" source optional ∷ []
  item_dependencies kind source name optional (key ∷ keys) =
      flat_map (λ k. dependency kind name k source optional ∷ []) (key ∷ keys)

  abbrev of_items : String → String → Option ItemSource → List ObjectDependency
  of_items kind source none = []
  of_items kind source (some s) = item_dependencies kind source s.name s.optional s.items

  abbrev of_claim : String → Option String → List ObjectDependency
  of_claim source none = []
  of_claim source (some name) = dependency "PersistentVolumeClaim" name "" source false ∷ []

  -- `addVolumeSecret`
  abbrev of_driver : String → Option String → List ObjectDependency
  of_driver source none = []
  of_driver source (some name) = unless_empty name (dependency "Secret" name "" source false)

  -- `addContainer`
  unfoldable pub container_dependencies : String → ContainerSpec → List ObjectDependency
  unfolding concat
  container_dependencies prefix c =
      flat_map
        (λ (e : EnvFrom).
          of_object "ConfigMap" (concat (prefix ∷ ".envFrom.configMapRef" ∷ [])) e.config_map
          ++ of_object "Secret" (concat (prefix ∷ ".envFrom.secretRef" ∷ [])) e.secret)
        c.env_from
      ++ flat_map
          (λ (e : EnvVar).
            of_key "ConfigMap" (concat (prefix ∷ ".env." ∷ e.name ∷ [])) e.config_map_key
            ++ of_key "Secret" (concat (prefix ∷ ".env." ∷ e.name ∷ [])) e.secret_key)
          c.env

  -- The body of the loop over the volumes.
  unfoldable pub volume_dependencies : VolumeSource → List ObjectDependency
  unfolding concat
  volume_dependencies v =
      let volume = concat ("volume/" ∷ v.name ∷ []) in
      let projected = concat ("projected/" ∷ v.name ∷ []) in
      of_items "ConfigMap" volume v.config_map
      ++ of_items "Secret" volume v.secret
      ++ of_claim volume v.claim
      ++ flat_map
          (λ (s : Option ItemSource × Option ItemSource).
            of_items "ConfigMap" projected s.0 ++ of_items "Secret" projected s.1)
          v.projected
      ++ flat_map (λ (d : String × Option String). of_driver (concat (volume ∷ "." ∷ d.0 ∷ [])) d.1)
          v.drivers
      ++ of_driver (concat (volume ∷ ".azureFile.secretName" ∷ [])) v.azure_file

abbrev cluster_dependency : String → String → String → List ObjectDependency
cluster_dependency kind source name =
    if name == ""
    then []
    else record {
      kind = kind;
      namespace = "";
      name = name;
      key = "";
      source = source;
      optional = false;
    }
      ∷ []

abbrev or_empty : Option String → String
or_empty none = ""
or_empty (some s) = s

unfoldable pub pod_dependencies : PodObject → List ObjectDependency
unfolding container_dependencies volume_dependencies concat
pod_dependencies p =
    flat_map (λ c. container_dependencies p.namespace (concat ("initContainer/" ∷ c.name ∷ [])) c)
      p.init_containers
    ++ flat_map (λ c. container_dependencies p.namespace (concat ("container/" ∷ c.name ∷ [])) c)
        p.containers
    ++ flat_map
        (λ c. container_dependencies p.namespace (concat ("ephemeralContainer/" ∷ c.name ∷ [])) c)
        p.ephemeral_containers
    ++ flat_map (volume_dependencies p.namespace) p.volumes
    ++ flat_map (λ s. dependency p.namespace "Secret" s "" "imagePullSecrets" false ∷ [])
        p.image_pull_secrets
    ++ dependency p.namespace "ServiceAccount"
        (if p.service_account == "" then "default" else p.service_account) "" "serviceAccountName"
        false
      ∷ []
    ++ cluster_dependency "PriorityClass" "priorityClassName" p.priority_class
    ++ cluster_dependency "RuntimeClass" "runtimeClassName" (or_empty p.runtime_class)
