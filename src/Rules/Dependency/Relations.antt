-- ===== src/Rules/Dependency/Relations.antt =====
-- Which links the objects of a snapshot ask for, as a relation: one constructor for each way.
use k8s_diagnose.Prelude.{
  String, Bool, true, false, Option, none, some, List, [], ◌∷◌, ◌≡◌, ◌⊎◌, subst, ◌==◌, starts_with,
  is_empty, Memᴰ,
}
use mathlib.Core.List.Memᴰ
use k8s_diagnose.Rules.Registry.{ref}
use k8s_diagnose.Rules.Dependency.Objects.{
  ContainerSpec, VolumeSource, Owner, PodObject, OwnedObject, Claim, Slice, ServiceObject,
  IngressObject, WebhookObject, Objects,
}
use k8s_diagnose.Rules.Dependency.References.{ObjectDependency, pod_dependencies, flat_map}
use k8s_diagnose.Rules.Dependency.Build.{Link, probe_resource, owner_ref}

pub Memᴰ-flat_map {ℓ κ} :
    {A : Type ℓ} {B : Type κ} (f : A → List B) (x : A) (y : B) (xs : List A)
    → Memᴰ x xs
    → Memᴰ y (f x)
    → Memᴰ y (flat_map f xs)
Memᴰ-flat_map f x y [] m h = absurd (Memᴰ.not-nil m)
Memᴰ-flat_map f x y (z ∷ zs) (Memᴰ.head e) h = Memᴰ.append_left _ (subst (λ w. Memᴰ y (f w)) e h)
Memᴰ-flat_map f x y (z ∷ zs) (Memᴰ.tail m) h = Memᴰ.append_right (f z) (Memᴰ-flat_map f x y zs m h)

-- The link from what a Pod requires to the Pod.
abbrev pub required_by : PodObject → ObjectDependency → Link
required_by p d = record {
  from = ref d.kind d.namespace d.name;
  to = ref "Pod" p.namespace p.name;
  relation = "required-by-pod";
  key = d.key;
}

abbrev pub plain : String → String → String → Link
plain from to relation = record { from = from; to = to; relation = relation; key = "" }

abbrev pub pod_ref : PodObject → String
pod_ref p = ref "Pod" p.namespace p.name

-- A container that is probed: an ordinary one, or one of initialization that keeps running.
abbrev pub IsProbed : PodObject → ContainerSpec → Type 0
IsProbed p c = Memᴰ c p.containers ⊎ (Memᴰ c p.init_containers × (c.restarts_always ≡ true))

abbrev pub HasProbe : ContainerSpec → String → Type 0
HasProbe c name =
    ((c.readiness ≡ true) × (name ≡ "readinessProbe"))
    ⊎ ((c.liveness ≡ true) × (name ≡ "livenessProbe"))
    ⊎ ((c.startup ≡ true) × (name ≡ "startupProbe"))

module _ (claim_name : String → String → String)
    (matches : List (String × String) → List (String × String) → Bool) (o : Objects) where
  pub data Asks : Link → Type 0 where
    probed :
        {p : PodObject} {c : ContainerSpec} {name : String}
        → Memᴰ p o.pods
        → IsProbed p c
        → HasProbe c name
        → Asks (plain (probe_resource p.namespace p.name c.name name) (pod_ref p) "probe-controls")
    needed :
        {p : PodObject} {d : ObjectDependency}
        → Memᴰ p o.pods
        → Memᴰ d (pod_dependencies p)
        → d.optional ≡ false
        → starts_with d.source "ephemeralContainer/" ≡ false
        → Asks (required_by p d)
    claimed :
        {p : PodObject} {v : VolumeSource}
        → Memᴰ p o.pods
        → Memᴰ v p.volumes
        → v.claim ≡ none
        → v.ephemeral ≡ true
        → Asks (
            plain
              (ref "PersistentVolumeClaim" p.namespace (claim_name p.name v.name))
              (pod_ref p)
              "generic-ephemeral-volume")
    member :
        {p : PodObject} {w : Owner}
        → Memᴰ p o.pods
        → owner_ref p.owners ≡ some w
        → Asks (plain (pod_ref p) (ref w.kind p.namespace w.name) "workload-member")
    scheduled :
        {p : PodObject}
        → Memᴰ p o.pods
        → (p.node_name == "") ≡ false
        → Asks (plain (ref "Node" "" p.node_name) (pod_ref p) "scheduled-pod")
    replica_set :
        {s : OwnedObject} {w : Owner}
        → Memᴰ s o.replica_sets
        → owner_ref s.owners ≡ some w
        → Asks (
            plain
              (ref "ReplicaSet" s.namespace s.name)
              (ref w.kind s.namespace w.name)
              "owned-workload")
    job :
        {j : OwnedObject} {w : Owner}
        → Memᴰ j o.jobs
        → owner_ref j.owners ≡ some w
        → w.kind ≡ "CronJob"
        → Asks
            (plain (ref "Job" j.namespace j.name) (ref w.kind j.namespace w.name) "owned-workload")
    bound :
        {c : Claim}
        → Memᴰ c o.claims
        → (c.volume_name == "") ≡ false
        → Asks (
            plain
              (ref "PersistentVolume" "" c.volume_name)
              (ref "PersistentVolumeClaim" c.namespace c.name)
              "volume-binding")
    registered :
        {s : Slice} {name : String}
        → Memᴰ s o.slices
        → Memᴰ (some ("Pod", name)) s.targets
        → Asks (
            plain
              (ref "Pod" s.namespace name)
              (ref "EndpointSlice" s.namespace s.name)
              "endpoint-registration")
    served :
        {s : Slice}
        → Memᴰ s o.slices
        → (s.service == "") ≡ false
        → Asks (
            plain
              (ref "EndpointSlice" s.namespace s.name)
              (ref "Service" s.namespace s.service)
              "service-endpoints")
    chosen :
        {v : ServiceObject} {p : PodObject}
        → Memᴰ v o.services
        → Memᴰ p o.pods
        → is_empty v.selector ≡ false
        → p.namespace ≡ v.namespace
        → matches v.selector p.labels ≡ true
        → Asks (plain (pod_ref p) (ref "Service" v.namespace v.name) "service-selector")
    default_backend :
        {i : IngressObject} {name : String}
        → Memᴰ i o.ingresses
        → i.default_service ≡ some name
        → Asks (
            plain
              (ref "Service" i.namespace name)
              (ref "Ingress" i.namespace i.name)
              "ingress-backend")
    path_backend :
        {i : IngressObject} {paths : List (Option String)} {name : String}
        → Memᴰ i o.ingresses
        → Memᴰ (some paths) i.rules
        → Memᴰ (some name) paths
        → Asks (
            plain
              (ref "Service" i.namespace name)
              (ref "Ingress" i.namespace i.name)
              "ingress-backend")
    tls :
        {i : IngressObject} {secret : String}
        → Memᴰ i o.ingresses
        → Memᴰ secret i.tls_secrets
        → (secret == "") ≡ false
        → Asks (
            plain
              (ref "Secret" i.namespace secret)
              (ref "Ingress" i.namespace i.name)
              "ingress-tls")
    validating :
        {w : WebhookObject} {namespace name : String}
        → Memᴰ w o.validating_webhooks
        → Memᴰ (some (namespace, name)) w.services
        → Asks (
            plain
              (ref "Service" namespace name)
              (ref "ValidatingWebhookConfiguration" "" w.name)
              "webhook-client")
    mutating :
        {w : WebhookObject} {namespace name : String}
        → Memᴰ w o.mutating_webhooks
        → Memᴰ (some (namespace, name)) w.services
        → Asks (
            plain
              (ref "Service" namespace name)
              (ref "MutatingWebhookConfiguration" "" w.name)
              "webhook-client")
