-- ===== src/Rules/Dependency/Build.antt =====
-- `buildDependencyGraph`: the edges that the code adds, in its order. `claim_name` stands for
-- VolumeClaimName of k8s.io/component-helpers, from the names of a Pod and a volume, and `matches`
-- for Matches of the selector of k8s.io/apimachinery that a map of labels makes.
use k8s_diagnose.Prelude.{
  String, Bool, not, Option, none, some, List, [], ◌∷◌, ◌++◌, ◌==◌, ◌&&◌, ◌||◌, if◌then◌else◌,
  concat, starts_with, is_empty, find_first, is_some, keep,
}
use k8s_diagnose.Rules.Graph.{Graph, add}
use k8s_diagnose.Rules.Registry.{ref}
use k8s_diagnose.Rules.Dependency.Objects.{
  ContainerSpec, VolumeSource, Owner, PodObject, OwnedObject, Claim, Slice, ServiceObject,
  IngressObject, WebhookObject, Objects,
}
use k8s_diagnose.Rules.Dependency.References.{ObjectDependency, pod_dependencies, flat_map}

-- The arguments of one call of `add`.
pub record Link : Type 0 where
  pub from : String
  pub to : String
  pub relation : String
  pub key : String

abbrev pub link : String → String → String → List Link
link from to relation = record { from = from; to = to; relation = relation; key = "" } ∷ []

unfoldable pub probe_resource : String → String → String → String → String
unfolding concat
probe_resource namespace pod container probe =
    concat ("Probe/" ∷ namespace ∷ "/" ∷ pod ∷ "/" ∷ container ∷ "/" ∷ probe ∷ [])

-- The first of the owners, for where there is no controller.
abbrev first_owner : List Owner → Option Owner
first_owner [] = none
first_owner (o ∷ os) = some o

abbrev or_first : Option Owner → List Owner → Option Owner
or_first none owners = first_owner owners
or_first (some o) owners = some o

unfoldable pub owner_ref : List Owner → Option Owner
owner_ref owners = or_first (find_first (λ (o : Owner). o.controller) owners) owners

-- `forEachPodProbe`: the names of the probes of one container.
unfoldable pub probes_of : ContainerSpec → List String
probes_of c =
    (if c.readiness then "readinessProbe" ∷ [] else [])
    ++ (if c.liveness then "livenessProbe" ∷ [] else [])
    ++ (if c.startup then "startupProbe" ∷ [] else [])

abbrev pub probed_containers : PodObject → List ContainerSpec
probed_containers p =
    keep (λ (c : ContainerSpec). c.restarts_always) p.init_containers ++ p.containers

abbrev pub owner_link : String → String → String → Option Owner → List Link
owner_link from namespace relation none = []
owner_link from namespace relation (some o) = link from (ref o.kind namespace o.name) relation

-- A reference that is not optional and not of an ephemeral container.
unfoldable pub is_required : ObjectDependency → Bool
is_required d = not (d.optional || starts_with d.source "ephemeralContainer/")

unfoldable pub required_link : String → ObjectDependency → List Link
unfolding ref is_required
required_link pod d =
    if is_required d
    then record {
      from = ref d.kind d.namespace d.name;
      to = pod;
      relation = "required-by-pod";
      key = d.key;
    }
      ∷ []
    else []

module _ (claim_name : String → String → String) where
  -- `podPVCReferences`, the ephemeral ones: a volume that has a claim of its own is none.
  unfoldable pub ephemeral_link : PodObject → VolumeSource → List Link
  unfolding ref
  ephemeral_link p v =
      if not (is_some v.claim) && v.ephemeral
      then link (ref "PersistentVolumeClaim" p.namespace (claim_name p.name v.name))
          (ref "Pod" p.namespace p.name) "generic-ephemeral-volume"
      else []

  unfoldable pub pod_links : PodObject → List Link
  unfolding ref probe_resource probes_of pod_dependencies required_link ephemeral_link owner_ref
  pod_links p =
      let pod = ref "Pod" p.namespace p.name in
      flat_map
        (λ c.
          flat_map
            (λ probe. link (probe_resource p.namespace p.name c.name probe) pod "probe-controls")
            (probes_of c))
        (probed_containers p)
      ++ flat_map (required_link pod) (pod_dependencies p)
      ++ flat_map (ephemeral_link p) p.volumes
      ++ owner_link pod p.namespace "workload-member" (owner_ref p.owners)
      ++ (if p.node_name == "" then [] else link (ref "Node" "" p.node_name) pod "scheduled-pod")

unfoldable pub replica_set_links : OwnedObject → List Link
unfolding ref owner_ref
replica_set_links s =
    owner_link (ref "ReplicaSet" s.namespace s.name) s.namespace "owned-workload"
      (owner_ref s.owners)

abbrev pub cron_job : Option Owner → Option Owner
cron_job none = none
cron_job (some o) = if o.kind == "CronJob" then some o else none

unfoldable pub job_links : OwnedObject → List Link
unfolding ref owner_ref
job_links j =
    owner_link (ref "Job" j.namespace j.name) j.namespace "owned-workload"
      (cron_job (owner_ref j.owners))

unfoldable pub claim_links : Claim → List Link
unfolding ref
claim_links c =
    if c.volume_name == ""
    then []
    else link (ref "PersistentVolume" "" c.volume_name)
        (ref "PersistentVolumeClaim" c.namespace c.name) "volume-binding"

unfoldable pub target_link : String → String → Option (String × String) → List Link
unfolding ref
target_link namespace slice none = []
target_link namespace slice (some (kind, name)) =
    if kind == "Pod" then link (ref "Pod" namespace name) slice "endpoint-registration" else []

unfoldable pub slice_links : Slice → List Link
unfolding ref target_link
slice_links s =
    let slice = ref "EndpointSlice" s.namespace s.name in
    flat_map (target_link s.namespace slice) s.targets
    ++ (if s.service == ""
        then []
        else link slice (ref "Service" s.namespace s.service) "service-endpoints")

module _ (matches : List (String × String) → List (String × String) → Bool) where
  -- `selected`: a service without a selector selects nothing.
  unfoldable pub selected : ServiceObject → List PodObject → List PodObject
  selected s pods =
      if is_empty s.selector
      then []
      else keep (λ (p : PodObject). p.namespace == s.namespace && matches s.selector p.labels) pods

  unfoldable pub service_links : List PodObject → ServiceObject → List Link
  unfolding ref selected
  service_links pods s =
      flat_map
        (λ (p : PodObject).
          link (ref "Pod" p.namespace p.name) (ref "Service" s.namespace s.name) "service-selector")
        (selected s pods)

unfoldable pub backend_link : String → String → Option String → List Link
unfolding ref
backend_link namespace ingress none = []
backend_link namespace ingress (some service) =
    link (ref "Service" namespace service) ingress "ingress-backend"

unfoldable pub rule_links : String → String → Option (List (Option String)) → List Link
unfolding backend_link
rule_links namespace ingress none = []
rule_links namespace ingress (some paths) = flat_map (backend_link namespace ingress) paths

unfoldable pub ingress_links : IngressObject → List Link
unfolding ref rule_links backend_link
ingress_links i =
    let ingress = ref "Ingress" i.namespace i.name in
    backend_link i.namespace ingress i.default_service
    ++ flat_map (rule_links i.namespace ingress) i.rules
    ++ flat_map
        (λ s. if s == "" then [] else link (ref "Secret" i.namespace s) ingress "ingress-tls")
        i.tls_secrets

unfoldable pub webhook_link : String → Option (String × String) → List Link
unfolding ref
webhook_link webhook none = []
webhook_link webhook (some (namespace, name)) =
    link (ref "Service" namespace name) webhook "webhook-client"

unfoldable pub webhook_links : String → WebhookObject → List Link
unfolding ref webhook_link
webhook_links kind w = flat_map (webhook_link (ref kind "" w.name)) w.services

unfoldable pub add_links : List Link → Graph → Graph
unfolding add
add_links [] g = g
add_links (l ∷ ls) g = add_links ls (add g l.from l.to l.relation l.key)

module _ (claim_name : String → String → String)
    (matches : List (String × String) → List (String × String) → Bool) where
  unfoldable pub all_links : Objects → List Link
  unfolding pod_links replica_set_links job_links claim_links slice_links service_links
      ingress_links webhook_links
  all_links o =
      flat_map (pod_links claim_name) o.pods
      ++ flat_map replica_set_links o.replica_sets
      ++ flat_map job_links o.jobs
      ++ flat_map claim_links o.claims
      ++ flat_map slice_links o.slices
      ++ flat_map (service_links matches o.pods) o.services
      ++ flat_map ingress_links o.ingresses
      ++ flat_map (webhook_links "ValidatingWebhookConfiguration") o.validating_webhooks
      ++ flat_map (webhook_links "MutatingWebhookConfiguration") o.mutating_webhooks

  unfoldable pub build_dependency_graph : Objects → Graph
  unfolding all_links add_links
  build_dependency_graph o = add_links (all_links o) []
