-- ===== src/Rules/Dependency/Made.antt =====
-- The links of one object, as the code makes them, hold each one that it asks for.
use k8s_diagnose.Prelude.{
  String, Bool, true, false, not, Option, none, some, List, [], ◌≡◌, refl, ap, ◌∙◌, ◌==◌, ◌&&◌,
  ◌||◌, if◌then◌else◌, eq_iff, is_some, Memᴰ, Memᴰ-keep_of, arith,
}
use mathlib.Core.List.Memᴰ
use mathlib.Core.Logic.{⊎_elim}
use k8s_diagnose.Rules.Registry.{ref}
use k8s_diagnose.Rules.Dependency.Objects.{
  ContainerSpec, VolumeSource, Owner, PodObject, OwnedObject, Slice, WebhookObject,
}
use k8s_diagnose.Rules.Dependency.References.{ObjectDependency, pod_dependencies}
use k8s_diagnose.Rules.Dependency.Build.{
  Link, link, probe_resource, probes_of, probed_containers, owner_ref, owner_link, is_required,
  required_link, ephemeral_link, pod_links, replica_set_links, cron_job, job_links, target_link,
  slice_links, backend_link, rule_links, webhook_link, webhook_links,
}
use k8s_diagnose.Rules.Dependency.Relations.{
  plain, pod_ref, required_by, IsProbed, HasProbe, Memᴰ-flat_map,
}

module _ {ℓ} {A : Type ℓ} where
  pub kept_else :
      (b : Bool) {y : A} (xs : List A) → b ≡ false → Memᴰ y xs → Memᴰ y (if b then [] else xs)
  kept_else b xs h m = rw h m

  kept_then :
      (b : Bool) {y : A} (xs : List A) → b ≡ true → Memᴰ y xs → Memᴰ y (if b then xs else [])
  kept_then b xs h m = rw h m

owner_link-in :
    (from namespace relation : String) (o : Option Owner) (w : Owner)
    → o ≡ some w
    → Memᴰ
        (plain from (ref w.kind namespace w.name) relation)
        (owner_link from namespace relation o)
owner_link-in from namespace relation o w e = rw e (Memᴰ.head refl)

HasProbe-probes_of : (c : ContainerSpec) (name : String) → HasProbe c name → Memᴰ name (probes_of c)
unfolding probes_of
HasProbe-probes_of c name h =
    ⊎_elim
      (λ (b, e). Memᴰ.append_left _ (Memᴰ.append_left _ (kept_then c.readiness _ b (Memᴰ.head e))))
      (λ r.
        ⊎_elim
          (λ (b, e).
            Memᴰ.append_left _ (Memᴰ.append_right _ (kept_then c.liveness _ b (Memᴰ.head e))))
          (λ (b, e). Memᴰ.append_right _ (kept_then c.startup _ b (Memᴰ.head e))) r)
      h

IsProbed-probed_containers :
    (p : PodObject) (c : ContainerSpec) → IsProbed p c → Memᴰ c (probed_containers p)
IsProbed-probed_containers p c h =
    ⊎_elim (λ m. Memᴰ.append_right _ m)
      (λ (m, b).
        Memᴰ.append_left _
          (Memᴰ-keep_of (λ (d : ContainerSpec). d.restarts_always) c p.init_containers m b))
      h

pub is_required-holds : (a b : Bool) → a ≡ false → b ≡ false → not (a || b) ≡ true
is_required-holds a b h k = ground arith

module _ (claim_name : String → String → String) (p : PodObject) where
  abbrev IsLink : Link → Type 0
  IsLink l = Memᴰ l (pod_links claim_name p)

  pub probe-in :
      (c : ContainerSpec) (name : String)
      → IsProbed p c
      → HasProbe c name
      → IsLink (plain (probe_resource p.namespace p.name c.name name) (pod_ref p) "probe-controls")
  unfolding pod_links
  probe-in c name h k = Memᴰ.append_left _ (
      Memᴰ.append_left _ (
        Memᴰ.append_left _ (
          Memᴰ.append_left _ (
            Memᴰ-flat_map _ c _ (probed_containers p) (IsProbed-probed_containers p c h) (
              Memᴰ-flat_map
                (λ probe.
                  link (probe_resource p.namespace p.name c.name probe) (pod_ref p)
                    "probe-controls")
                name _ (probes_of c) (HasProbe-probes_of c name k) (Memᴰ.head refl))))))

  pub required-in :
      (d : ObjectDependency)
      → Memᴰ d (pod_dependencies p)
      → is_required d ≡ true
      → IsLink (required_by p d)
  unfolding pod_links required_link
  required-in d m h = Memᴰ.append_left _ (
      Memᴰ.append_left _ (
        Memᴰ.append_left _ (
          Memᴰ.append_right _ (
            Memᴰ-flat_map (required_link (pod_ref p)) d _ (pod_dependencies p) m
              (kept_then (is_required d) _ h (Memᴰ.head refl))))))

  pub claim-in :
      (v : VolumeSource)
      → Memᴰ v p.volumes
      → v.claim ≡ none
      → v.ephemeral ≡ true
      → IsLink (
          plain
            (ref "PersistentVolumeClaim" p.namespace (claim_name p.name v.name))
            (pod_ref p)
            "generic-ephemeral-volume")
  unfolding pod_links ephemeral_link
  claim-in v m free own = Memᴰ.append_left _ (
      Memᴰ.append_left _ (
        Memᴰ.append_right _ (
          Memᴰ-flat_map (ephemeral_link claim_name p) v _ p.volumes m (
            kept_then (not (is_some v.claim) && v.ephemeral) _ (rw (free, own) refl)
              (Memᴰ.head refl)))))

  pub owner-in :
      (w : Owner)
      → owner_ref p.owners ≡ some w
      → IsLink (plain (pod_ref p) (ref w.kind p.namespace w.name) "workload-member")
  unfolding pod_links
  owner-in w e = Memᴰ.append_left _ (
      Memᴰ.append_right _
        (owner_link-in (pod_ref p) p.namespace "workload-member" (owner_ref p.owners) w e))

  pub node-in :
      (p.node_name == "") ≡ false
      → IsLink (plain (ref "Node" "" p.node_name) (pod_ref p) "scheduled-pod")
  unfolding pod_links
  node-in h = Memᴰ.append_right _ (kept_else (p.node_name == "") _ h (Memᴰ.head refl))

pub replica_set-in :
    (s : OwnedObject) (w : Owner)
    → owner_ref s.owners ≡ some w
    → Memᴰ
        (plain
          (ref "ReplicaSet" s.namespace s.name)
          (ref w.kind s.namespace w.name)
          "owned-workload")
        (replica_set_links s)
unfolding replica_set_links
replica_set-in s w e = owner_link-in _ s.namespace "owned-workload" (owner_ref s.owners) w e

cron_job-some : (w : Owner) → w.kind ≡ "CronJob" → cron_job (some w) ≡ some w
cron_job-some w h = rw ((eq_iff w.kind "CronJob").1 h) refl

pub job-in :
    (j : OwnedObject) (w : Owner)
    → owner_ref j.owners ≡ some w
    → w.kind ≡ "CronJob"
    → Memᴰ
        (plain (ref "Job" j.namespace j.name) (ref w.kind j.namespace w.name) "owned-workload")
        (job_links j)
unfolding job_links
job-in j w e h =
    owner_link-in _ j.namespace "owned-workload" (cron_job (owner_ref j.owners)) w
      (ap cron_job e ∙ cron_job-some w h)

pub slice-target-in :
    (s : Slice) (name : String)
    → Memᴰ (some ("Pod", name)) s.targets
    → Memᴰ
        (plain
          (ref "Pod" s.namespace name)
          (ref "EndpointSlice" s.namespace s.name)
          "endpoint-registration")
        (slice_links s)
unfolding slice_links target_link
slice-target-in s name m = Memᴰ.append_left _ (
    Memᴰ-flat_map (target_link s.namespace (ref "EndpointSlice" s.namespace s.name)) _ _ s.targets m
      (Memᴰ.head refl))

pub slice-service-in :
    (s : Slice)
    → (s.service == "") ≡ false
    → Memᴰ
        (plain
          (ref "EndpointSlice" s.namespace s.name)
          (ref "Service" s.namespace s.service)
          "service-endpoints")
        (slice_links s)
unfolding slice_links
slice-service-in s h = Memᴰ.append_right _ (kept_else (s.service == "") _ h (Memᴰ.head refl))

pub default-in :
    (namespace ingress : String) (o : Option String) (name : String)
    → o ≡ some name
    → Memᴰ
        (plain (ref "Service" namespace name) ingress "ingress-backend")
        (backend_link namespace ingress o)
unfolding backend_link
default-in namespace ingress o name e = rw e (Memᴰ.head refl)

pub backend-in :
    (namespace ingress : String) (paths : List (Option String)) (name : String)
    → Memᴰ (some name) paths
    → Memᴰ
        (plain (ref "Service" namespace name) ingress "ingress-backend")
        (rule_links namespace ingress (some paths))
unfolding rule_links backend_link
backend-in namespace ingress paths name m =
    Memᴰ-flat_map (backend_link namespace ingress) (some name) _ paths m (Memᴰ.head refl)

pub webhook-in :
    (kind : String) (w : WebhookObject) (namespace name : String)
    → Memᴰ (some (namespace, name)) w.services
    → Memᴰ
        (plain (ref "Service" namespace name) (ref kind "" w.name) "webhook-client")
        (webhook_links kind w)
unfolding webhook_links webhook_link
webhook-in kind w namespace name m =
    Memᴰ-flat_map (webhook_link (ref kind "" w.name)) (some (namespace, name)) _ w.services m
      (Memᴰ.head refl)
