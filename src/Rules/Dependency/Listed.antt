-- ===== src/Rules/Dependency/Listed.antt =====
-- Each link that the objects ask for is one that the code makes.
use k8s_diagnose.Prelude.{
  String, Bool, true, false, some, List, [], ◌≡◌, refl, ◌==◌, ◌&&◌, if◌then◌else◌, eq_iff, is_empty,
  Memᴰ, Memᴰ-keep_of,
}
use mathlib.Core.List.Memᴰ
use k8s_diagnose.Rules.Registry.{ref}
use k8s_diagnose.Rules.Dependency.Objects.{PodObject, Slice, ServiceObject, IngressObject, Objects}
use k8s_diagnose.Rules.Dependency.Build.{
  Link, link, is_required, pod_links, replica_set_links, job_links, claim_links, slice_links,
  selected, service_links, backend_link, rule_links, ingress_links, webhook_links, all_links,
}
use k8s_diagnose.Rules.Dependency.Relations.{
  Asks, plain, pod_ref, probed, needed, claimed, member, scheduled, replica_set, job, bound,
  registered, served, chosen, default_backend, path_backend, tls, validating, mutating,
  Memᴰ-flat_map,
}
use k8s_diagnose.Rules.Dependency.Made.{
  probe-in, required-in, claim-in, owner-in, node-in, replica_set-in, job-in, slice-target-in,
  slice-service-in, default-in, backend-in, webhook-in, kept_else, is_required-holds,
}

module _ (claim_name : String → String → String)
    (matches : List (String × String) → List (String × String) → Bool) (o : Objects) where
  selected-in :
      (v : ServiceObject) (p : PodObject)
      → Memᴰ p o.pods
      → is_empty v.selector ≡ false
      → p.namespace ≡ v.namespace
      → matches v.selector p.labels ≡ true
      → Memᴰ
          (plain (pod_ref p) (ref "Service" v.namespace v.name) "service-selector")
          (service_links matches o.pods v)
  unfolding service_links selected
  selected-in v p m named same fits =
      Memᴰ-flat_map
        (λ (q : PodObject). link (pod_ref q) (ref "Service" v.namespace v.name) "service-selector")
        p _ (selected matches v o.pods)
        (kept_else (is_empty v.selector) _ named (
          Memᴰ-keep_of
            (λ (q : PodObject). q.namespace == v.namespace && matches v.selector q.labels) p o.pods
            m (rw ((eq_iff p.namespace v.namespace).1 same, fits) refl)))
        (Memᴰ.head refl)

  abbrev L : List Link
  L = all_links claim_name matches o

  -- The place of each kind of objects in the list.
  of_pod : (p : PodObject) (l : Link) → Memᴰ p o.pods → Memᴰ l (pod_links claim_name p) → Memᴰ l L
  unfolding all_links
  of_pod p l m h = Memᴰ.append_left _ (
      Memᴰ.append_left _ (
        Memᴰ.append_left _ (
          Memᴰ.append_left _ (
            Memᴰ.append_left _ (
              Memᴰ.append_left _ (
                Memᴰ.append_left _
                  (Memᴰ.append_left _ (Memᴰ-flat_map (pod_links claim_name) p l o.pods m h))))))))

  of_slice : (s : Slice) (l : Link) → Memᴰ s o.slices → Memᴰ l (slice_links s) → Memᴰ l L
  unfolding all_links
  of_slice s l m h = Memᴰ.append_left _ (
      Memᴰ.append_left _ (
        Memᴰ.append_left _
          (Memᴰ.append_left _ (Memᴰ.append_right _ (Memᴰ-flat_map slice_links s l o.slices m h)))))

  of_ingress :
      (i : IngressObject) (l : Link) → Memᴰ i o.ingresses → Memᴰ l (ingress_links i) → Memᴰ l L
  unfolding all_links
  of_ingress i l m h =
      Memᴰ.append_left _
        (Memᴰ.append_left _ (Memᴰ.append_right _ (Memᴰ-flat_map ingress_links i l o.ingresses m h)))

  pub Asks-all_links : (l : Link) → Asks claim_name matches o l → Memᴰ l L
  unfolding all_links claim_links ingress_links backend_link is_required
  Asks-all_links l (probed {p} {c} {name} m h k) = of_pod p _ m (probe-in claim_name p c name h k)
  Asks-all_links l (needed {p} {d} m n necessary lasting) =
      of_pod p _ m (required-in claim_name p d n (is_required-holds _ _ necessary lasting))
  Asks-all_links l (claimed {p} {v} m n free own) =
      of_pod p _ m (claim-in claim_name p v n free own)
  Asks-all_links l (member {p} {w} m e) = of_pod p _ m (owner-in claim_name p w e)
  Asks-all_links l (scheduled {p} m h) = of_pod p _ m (node-in claim_name p h)
  Asks-all_links l (replica_set {s} {w} m e) = Memᴰ.append_left _ (
      Memᴰ.append_left _ (
        Memᴰ.append_left _ (
          Memᴰ.append_left _ (
            Memᴰ.append_left _ (
              Memᴰ.append_left _ (
                Memᴰ.append_left _ (
                  Memᴰ.append_right _ (
                    Memᴰ-flat_map replica_set_links s _ o.replica_sets m
                      (replica_set-in s w e)))))))))
  Asks-all_links l (job {j} {w} m e h) = Memᴰ.append_left _ (
      Memᴰ.append_left _ (
        Memᴰ.append_left _ (
          Memᴰ.append_left _ (
            Memᴰ.append_left _ (
              Memᴰ.append_left _
                (Memᴰ.append_right _ (Memᴰ-flat_map job_links j _ o.jobs m (job-in j w e h))))))))
  Asks-all_links l (bound {c} m h) = Memᴰ.append_left _ (
      Memᴰ.append_left _ (
        Memᴰ.append_left _ (
          Memᴰ.append_left _ (
            Memᴰ.append_left _ (
              Memᴰ.append_right _ (
                Memᴰ-flat_map claim_links c _ o.claims m
                  (kept_else (c.volume_name == "") _ h (Memᴰ.head refl))))))))
  Asks-all_links l (registered {s} {name} m k) = of_slice s _ m (slice-target-in s name k)
  Asks-all_links l (served {s} m h) = of_slice s _ m (slice-service-in s h)
  Asks-all_links l (chosen {v} {p} m k named same fits) = Memᴰ.append_left _ (
      Memᴰ.append_left _ (
        Memᴰ.append_left _ (
          Memᴰ.append_right _ (
            Memᴰ-flat_map (service_links matches o.pods) v _ o.services m
              (selected-in v p k named same fits)))))
  Asks-all_links l (default_backend {i} {name} m e) =
      of_ingress i _ m (
        Memᴰ.append_left _ (Memᴰ.append_left _ (default-in i.namespace _ i.default_service name e)))
  Asks-all_links l (path_backend {i} {paths} {name} m k n) = of_ingress i _ m (
      Memᴰ.append_left _ (
        Memᴰ.append_right _ (
          Memᴰ-flat_map (rule_links i.namespace (ref "Ingress" i.namespace i.name)) (some paths) _
            i.rules k (backend-in i.namespace _ paths name n))))
  Asks-all_links l (tls {i} {secret} m k h) = of_ingress i _ m (
      Memᴰ.append_right _ (
        Memᴰ-flat_map
          (λ s.
            if s == ""
            then []
            else link (ref "Secret" i.namespace s) (ref "Ingress" i.namespace i.name) "ingress-tls")
          secret _ i.tls_secrets k (kept_else (secret == "") _ h (Memᴰ.head refl))))
  Asks-all_links l (validating {w} {namespace} {name} m k) = Memᴰ.append_left _ (
      Memᴰ.append_right _ (
        Memᴰ-flat_map (webhook_links "ValidatingWebhookConfiguration") w _ o.validating_webhooks m
          (webhook-in _ w namespace name k)))
  Asks-all_links l (mutating {w} {namespace} {name} m k) = Memᴰ.append_right _ (
      Memᴰ-flat_map (webhook_links "MutatingWebhookConfiguration") w _ o.mutating_webhooks m
        (webhook-in _ w namespace name k))
