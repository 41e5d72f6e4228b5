-- ===== src/Rules/Dependency/Routed.antt =====
-- Each link that the code makes of the slices, the services, the ingresses and the webhooks is one that
-- the objects ask for; and so is each link at all.
use k8s_diagnose.Prelude.{
  String, Bool, true, false, Option, none, some, List, ◌++◌, ◌≡◌, refl, sym, ap, subst, ◌==◌, ◌&&◌,
  eq_iff, is_empty, Memᴰ, Memᴰ-keep, and_parts,
}
use mathlib.Core.List.Memᴰ
use mathlib.Core.Logic.{⊎_elim}
use k8s_diagnose.Rules.Registry.{ref}
use k8s_diagnose.Rules.Dependency.Objects.{
  PodObject, Slice, ServiceObject, IngressObject, WebhookObject, Objects,
}
use k8s_diagnose.Rules.Dependency.References.{flat_map}
use k8s_diagnose.Rules.Dependency.Build.{
  Link, link, target_link, slice_links, selected, service_links, backend_link, rule_links,
  ingress_links, webhook_link, webhook_links, all_links,
}
use k8s_diagnose.Rules.Dependency.Relations.{
  Asks, plain, pod_ref, registered, served, chosen, default_backend, path_backend, tls, validating,
  mutating,
}
use k8s_diagnose.Rules.Dependency.Asked.{
  flat_map-Memᴰ, only, then_nil, else_nil, pod_links-Asks, replica_set_links-Asks, job_links-Asks,
  claim_links-Asks,
}

target_link-cases :
    (namespace slice : String) (t : Option (String × String)) (l : Link)
    → Memᴰ l (target_link namespace slice t)
    → (name : String) × (t ≡ some ("Pod", name))
      × (l ≡ plain (ref "Pod" namespace name) slice "endpoint-registration")
unfolding target_link
target_link-cases namespace slice none l m = absurd (Memᴰ.not-nil m)
target_link-cases namespace slice (some (kind, name)) l m =
    let (b, e) = then_nil (kind == "Pod") _ m in
    (name, ap (λ k. some (k, name)) ((eq_iff kind "Pod").0 b), only e)

backend_link-cases :
    (namespace ingress : String) (n : Option String) (l : Link)
    → Memᴰ l (backend_link namespace ingress n)
    → (name : String) × (n ≡ some name)
      × (l ≡ plain (ref "Service" namespace name) ingress "ingress-backend")
unfolding backend_link
backend_link-cases namespace ingress none l m = absurd (Memᴰ.not-nil m)
backend_link-cases namespace ingress (some name) l m = (name, refl, only m)

rule_links-cases :
    (namespace ingress : String) (r : Option (List (Option String))) (l : Link)
    → Memᴰ l (rule_links namespace ingress r)
    → (paths : List (Option String)) × (name : String) × (r ≡ some paths)
      × Memᴰ (some name) paths
      × (l ≡ plain (ref "Service" namespace name) ingress "ingress-backend")
unfolding rule_links
rule_links-cases namespace ingress none l m = absurd (Memᴰ.not-nil m)
rule_links-cases namespace ingress (some paths) l m =
    let (n, k, h) = flat_map-Memᴰ (backend_link namespace ingress) l paths m in
    let (name, e, same) = backend_link-cases namespace ingress n l h in
    (paths, name, refl, subst (λ x. Memᴰ x paths) e k, same)

webhook_link-cases :
    (webhook : String) (s : Option (String × String)) (l : Link)
    → Memᴰ l (webhook_link webhook s)
    → (namespace : String) × (name : String) × (s ≡ some (namespace, name))
      × (l ≡ plain (ref "Service" namespace name) webhook "webhook-client")
unfolding webhook_link
webhook_link-cases webhook none l m = absurd (Memᴰ.not-nil m)
webhook_link-cases webhook (some (namespace, name)) l m = (namespace, name, refl, only m)

webhook_links-cases :
    (kind : String) (w : WebhookObject) (l : Link)
    → Memᴰ l (webhook_links kind w)
    → (namespace : String) × (name : String) × Memᴰ (some (namespace, name)) w.services
      × (l ≡ plain (ref "Service" namespace name) (ref kind "" w.name) "webhook-client")
unfolding webhook_links
webhook_links-cases kind w l m =
    let (s, k, h) = flat_map-Memᴰ (webhook_link (ref kind "" w.name)) l w.services m in
    let (namespace, name, e, same) = webhook_link-cases (ref kind "" w.name) s l h in
    (namespace, name, subst (λ x. Memᴰ x w.services) e k, same)

module _ (claim_name : String → String → String)
    (matches : List (String × String) → List (String × String) → Bool) (o : Objects) where
  abbrev A : Link → Type 0
  A = Asks claim_name matches o

  slice_links-Asks : (s : Slice) (l : Link) → Memᴰ s o.slices → Memᴰ l (slice_links s) → A l
  unfolding slice_links
  slice_links-Asks s l listed m =
      ⊎_elim
        (λ r.
          let (t, k, h) =
            flat_map-Memᴰ (target_link s.namespace (ref "EndpointSlice" s.namespace s.name)) l
              s.targets r in
          let (name, e, same) = target_link-cases s.namespace _ t l h in
          subst A (sym same) (registered listed (subst (λ x. Memᴰ x s.targets) e k)))
        (λ r.
          let (b, e) = else_nil (s.service == "") _ r in subst A (sym (only e)) (served listed b))
        (Memᴰ.append_cases _ m)

  selected-parts :
      (v : ServiceObject) (p : PodObject)
      → Memᴰ p (selected matches v o.pods)
      → Memᴰ p o.pods
        × (is_empty v.selector ≡ false)
        × (p.namespace ≡ v.namespace)
        × (matches v.selector p.labels ≡ true)
  unfolding selected
  selected-parts v p m =
      let (b, r) = else_nil (is_empty v.selector) _ m in
      let (listed, h) =
        Memᴰ-keep (λ (q : PodObject). q.namespace == v.namespace && matches v.selector q.labels) p
          o.pods r in
      let (same, fits) = and_parts (p.namespace == v.namespace) (matches v.selector p.labels) h in
      (listed, b, (eq_iff p.namespace v.namespace).0 same, fits)

  service_links-Asks :
      (v : ServiceObject) (l : Link)
      → Memᴰ v o.services
      → Memᴰ l (service_links matches o.pods v)
      → A l
  unfolding service_links
  service_links-Asks v l served_by m =
      let (p, k, h) =
        flat_map-Memᴰ
          (λ (q : PodObject).
            link (pod_ref q) (ref "Service" v.namespace v.name) "service-selector")
          l (selected matches v o.pods) m in
      let (listed, named, same, fits) = selected-parts v p k in
      subst A (sym (only h)) (chosen served_by listed named same fits)

  ingress_links-Asks :
      (i : IngressObject) (l : Link) → Memᴰ i o.ingresses → Memᴰ l (ingress_links i) → A l
  unfolding ingress_links
  ingress_links-Asks i l listed m =
      let ingress = ref "Ingress" i.namespace i.name in
      ⊎_elim
        (λ m1.
          ⊎_elim
            (λ r.
              let (name, e, same) = backend_link-cases i.namespace ingress i.default_service l r in
              subst A (sym same) (default_backend listed e))
            (λ r.
              let (rule, k, h) = flat_map-Memᴰ (rule_links i.namespace ingress) l i.rules r in
              let (paths, name, e, n, same) = rule_links-cases i.namespace ingress rule l h in
              subst A (sym same) (path_backend listed (subst (λ x. Memᴰ x i.rules) e k) n))
            (Memᴰ.append_cases _ m1))
        (λ r.
          let (secret, k, h) = flat_map-Memᴰ _ l i.tls_secrets r in
          let (b, e) = else_nil (secret == "") _ h in subst A (sym (only e)) (tls listed k b))
        (Memᴰ.append_cases _ m)

  -- The links of one kind of objects, from those of one object.
  each {ℓ} :
      {B : Type ℓ} (f : B → List Link) (xs : List B) (l : Link)
      → ((x : B) → Memᴰ x xs → Memᴰ l (f x) → A l)
      → Memᴰ l (flat_map f xs)
      → A l
  each f xs l h m = let (x, k, r) = flat_map-Memᴰ f l xs m in h x k r

  pub all_links-Asks : (l : Link) → Memᴰ l (all_links claim_name matches o) → A l
  unfolding all_links
  all_links-Asks l =
      or_else
        (or_else
          (or_else
            (or_else
              (or_else
                (or_else
                  (or_else
                    (or_else (each _ o.pods l (λ p. pod_links-Asks claim_name matches o p l)) (
                      each _ o.replica_sets l
                        (λ s. replica_set_links-Asks claim_name matches o s l)))
                    (each _ o.jobs l (λ j. job_links-Asks claim_name matches o j l)))
                  (each _ o.claims l (λ c. claim_links-Asks claim_name matches o c l)))
                (each _ o.slices l (λ s. slice_links-Asks s l)))
              (each _ o.services l (λ v. service_links-Asks v l)))
            (each _ o.ingresses l (λ i. ingress_links-Asks i l)))
          (each _ o.validating_webhooks l (λ w k r.
            let (namespace, name, n, same) = webhook_links-cases _ w l r in
            subst A (sym same) (validating k n))))
        (each _ o.mutating_webhooks l (λ w k r.
          let (namespace, name, n, same) = webhook_links-cases _ w l r in
          subst A (sym same) (mutating k n)))
    where
      or_else :
          {xs ys : List Link} → (Memᴰ l xs → A l) → (Memᴰ l ys → A l) → Memᴰ l (xs ++ ys) → A l
      or_else f g m = ⊎_elim f g (Memᴰ.append_cases _ m)
