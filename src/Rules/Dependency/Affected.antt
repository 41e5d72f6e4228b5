-- ===== src/Rules/Dependency/Affected.antt =====
-- From a reference of a Pod to the search of the graph: a Pod is affected by what it requires.
use k8s_diagnose.Prelude.{
  String, Bool, true, false, List, [], ◌∷◌, ◌≡◌, ◌∙◌, refl, ap, inr, arith, ◌==◌, ◌||◌,
  if◌then◌else◌, eq_iff, Memᴰ, count_if, starts_with,
}
use mathlib.Core.List.Memᴰ
use k8s_diagnose.Rules.Graph.{descendants}
use k8s_diagnose.Rules.Graph.Walk.{here, step}
use k8s_diagnose.Rules.Graph.Correct.{descendants_once}
use k8s_diagnose.Rules.Dependency.Objects.{PodObject, Objects}
use k8s_diagnose.Rules.Dependency.References.{ObjectDependency, pod_dependencies}
use k8s_diagnose.Rules.Registry.{ref}
use k8s_diagnose.Rules.Dependency.Build.{
  Link, is_required, required_link, pod_links, all_links, build_dependency_graph,
}
use k8s_diagnose.Rules.Dependency.Relations.{Memᴰ-flat_map, required_by}
use k8s_diagnose.Rules.Dependency.Edges.{edge_of, is_refused, build_dependency_graph-Asked}

is_required-holds :
    (d : ObjectDependency)
    → d.optional ≡ false
    → starts_with d.source "ephemeralContainer/" ≡ false
    → is_required d ≡ true
unfolding is_required
is_required-holds d necessary lasting = rw (necessary, lasting) refl

required_link-holds :
    (p : PodObject) (d : ObjectDependency)
    → is_required d ≡ true
    → Memᴰ (required_by p d) (required_link (ref "Pod" p.namespace p.name) d)
unfolding required_link
required_link-holds p d required = rw required (Memᴰ.head refl)

eq_flip : (a b : String) → (b == a) ≡ false → (a == b) ≡ false
eq_flip a b h = ground (arith, eq_iff a b, eq_iff b a)

ends_differ : (a b c : Bool) → (a || (b || c)) ≡ false → c ≡ false
ends_differ a b c h = ground arith

module _ (claim_name : String → String → String)
    (matches : List (String × String) → List (String × String) → Bool) where
  pod_links-required :
      (p : PodObject) (d : ObjectDependency)
      → Memᴰ d (pod_dependencies p)
      → is_required d ≡ true
      → Memᴰ (required_by p d) (pod_links claim_name p)
  unfolding pod_links required_link
  pod_links-required p d m required = Memᴰ.append_left _ (
      Memᴰ.append_left _ (
        Memᴰ.append_left _ (
          Memᴰ.append_right _ (
            Memᴰ-flat_map (required_link (ref "Pod" p.namespace p.name)) d (required_by p d)
              (pod_dependencies p) m (required_link-holds p d required)))))

  all_links-pod :
      (o : Objects) (p : PodObject) (l : Link)
      → Memᴰ p o.pods
      → Memᴰ l (pod_links claim_name p)
      → Memᴰ l (all_links claim_name matches o)
  unfolding all_links
  all_links-pod o p l m h =
      let first = Memᴰ-flat_map (pod_links claim_name) p l o.pods m h in
      Memᴰ.append_left _ (
        Memᴰ.append_left _ (
          Memᴰ.append_left _ (
            Memᴰ.append_left _ (
              Memᴰ.append_left _
                (Memᴰ.append_left _ (Memᴰ.append_left _ (Memᴰ.append_left _ first)))))))

  -- A Pod of the snapshot is found once among what is affected by an object that it requires, and with
  -- the key of its reference: a missing object, or one without that key, has the Pod as an impact. The
  -- reference is not optional and not of an ephemeral container, and `add` takes its edge.
  pub required-affects :
      (o : Objects) (p : PodObject) (d : ObjectDependency)
      → Memᴰ p o.pods
      → Memᴰ d (pod_dependencies p)
      → d.optional ≡ false
      → starts_with d.source "ephemeralContainer/" ≡ false
      → is_refused (required_by p d) ≡ false
      → count_if
          (λ q. q.resource == ref "Pod" p.namespace p.name)
          (descendants
            (build_dependency_graph claim_name matches o)
            (ref d.kind d.namespace d.name)
            d.key)
        ≡ 1
  required-affects o p d listed needed necessary lasting allowed =
      let required = is_required-holds d necessary lasting in
      let g = build_dependency_graph claim_name matches o in
      let l = required_by p d in
      let m = (build_dependency_graph-Asked claim_name matches o l.from (edge_of l)).1 (
        l,
        all_links-pod o p l listed (pod_links-required p d needed required),
        refl,
        refl,
        allowed,
      ) in
      descendants_once g l.from d.key l.to (l.from ∷ l.to ∷ []) ("required-by-pod" ∷ [])
        (step here m (λ _. inr (inr refl)))
      ∙ ap (λ b. if b then 0 else 1)
          (eq_flip l.to l.from (ends_differ (l.from == "") (l.to == "") (l.from == l.to) allowed))
