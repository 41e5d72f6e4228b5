-- ===== src/Rules/Dependency/Exact.antt =====
-- The dependency graph has the edges that the objects ask for, and no other.
use k8s_diagnose.Prelude.{String, Bool, false, List, ◌≡◌, ◌≢◌, ◌↔◌, arith, eq_iff, Memᴰ}
use k8s_diagnose.Rules.Graph.{Edge, edges_of}
use k8s_diagnose.Rules.Dependency.Objects.{Objects}
use k8s_diagnose.Rules.Dependency.Build.{Link, build_dependency_graph}
use k8s_diagnose.Rules.Dependency.Relations.{Asks}
use k8s_diagnose.Rules.Dependency.Routed.{all_links-Asks}
use k8s_diagnose.Rules.Dependency.Listed.{Asks-all_links}
use k8s_diagnose.Rules.Dependency.Edges.{edge_of, is_refused, build_dependency_graph-Asked}

is_refused_iff :
    (l : Link) → (is_refused l ≡ false) ↔ ((l.from ≢ "") × (l.to ≢ "") × (l.from ≢ l.to))
is_refused_iff l = ground (arith, eq_iff l.from "", eq_iff l.to "", eq_iff l.from l.to)

module _ (claim_name : String → String → String)
    (matches : List (String × String) → List (String × String) → Bool) where
  -- An edge of the dependency graph leads from a resource exactly where the objects ask for it, in one
  -- of the sixteen ways, with two ends that have names and are not one resource. The ways are: the
  -- probe of a container that keeps running; a reference of a Pod that is not optional and not of an
  -- ephemeral container; the claim of an ephemeral volume; the owner of a Pod and of a ReplicaSet, and
  -- the CronJob of a Job; the node of a Pod; the volume of a claim; a Pod of an EndpointSlice and the
  -- Service of one; a Pod that a Service selects; the default backend of an Ingress, and the backend
  -- of a path of it; a TLS secret of it; and the Service of a validating or a mutating webhook.
  pub build_dependency_graph_iff :
      (o : Objects) (u : String) (e : Edge)
      → Memᴰ e (edges_of (build_dependency_graph claim_name matches o) u) ↔ (
          (l : Link) × Asks claim_name matches o l
          × (l.from ≡ u)
          × (e ≡ edge_of l)
          × (l.from ≢ "")
          × (l.to ≢ "")
          × (l.from ≢ l.to))
  build_dependency_graph_iff o u e =
      let (there, back) = build_dependency_graph-Asked claim_name matches o u e in
      (
        λ m.
            let (l, n, p, q, fine) = there m in
            let (from_named, to_named, two) = (is_refused_iff l).0 fine in
            (l, all_links-Asks claim_name matches o l n, p, q, from_named, to_named, two),
        λ (l, asked, p, q, from_named, to_named, two). back (
          l,
          Asks-all_links claim_name matches o l asked,
          p,
          q,
          (is_refused_iff l).1 (from_named, to_named, two),
        ),
      )
