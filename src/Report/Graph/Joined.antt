-- ===== src/Report/Graph/Joined.antt =====
-- Every edge of a drawn graph joins two different nodes of it.
use k8s_diagnose.Prelude.{
  ℕ, suc, String, Bool, true, false, Option, none, some, List, [], ◌∷◌, ◌≡◌, refl, inl, inr, ◌==◌,
  ◌||◌, if◌then◌else◌, eq_refl, lookup, lookup-put, put, is_some, All, All-of_Memᴰ, All-Memᴰ,
  Bool-cases, map, is_empty, or_right,
}
use k8s_diagnose.Prelude.Sort.{Memᴰ-sort}
use k8s_diagnose.Report.Json.{Json, field, objects}
use k8s_diagnose.Report.Findings.{root_objects}
use k8s_diagnose.Report.Graph.{
  Node, GraphEdge, Drawing, renews, add_node, add_edge, draw_path, draw_impacts, draw_root,
  draw_roots, report_graph, steps_after, path_of, string_slice, cause_resource, root_class,
  edge_key, relation_at,
}

-- A resource that is drawn; an empty name is the only one that never is.
abbrev pub IsDrawn : List (String × Node) → String → Type 0
IsDrawn nodes r = (r == "" || is_some (lookup r nodes)) ≡ true

abbrev pub Joins : List (String × Node) → GraphEdge → Type 0
Joins nodes e = IsDrawn nodes e.from × IsDrawn nodes e.to × ((e.from == e.to) ≡ false)

abbrev AllJoin : List (String × Node) → List (String × GraphEdge) → Type 0
AllJoin nodes es = All (λ (e : String × GraphEdge). Joins nodes e.1) es

-- More resources are drawn in the second.
abbrev Extends : List (String × Node) → List (String × Node) → Type 0
Extends m n = (r : String) → IsDrawn m r → IsDrawn n r

AllJoin-Extends :
    (m n : List (String × Node)) (es : List (String × GraphEdge))
    → Extends m n
    → AllJoin m es
    → AllJoin n es
AllJoin-Extends m n [] x h = tt
AllJoin-Extends m n ((k, e) ∷ es) x ((p, q, r), h) =
    ((x e.from p, x e.to q, r), AllJoin-Extends m n es x h)

if-IsDrawn :
    (b : Bool) (o : Option Node) (v : Node) (c : Bool)
    → (c || is_some o) ≡ true
    → (c || is_some (if b then some v else o)) ≡ true
if-IsDrawn true o v c h = or_right c true refl
if-IsDrawn false o v c h = h

put-Extends : (k : String) (v : Node) (m : List (String × Node)) → Extends m (put k v m)
put-Extends k v m r h = rw (lookup-put k r v m) (if-IsDrawn (k == r) (lookup r m) v (r == "") h)

AllJoin-put :
    (k : String) (e : GraphEdge) (m : List (String × Node)) (es : List (String × GraphEdge))
    → Joins m e
    → AllJoin m es
    → AllJoin m (put k e es)
unfolding put
AllJoin-put k e m [] j h = (j, tt)
AllJoin-put k e m ((i, f) ∷ es) j (p, h) = elim (Bool-cases (i == k)) [
  | inl same ↦ rw same (j, h)
  | inr other ↦ rw other (p, AllJoin-put k e m es j h)
]

abbrev Good : Drawing → Type 0
Good d = AllJoin d.nodes d.edge_map

-- A drawing that goes on from another one.
abbrev After : Drawing → Drawing → Type 0
After d d' = Extends d.nodes d'.nodes × Good d'

true_not_false : true ≡ false → ⊥
true_not_false h = cc

renews-some :
    (label class : String) (o : Option Node) → renews label class o ≡ false → is_some o ≡ true
unfolding renews
renews-some label class none h = absurd (true_not_false h)
renews-some label class (some v) h = refl

add_node-After :
    (r label class : String) (d : Drawing)
    → Good d
    → After d (add_node r label class d) × IsDrawn (add_node r label class d).nodes r
unfolding add_node
add_node-After r label class d h = elim (Bool-cases (r == "")) [
  | inl nameless ↦ rw nameless ((λ q i. i, h), refl)
  | inr named ↦ elim (Bool-cases (renews label class (lookup r d.nodes))) [
    | inl new ↦
        let v : Node = record { label = label; class = class } in
        rw (named, new)
          (
            (
              put-Extends r v d.nodes,
              AllJoin-Extends d.nodes (put r v d.nodes) d.edge_map (put-Extends r v d.nodes) h,
            ),
            rw (lookup-put r r v d.nodes, eq_refl r) refl,
          )
    | inr old ↦ rw (named, old) ((λ q i. i, h), renews-some label class (lookup r d.nodes) old)
  ]
]

add_edge-Good :
    (e : GraphEdge) (d : Drawing)
    → IsDrawn d.nodes e.from
    → IsDrawn d.nodes e.to
    → Good d
    → After d (add_edge e d)
unfolding add_edge
add_edge-Good e d p q h = elim (Bool-cases (e.from == e.to)) [
  | inl same ↦ rw same (λ r i. i, h)
  | inr other ↦ rw other (λ r i. i, AllJoin-put (edge_key e) e d.nodes d.edge_map (p, q, other) h)
]

draw_path-After :
    (impact : Json) (relations : List String) (index : ℕ) (previous : String) (path : List String)
    (d : Drawing)
    → IsDrawn d.nodes previous
    → Good d
    → After d (draw_path impact relations index previous path d)
unfolding draw_path
draw_path-After impact relations index previous [] d p h = (λ r i. i, h)
draw_path-After impact relations index previous (r ∷ path) d p h =
    let ((x, h'), q) = add_node-After r _ "impact" d h in
    let (y, h'') =
      add_edge-Good
        (record {
          from = previous;
          to = r;
          relation = relation_at impact relations index (is_empty path);
        })
        _ (x previous p) q h' in
    let (z, h3) = draw_path-After impact relations (suc index) r path _ (y r q) h'' in
    (λ s i. z s (y s (x s i)), h3)

draw_impacts-After :
    (cause : String) (impacts : List Json) (d : Drawing)
    → IsDrawn d.nodes cause
    → Good d
    → After d (draw_impacts cause impacts d)
unfolding draw_impacts
draw_impacts-After cause [] d p h = (λ r i. i, h)
draw_impacts-After cause (v ∷ vs) d p h =
    let (x, h') =
      draw_path-After v (string_slice (field "path_relations" v)) 0 cause
        (steps_after cause (path_of v)) d p h in
    let (y, h'') = draw_impacts-After cause vs _ (x cause p) h' in (λ r i. y r (x r i), h'')

draw_root-Good : (root : Json) (d : Drawing) → Good d → Good (draw_root root d)
unfolding draw_root
draw_root-Good root d h =
    let ((x, h'), p) = add_node-After (cause_resource root) _ (root_class root) d h in
    let (y, h'') =
      draw_impacts-After (cause_resource root) (objects (field "direct_impacts" root)) _ p h' in
    (draw_impacts-After (cause_resource root) (objects (field "propagated_impacts" root)) _
      (y (cause_resource root) p) h'').1

draw_roots-Good : (roots : List Json) (d : Drawing) → Good d → Good (draw_roots roots d)
unfolding draw_roots
draw_roots-Good [] d h = h
draw_roots-Good (r ∷ rs) d h = draw_roots-Good rs (draw_root r d) (draw_root-Good r d h)

All-map {ℓ κ} :
    {A : Type ℓ} {B : Type κ} (f : A → B) (P : B → Type 0) (xs : List A)
    → All (λ x. P (f x)) xs
    → All P (map f xs)
All-map f P [] h = tt
All-map f P (x ∷ xs) (p, h) = (p, All-map f P xs h)

-- Each edge of the graph of a report joins two different resources, and both are nodes of the graph
-- unless their name is empty.
pub report_graph-Joins :
    (document : Json) → All (Joins (report_graph document).0) (report_graph document).1
unfolding report_graph
report_graph-Joins document =
    let d = draw_roots (root_objects document) (record { nodes = []; edge_map = [] }) in
    let good = draw_roots-Good (root_objects document) (record { nodes = []; edge_map = [] }) tt in
    All-map (λ (e : String × GraphEdge). e.1) (Joins d.nodes) _
      (All-of_Memᴰ (λ (e : String × GraphEdge). Joins d.nodes e.1) _
        (λ e m.
          All-Memᴰ (λ (e : String × GraphEdge). Joins d.nodes e.1) d.edge_map good
            ((Memᴰ-sort _ e d.edge_map).0 m)))
