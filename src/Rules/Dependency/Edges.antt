-- ===== src/Rules/Dependency/Edges.antt =====
-- The edges of the dependency graph are those that the code asks for.
use k8s_diagnose.Prelude.{
  String, Bool, true, false, List, [], ◌∷◌, ◌++◌, ◌≡◌, ◌⊎◌, ◌↔◌, ◌∙◌, inl, inr, refl, sym, ap,
  subst, arith, ◌==◌, ◌||◌, ◌&&◌, if◌then◌else◌, eq_iff, eq_refl, Memᴰ, any, any_iff, put,
  Bool-cases, and_parts,
}
use mathlib.Core.List.Memᴰ
use mathlib.Core.Logic.{⊎_elim}
use k8s_diagnose.Rules.Graph.{Edge, Graph, edges_of, same_edge, add}
use k8s_diagnose.Rules.Dependency.Objects.{Objects}
use k8s_diagnose.Rules.Dependency.Build.{Link, add_links, all_links, build_dependency_graph}

-- The edge that a link asks for.
abbrev pub edge_of : Link → Edge
edge_of l = record { to = l.to; relation = l.relation; key = l.key }

-- `add` refuses an end without a name, and an edge from a resource to itself.
abbrev pub is_refused : Link → Bool
is_refused l = l.from == "" || (l.to == "" || l.from == l.to)

edges_of-put :
    (k u : String) (es : List Edge) (g : Graph)
    → edges_of (put k es g) u ≡ (if k == u then es else edges_of g u)
unfolding edges_of put
edges_of-put k u es [] = refl
edges_of-put k u es ((j, fs) ∷ g) =
    ground (arith, eq_iff k u, eq_iff j k, eq_iff j u, edges_of-put k u es g)

same_edge-Path : (d e : Edge) → same_edge d e ≡ true → d ≡ e
unfolding same_edge
same_edge-Path d e h =
    let (t, rest) = and_parts (d.to == e.to) (d.relation == e.relation && d.key == e.key) h in
    let (r, k) = and_parts (d.relation == e.relation) (d.key == e.key) rest in
    let p = (eq_iff d.to e.to).0 t in
    let q = (eq_iff d.relation e.relation).0 r in
    let s = (eq_iff d.key e.key).0 k in λ i. record { to = p i; relation = q i; key = s i }

true_not_false : true ≡ false → ⊥
true_not_false h = cc

module _ (g : Graph) (l : Link) where
  abbrev added : Graph
  added = add g l.from l.to l.relation l.key

  -- The edges of `u` after one more edge of `l.from`; `b` tells whether they are the same resource.
  abbrev extended : Bool → String → List Edge
  extended b u = if b then edges_of g l.from ++ edge_of l ∷ [] else edges_of g u

  extended-old :
      (b : Bool) (u : String) (e : Edge)
      → (b ≡ true → l.from ≡ u)
      → Memᴰ e (edges_of g u)
      → Memᴰ e (extended b u)
  extended-old true u e same m =
      Memᴰ.append_left _ (subst (λ v. Memᴰ e (edges_of g v)) (sym (same refl)) m)
  extended-old false u e same m = m

  extended-cases :
      (b : Bool) (u : String) (e : Edge)
      → (b ≡ true → l.from ≡ u)
      → Memᴰ e (extended b u)
      → Memᴰ e (edges_of g u) ⊎ ((l.from ≡ u) × (e ≡ edge_of l))
  extended-cases true u e same m =
      ⊎_elim (λ old. inl (subst (λ v. Memᴰ e (edges_of g v)) (same refl) old))
        (λ new.
          ⊎_elim (λ h. inr (same refl, h)) (λ none_left. absurd (Memᴰ.not-nil none_left))
            (Memᴰ.cases_cons new))
        (Memᴰ.append_cases (edges_of g l.from) m)
  extended-cases false u e same m = inl m

  -- What `add` leaves: the same graph, or one more edge.
  add-edges :
      (u : String)
      → ((edges_of added u ≡ edges_of g u)
          × ((is_refused l ≡ true) ⊎ Memᴰ (edge_of l) (edges_of g l.from)))
        ⊎ ((is_refused l ≡ false) × (edges_of added u ≡ extended (l.from == u) u))
  unfolding add
  add-edges u = elim (Bool-cases (is_refused l)) [
    | inl refused ↦ rw refused (inl (refl, inl refl))
    | inr fine ↦ elim (Bool-cases (any (λ d. same_edge d (edge_of l)) (edges_of g l.from))) [
      | inl known ↦
          let (d, m, h) = (any_iff (λ d. same_edge d (edge_of l)) (edges_of g l.from)).0 known in
          rw (fine, known)
            (inl (
              refl,
              inr (subst (λ x. Memᴰ x (edges_of g l.from)) (same_edge-Path d (edge_of l) h) m),
            ))
      | inr fresh ↦
          rw (fine, fresh)
            (inr (refl, edges_of-put l.from u (edges_of g l.from ++ edge_of l ∷ []) g))
    ]
  ]

  add-old : (u : String) (e : Edge) → Memᴰ e (edges_of g u) → Memᴰ e (edges_of added u)
  add-old u e m =
      ⊎_elim (λ (same, why). subst (Memᴰ e) (sym same) m)
        (λ (fine, more).
          subst (Memᴰ e) (sym more) (extended-old (l.from == u) u e (eq_iff l.from u).0 m))
        (add-edges u)

  add-cases :
      (u : String) (e : Edge)
      → Memᴰ e (edges_of added u)
      → Memᴰ e (edges_of g u) ⊎ ((l.from ≡ u) × (e ≡ edge_of l) × (is_refused l ≡ false))
  add-cases u e m =
      ⊎_elim (λ (same, why). inl (subst (Memᴰ e) same m))
        (λ (fine, more).
          ⊎_elim inl (λ (p, q). inr (p, q, fine))
            (extended-cases (l.from == u) u e (eq_iff l.from u).0 (subst (Memᴰ e) more m)))
        (add-edges u)

  add-new : is_refused l ≡ false → Memᴰ (edge_of l) (edges_of added l.from)
  add-new allowed =
      ⊎_elim
        (λ (same, why).
          ⊎_elim (λ refused. absurd (true_not_false (sym refused ∙ allowed)))
            (λ m. subst (Memᴰ (edge_of l)) (sym same) m) why)
        (λ (fine, more).
          subst (Memᴰ (edge_of l)) (sym (more ∙ ap (λ b. extended b l.from) (eq_refl l.from)))
            (Memᴰ.append_right (edges_of g l.from) (Memᴰ.head refl)))
        (add-edges l.from)

-- An edge of `u` that a link of the list asks for.
abbrev pub Asked : List Link → String → Edge → Type 0
Asked ls u e = (l : Link) × Memᴰ l ls × (l.from ≡ u) × (e ≡ edge_of l) × (is_refused l ≡ false)

add_links-old :
    (ls : List Link) (g : Graph) (u : String) (e : Edge)
    → Memᴰ e (edges_of g u)
    → Memᴰ e (edges_of (add_links ls g) u)
unfolding add_links
add_links-old [] g u e m = m
add_links-old (l ∷ ls) g u e m = add_links-old ls (added g l) u e (add-old g l u e m)

add_links-cases :
    (ls : List Link) (g : Graph) (u : String) (e : Edge)
    → Memᴰ e (edges_of (add_links ls g) u)
    → Memᴰ e (edges_of g u) ⊎ Asked ls u e
unfolding add_links
add_links-cases [] g u e m = inl m
add_links-cases (l ∷ ls) g u e m =
    ⊎_elim
      (λ old. ⊎_elim inl (λ (p, q, r). inr (l, Memᴰ.head refl, p, q, r)) (add-cases g l u e old))
      (λ (k, n, p, q, r). inr (k, Memᴰ.tail n, p, q, r)) (add_links-cases ls (added g l) u e m)

add_links-new :
    (ls : List Link) (g : Graph) (l : Link)
    → Memᴰ l ls
    → is_refused l ≡ false
    → Memᴰ (edge_of l) (edges_of (add_links ls g) l.from)
unfolding add_links
add_links-new [] g l m fine = absurd (Memᴰ.not-nil m)
add_links-new (k ∷ ls) g l (Memᴰ.head h) fine =
    subst (λ j. Memᴰ (edge_of j) (edges_of (add_links ls (added g k)) j.from)) (sym h)
      (add_links-old ls (added g k) k.from (edge_of k)
        (add-new g k (subst (λ j. is_refused j ≡ false) h fine)))
add_links-new (k ∷ ls) g l (Memᴰ.tail m) fine = add_links-new ls (added g k) l m fine

module _ (claim_name : String → String → String)
    (matches : List (String × String) → List (String × String) → Bool) where
  -- The graph has an edge exactly where one of the links of its objects asks for it.
  pub build_dependency_graph-Asked :
      (o : Objects) (u : String) (e : Edge)
      → Memᴰ e (edges_of (build_dependency_graph claim_name matches o) u)
        ↔ Asked (all_links claim_name matches o) u e
  unfolding build_dependency_graph edges_of
  build_dependency_graph-Asked o u e = (
    λ m.
        ⊎_elim (λ none_left. absurd (Memᴰ.not-nil none_left)) (λ a. a)
          (add_links-cases (all_links claim_name matches o) [] u e m),
    λ (l, m, p, q, fine).
        subst (λ v. Memᴰ e (edges_of (add_links (all_links claim_name matches o) []) v)) p
          (subst (λ x. Memᴰ x (edges_of (add_links (all_links claim_name matches o) []) l.from))
            (sym q) (add_links-new (all_links claim_name matches o) [] l m fine)),
  )
