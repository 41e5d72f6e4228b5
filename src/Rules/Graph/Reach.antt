-- ===== src/Rules/Graph/Reach.antt =====
-- The search ends, and returns each resource that some walk reaches, once, with a walk to it.
use k8s_diagnose.Prelude.{
  ℕ, zero, suc, String, true, some, List, [], ◌∷◌, ◌≡◌, ◌≤◌, ◌⊎◌, ◌+◌, Memᴰ, length, any, arith,
  ◌==◌, All, All-of_Memᴰ, eq_iff, Bool-cases, refl, inl, inr, ap, subst, sym, ◌∙◌,
}
use k8s_diagnose.Prelude.Sort.{sort, Memᴰ-sort}
use mathlib.Core.List.Memᴰ
use k8s_diagnose.Rules.Graph.{
  Edge, Graph, edges_of, GraphPath, Search, expand, search, all_edges, edge_less,
}
use k8s_diagnose.Rules.Graph.Walk.{Allowed, IsItem, visited, queued, Rising, Inv, unvisited}
use k8s_diagnose.Rules.Graph.Scan.{wrong_key_iff, Scanned, scan-Scanned}

List-cases {ℓ} :
    {A : Type ℓ} (xs : List A) → (xs ≡ []) ⊎ ((x : A) × (rest : List A) × (xs ≡ x ∷ rest))
List-cases [] = inl refl
List-cases (x ∷ xs) = inr (x, xs, refl)

edges_of-all_edges :
    (g : Graph) (r : String) (e : Edge) → Memᴰ e (edges_of g r) → Memᴰ e (all_edges g)
unfolding edges_of all_edges
edges_of-all_edges [] r e m = m
edges_of-all_edges ((q, es) ∷ g) r e m = elim (Bool-cases (q == r)) [
  | inl same ↦ Memᴰ.append_left (all_edges g) (rw same at m)
  | inr other ↦ Memᴰ.append_right es (edges_of-all_edges g r e (rw other at m))
]

Rising-high :
    (low high high' : ℕ) (ps : List GraphPath)
    → high ≤ high'
    → Rising low high ps
    → Rising low high' ps
Rising-high low high high' [] h r = tt
Rising-high low high high' (p ∷ ps) h (a, b, r) =
    (a, omega arith, Rising-high (length p.path) high high' ps h r)

module _ (g : Graph) (required start : String) where
  -- The allowed edges of a visited resource lead to visited ones, unless it still waits.
  abbrev pub Closed : Search → Type 0
  Closed s =
      (u : String) (e : Edge)
      → visited s u ≡ true
      → Memᴰ e (edges_of g u)
      → Allowed g required start u e
      → (visited s e.to ≡ true) ⊎ (queued s u ≡ true)

  abbrev pub work : Search → ℕ
  work s = length s.queue + unvisited s.best (all_edges g)

  module _ (level : ℕ) (s : Search) (c : GraphPath) (rest : List GraphPath) (e : s.queue ≡ c ∷ rest)
      (inv : Inv g required start level s) where
    abbrev popped : Search
    popped = record s { queue = rest }

    head-IsItem : IsItem g required start c
    head-IsItem =
        let items : All (IsItem g required start) (c ∷ rest) = rw e at inv.queue_items in items.0

    popped-Inv : Inv g required start (length c.path) popped
    popped-Inv =
        let items : All (IsItem g required start) (c ∷ rest) = rw e at inv.queue_items in
        let rising : Rising level (suc level) (c ∷ rest) = rw e at inv.rising in
        record {
          rising = Rising-high _ _ _ rest (omega arith) rising.2;
          low = λ r d h. omega (arith, inv.low r d h);
          start_visited = inv.start_visited;
          queue_items = items.1;
          result_items = inv.result_items;
          once = inv.once;
        }

    abbrev sorted : List Edge
    sorted = sort edge_less (edges_of g c.resource)

    expanded :
        Inv g required start (length c.path) (expand g required c rest s)
        × Scanned required c sorted (all_edges g) popped (expand g required c rest s)
    unfolding expand
    expanded =
        scan-Scanned g required start c head-IsItem (all_edges g) sorted popped
          (All-of_Memᴰ _ sorted (λ d m.
            let m' = (Memᴰ-sort edge_less d (edges_of g c.resource)).0 m in
            (m', edges_of-all_edges g c.resource d m')))
          popped-Inv

    expanded-work : suc (work (expand g required c rest s)) ≤ work s
    expanded-work = omega (arith, expanded.1.work, ap length e)

    from_current :
        (d : Edge)
        → Memᴰ d (edges_of g c.resource)
        → Allowed g required start c.resource d
        → visited (expand g required c rest s) d.to ≡ true
    from_current d m a =
        expanded.1.visits d ((Memᴰ-sort edge_less d (edges_of g c.resource)).1 m)
          ((wrong_key_iff required c d).1 (λ short. a (head-IsItem.1.1 short)))

    expanded-Closed : Closed s → Closed (expand g required c rest s)
    expanded-Closed closed u d v m a = elim (expanded.1.queues u v) [
      | inr waits ↦ inr waits
      | inl before ↦ elim (closed u d before m a) [
        | inl done ↦ inl (expanded.1.keeps d.to done)
        | inr waited ↦
            let waited' : any (λ (p : GraphPath). p.resource == u) (c ∷ rest) ≡ true =
              rw e at waited in
            elim (Bool-cases (c.resource == u)) [
              | inl same ↦
                  let same' = sym ((eq_iff c.resource u).0 same) in
                  inl (
                    from_current d (subst (λ r. Memᴰ d (edges_of g r)) same' m)
                      (λ at_start. a (same' ∙ at_start)))
              | inr other ↦ inr (expanded.1.keeps_queued u (ground arith))
            ]
      ]
    ]

  pub record Ended (fuel : ℕ) (s : Search) : Type 0 where
    pub level : ℕ
    pub final : Search
    pub returned : search g required fuel s ≡ some final.result
    pub inv : Inv g required start level final
    pub closed : Closed final
    pub empty : final.queue ≡ []

  pub search_ends :
      (fuel level : ℕ) (s : Search)
      → Inv g required start level s
      → Closed s
      → work s ≤ fuel
      → Ended fuel s
  unfolding search
  search_ends zero level s inv closed h = elim (List-cases s.queue) [
    | inl empty ↦ record {
      level = level;
      final = s;
      returned = ground arith;
      inv = inv;
      closed = closed;
      empty = empty;
    }
    | inr (c, rest, e) ↦ absurd (omega (arith, ap length e))
  ]
  search_ends (suc fuel) level s inv closed h = elim (List-cases s.queue) [
    | inl empty ↦ record {
      level = level;
      final = s;
      returned = ground arith;
      inv = inv;
      closed = closed;
      empty = empty;
    }
    | inr (c, rest, e) ↦
        let after =
          search_ends fuel (length c.path) (expand g required c rest s)
            (expanded level s c rest e inv).0 (expanded-Closed level s c rest e inv closed)
            (omega (arith, expanded-work level s c rest e inv)) in
        record {
          level = after.level;
          final = after.final;
          returned = rw (e, search) after.returned;
          inv = after.inv;
          closed = after.closed;
          empty = after.empty;
        }
  ]
