-- ===== src/Rules/Graph.antt =====
-- `dependencyGraph` of internal/rules/rootcause.go: edges from a resource to what it affects, and
-- the breadth-first search `descendants`. The fuel is the number of edges plus one: each round
-- takes an item off the queue, and an item is queued once for each resource that is the target of
-- an edge.
pub mod Walk
pub mod Scan
pub mod Reach
pub mod Correct
use k8s_diagnose.Prelude.{
  ℕ, zero, suc, String, Bool, true, false, not, Option, none, some, List, [], ◌∷◌, ◌++◌, ◌+◌,
  if◌then◌else◌, ◌==◌, ◌&&◌, ◌||◌, any, length, nat_eq, leb, text_lt, concat, lookup, put,
}
use k8s_diagnose.Prelude.Sort.{sort}

pub record Edge : Type 0 where
  pub to : String
  pub relation : String
  pub key : String

-- `forward`
abbrev pub Graph : Type 0
Graph = List (String × List Edge)

unfoldable pub edges_of : Graph → String → List Edge
edges_of [] from = []
edges_of ((r, es) ∷ g) from = let rest = edges_of g from in if r == from then es else rest

unfoldable pub same_edge : Edge → Edge → Bool
same_edge e d = e.to == d.to && (e.relation == d.relation && e.key == d.key)

unfoldable pub add : Graph → (from to relation key : String) → Graph
unfolding edges_of same_edge put
add g from to relation key =
    let e : Edge = record { to = to; relation = relation; key = key } in
    if from == "" || (to == "" || from == to)
    then g
    else if any (λ d. same_edge d e) (edges_of g from)
    then g
    else put from (edges_of g from ++ e ∷ []) g

-- Both `graphPath` and `queueItem`.
pub record GraphPath : Type 0 where
  pub resource : String
  pub path : List String
  pub relations : List String

pub record Search : Type 0 where
  pub best : List (String × ℕ)
  pub queue : List GraphPath
  pub result : List GraphPath

-- The comparison of the edges: `edges[i].To+edges[i].Relation < edges[j].To+edges[j].Relation`
unfoldable pub edge_less : Edge → Edge → Bool
unfolding concat
edge_less a b = text_lt (concat (a.to ∷ a.relation ∷ [])) (concat (b.to ∷ b.relation ∷ []))

-- The first test of the loop: a first edge whose key is not the required one.
unfoldable pub wrong_key : String → GraphPath → Edge → Bool
wrong_key required current e =
    nat_eq (length current.path) 1
    && (not (required == "") && (not (e.key == "") && not (e.key == required)))

-- The second test: `previous, ok := bestDepth[edge.To]; ok && previous <= depth`
unfoldable pub known_by : List (String × ℕ) → String → ℕ → Bool
known_by best r depth = elim (lookup r best) [ none ↦ false | some previous ↦ leb previous depth ]

unfoldable pub child : GraphPath → Edge → GraphPath
child current e = record {
  resource = e.to;
  path = current.path ++ e.to ∷ [];
  relations = current.relations ++ e.relation ∷ [];
}

-- The body of the loop over the edges.
unfoldable pub offer : String → GraphPath → Search → Edge → Search
offer required current s e =
    if wrong_key required current e
    then s
    else if known_by s.best e.to (length current.path)
    then s
    else record {
      best = put e.to (length current.path) s.best;
      queue = s.queue ++ child current e ∷ [];
      result = s.result ++ child current e ∷ [];
    }

unfoldable pub scan : String → GraphPath → List Edge → Search → Search
scan required current [] s = s
scan required current (e ∷ es) s = scan required current es (offer required current s e)

module _ (g : Graph) (required : String) where
  -- One round, after `current` left the queue.
  unfoldable pub expand : GraphPath → List GraphPath → Search → Search
  expand current rest s =
      scan required current (sort edge_less (edges_of g current.resource))
        (record s { queue = rest })

  -- `none`: the fuel ran out.
  unfoldable pub search : ℕ → Search → Option (List GraphPath)
  search zero s = elim s.queue [ [] ↦ some s.result | _ ∷ _ ↦ none ]
  search (suc fuel) s = elim s.queue [
    | [] ↦ some s.result
    | current ∷ rest ↦ search fuel (expand current rest s)
  ]

unfoldable pub begin : String → Search
begin start = record {
  best = (start, 0) ∷ [];
  queue = record { resource = start; path = start ∷ []; relations = [] } ∷ [];
  result = [];
}

unfoldable pub all_edges : Graph → List Edge
all_edges [] = []
all_edges ((r, es) ∷ g) = es ++ all_edges g

unfoldable pub descendants_within : Graph → (start required : String) → Option (List GraphPath)
descendants_within g start required = search g required (suc (length (all_edges g))) (begin start)

unfoldable pub descendants : Graph → (start required : String) → List GraphPath
descendants g start required = elim (descendants_within g start required) [
  | none ↦ []
  | some paths ↦ paths
]
