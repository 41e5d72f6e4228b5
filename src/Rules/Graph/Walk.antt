-- ===== src/Rules/Graph/Walk.antt =====
-- What the search is to find: the walks of the graph that leave the start by an edge with the
-- required key, or with none.
use k8s_diagnose.Prelude.{
  ℕ, suc, String, Bool, true, not, some, List, [], ◌∷◌, ◌++◌, ◌≡◌, ◌≤◌, ◌↔◌, ◌⊎◌, Memᴰ, is_some,
  lookup, length, length-append, count_if, any, arith, ◌==◌, ◌&&◌, if◌then◌else◌, All,
}
use k8s_diagnose.Rules.Graph.{Edge, Graph, edges_of, GraphPath, Search}

-- No key is asked for, the edge has none, or it has the one.
abbrev pub KeyFits : String → Edge → Type 0
KeyFits required e = (required ≡ "") ⊎ (e.key ≡ "") ⊎ (e.key ≡ required)

module _ (g : Graph) (required start : String) where
  -- An edge may be taken anywhere but at the start, where its key must fit.
  abbrev pub Allowed : String → Edge → Type 0
  Allowed r e = r ≡ start → KeyFits required e

  -- The resource at the end, the resources on the way with both ends, and the relations.
  pub data Walk : String → List String → List String → Type 0 where
    here : Walk start (start ∷ []) []
    step :
        {r : String} {path relations : List String} {e : Edge}
        → Walk r path relations
        → Memᴰ e (edges_of g r)
        → Allowed r e
        → Walk e.to (path ++ e.to ∷ []) (relations ++ e.relation ∷ [])

module _ {g : Graph} {required start : String} where
  pub Walk-length :
      {r : String} {path relations : List String}
      → Walk g required start r path relations
      → 1 ≤ length path
  Walk-length here = omega arith
  Walk-length (step {path} {e} w m a) = omega (arith, length-append path (e.to ∷ []))

module _ (g : Graph) (required start : String) where
  -- A queued or returned item is a walk, and its path is that of the start exactly at the start.
  abbrev pub IsItem : GraphPath → Type 0
  IsItem p =
      Walk g required start p.resource p.path p.relations
      × ((p.resource ≡ start) ↔ (length p.path ≡ 1))

abbrev pub visited : Search → String → Bool
visited s r = is_some (lookup r s.best)

abbrev pub queued : Search → String → Bool
queued s r = any (λ p. p.resource == r) s.queue

-- The lengths of the paths do not fall, start at `low` or later and end at `high` or earlier.
abbrev pub Rising : ℕ → ℕ → List GraphPath → Type 0
Rising low high [] = Unit
Rising low high (p ∷ ps) =
    (low ≤ length p.path) × (length p.path ≤ high) × Rising (length p.path) high ps

-- The edges of a list whose target was not visited.
abbrev pub unvisited : List (String × ℕ) → List Edge → ℕ
unvisited best es = count_if (λ e. not (is_some (lookup e.to best))) es

-- While an item with a path of length `level` is expanded.
pub record Inv (g : Graph) (required start : String) (level : ℕ) (s : Search) : Type 0 where
  pub rising : Rising level (suc level) s.queue
  pub low : (r : String) (d : ℕ) → lookup r s.best ≡ some d → d ≤ level
  pub start_visited : visited s start ≡ true
  pub queue_items : All (IsItem g required start) s.queue
  pub result_items : All (IsItem g required start) s.result
  pub once :
      (r : String)
      → count_if (λ p. p.resource == r) s.result
        ≡ (if visited s r && not (r == start) then 1 else 0)
