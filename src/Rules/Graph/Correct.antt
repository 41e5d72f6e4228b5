-- ===== src/Rules/Graph/Correct.antt =====
-- `descendants`: what it returns.
use k8s_diagnose.Prelude.{
  suc, String, true, some, List, [], ◌∷◌, ◌≡◌, lookup, length, count_if, count_if-le-length, arith,
  ◌==◌, if◌then◌else◌, All, eq_iff, refl, inl, inr, ap, sym, ◌∙◌,
}
use k8s_diagnose.Rules.Graph.{Graph, Search, begin, all_edges, descendants_within, descendants}
use k8s_diagnose.Rules.Graph.Walk.{Walk, here, step, visited, queued, Inv}
use k8s_diagnose.Rules.Graph.Reach.{Closed, Ended, search_ends}

module _ (g : Graph) (required start : String) where
  begin-Inv : Inv g required start 0 (begin start)
  unfolding begin lookup
  begin-Inv = record {
    rising = omega arith;
    low = λ r d h. ground arith;
    start_visited = ground (arith, eq_iff start start);
    queue_items = ((here, (λ _. refl, λ _. refl)), tt);
    result_items = tt;
    once = λ r. ground (arith, eq_iff start r, eq_iff r start);
  }

  begin-Closed : Closed g required start (begin start)
  unfolding begin lookup
  begin-Closed u e v m a = ground (arith, eq_iff start u)

  ended : Ended g required start (suc (length (all_edges g))) (begin start)
  unfolding begin
  ended =
      search_ends g required start _ 0 (begin start) begin-Inv begin-Closed
        (omega (arith, count_if-le-length _ (all_edges g)))

  within-final : descendants_within g start required ≡ some ended.final.result
  unfolding descendants_within
  within-final = ended.returned

  descendants-final : descendants g start required ≡ ended.final.result
  unfolding descendants
  descendants-final = rw (within-final, descendants)

  none_queued : (s : Search) (r : String) → s.queue ≡ [] → ¬ (queued s r ≡ true)
  none_queued s r e h = ground arith

  walks_visited :
      {r : String} {path relations : List String}
      → Walk g required start r path relations
      → visited ended.final r ≡ true
  walks_visited here = ended.inv.start_visited
  walks_visited (step {e} w m a) = elim (ended.closed _ e (walks_visited w) m a) [
    | inl there ↦ there
    | inr waits ↦ absurd (none_queued ended.final _ ended.empty waits)
  ]

All-map {ℓ κ μ} :
    {A : Type ℓ} {P : A → Type κ} {Q : A → Type μ}
    → ((x : A) → P x → Q x)
    → (xs : List A) → All P xs
    → All Q xs
All-map f [] h = tt
All-map f (x ∷ xs) (p, h) = (f x p, All-map f xs h)

-- The search of `descendants` never runs out of fuel: its queue is empty after as many rounds as
-- the graph has edges, and one more.
pub descendants_total :
    (g : Graph) (start required : String)
    → descendants_within g start required ≡ some (descendants g start required)
descendants_total g start required =
    within-final g required start ∙ ap some (sym (descendants-final g required start))

-- Each path that `descendants` returns is a walk of the graph from the start to its resource, with
-- the resources and the relations on the way, whose first edge has no key or the required one.
pub descendants_sound :
    (g : Graph) (start required : String)
    → All (λ p. Walk g required start p.resource p.path p.relations) (descendants g start required)
descendants_sound g start required = rw (descendants-final g required start) (
    All-map (λ p item. item.0) (ended g required start).final.result
      (ended g required start).inv.result_items)

-- Each resource that such a walk leads to is returned exactly once, but for the start, which is not
-- returned.
pub descendants_once :
    (g : Graph) (start required r : String) (path relations : List String)
    → Walk g required start r path relations
    → count_if (λ p. p.resource == r) (descendants g start required) ≡ (if r == start then 0 else 1)
descendants_once g start required r path relations w =
    rw (descendants-final g required start)
      (ground (arith, (ended g required start).inv.once r, walks_visited g required start w))
