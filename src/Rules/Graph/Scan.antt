-- ===== src/Rules/Graph/Scan.antt =====
-- The loop over the edges of one item.
use k8s_diagnose.Prelude.{
  ℕ, suc, String, true, false, some, List, [], ◌∷◌, ◌++◌, ◌≡◌, ◌≤◌, ◌≢◌, ◌↔◌, ◌⊎◌, Memᴰ, is_some,
  lookup, put, lookup-put, length, length-append, count_if-append, any-append, arith, ◌==◌, All,
  All-concat, eq_iff, eq_refl, Bool-cases, ◌+◌, inl, inr, Option-cases, subst,
}
use mathlib.Core.List.Memᴰ
use mathlib.Core.Logic.{⊎_elim}
use k8s_diagnose.Rules.Graph.{
  Edge, Graph, edges_of, GraphPath, Search, wrong_key, known_by, child, offer, scan,
}
use k8s_diagnose.Rules.Graph.Walk.{
  KeyFits, step, Walk-length, IsItem, visited, queued, Rising, Inv, unvisited,
}

-- Under the bound on the depths, the second test asks whether the target was visited.
known_by-visited :
    (s : Search) (r : String) (level : ℕ)
    → ((d : ℕ) → lookup r s.best ≡ some d → d ≤ level)
    → known_by s.best r level ≡ visited s r
unfolding known_by
known_by-visited s r level h = elim (Option-cases (lookup r s.best)) [
  | inl e ↦ rw (e, known_by)
  | inr (d, e) ↦ rw (e, known_by) (ground (arith, h d e))
]

pub wrong_key_iff :
    (required : String) (c : GraphPath) (e : Edge)
    → (wrong_key required c e ≡ false) ↔ (length c.path ≡ 1 → KeyFits required e)
unfolding wrong_key
wrong_key_iff required c e =
    ground (arith, eq_iff required "", eq_iff e.key "", eq_iff e.key required)

Rising-concat :
    (low high : ℕ) (ps : List GraphPath) (p : GraphPath)
    → Rising low high ps
    → low ≤ high
    → length p.path ≡ high
    → Rising low high (ps ++ p ∷ [])
Rising-concat low high [] p h k e = (omega arith, omega arith, tt)
Rising-concat low high (q ∷ ps) p (a, b, h) k e =
    (a, b, Rising-concat (length q.path) high ps p h b e)

-- The three outcomes of the body of the loop.
pub data Offered (required : String) (c : GraphPath) (s : Search) (e : Edge) : Search → Type 0 where
  wrong : wrong_key required c e ≡ true → Offered required c s e s
  old : visited s e.to ≡ true → Offered required c s e s
  new :
      wrong_key required c e ≡ false
      → visited s e.to ≡ false
      → Offered required c s e (record {
        best = put e.to (length c.path) s.best;
        queue = s.queue ++ child c e ∷ [];
        result = s.result ++ child c e ∷ [];
      })

pub offer-Offered :
    (required : String) (c : GraphPath) (s : Search) (e : Edge)
    → ((d : ℕ) → lookup e.to s.best ≡ some d → d ≤ length c.path)
    → Offered required c s e (offer required c s e)
unfolding offer
offer-Offered required c s e low =
    let seen = known_by-visited s e.to (length c.path) low in
    elim (Bool-cases (wrong_key required c e)) [
      | inl w ↦ rw w (Offered.wrong w)
      | inr right ↦ elim (Bool-cases (visited s e.to)) [
        | inl v ↦ rw (right, seen, v) (Offered.old v)
        | inr v ↦ rw (right, seen, v) (Offered.new right v)
      ]
    ]

module _ (g : Graph) (required start : String) (c : GraphPath)
    (item : IsItem g required start c) where
  abbrev Kept : Search → Type 0
  Kept s = Inv g required start (length c.path) s

  unvisited-ne_start : {s : Search} {r : String} → Kept s → visited s r ≡ false → r ≢ start
  unvisited-ne_start {s} {r} inv v same =
      let at_start : visited s start ≡ false = subst (λ x. visited s x ≡ false) same v in
      cc (inv.start_visited)

  child-IsItem :
      {s : Search} {e : Edge}
      → Kept s
      → Memᴰ e (edges_of g c.resource)
      → wrong_key required c e ≡ false
      → visited s e.to ≡ false
      → IsItem g required start (child c e)
  unfolding child
  child-IsItem {s} {e} inv m right v = (
    step item.0 m (λ at_start. (wrong_key_iff required c e).0 right (item.1.0 at_start)),
    (
      λ same. absurd (unvisited-ne_start inv v same),
      λ short. absurd (omega (arith, Walk-length item.0, length-append c.path (e.to ∷ []))),
    ),
  )

  Offered-Inv :
      {s : Search} {e : Edge} {t : Search}
      → Memᴰ e (edges_of g c.resource)
      → Kept s
      → Offered required c s e t
      → Kept t
  unfolding child
  Offered-Inv m inv (wrong _) = inv
  Offered-Inv m inv (old _) = inv
  Offered-Inv {s} {e} m inv (new right v) = record {
    rising =
        Rising-concat _ _ s.queue (child c e) inv.rising (omega arith)
          (omega (arith, length-append c.path (e.to ∷ [])));
    low = λ r d h. ground (arith, inv.low r d, lookup-put e.to r (length c.path) s.best);
    start_visited = ground (arith, inv.start_visited, lookup-put e.to start (length c.path) s.best);
    queue_items = All-concat _ s.queue inv.queue_items (child-IsItem inv m right v);
    result_items = All-concat _ s.result inv.result_items (child-IsItem inv m right v);
    once = λ r. ground (
      arith,
      inv.once r,
      unvisited-ne_start inv v,
      lookup-put e.to r (length c.path) s.best,
      count_if-append (λ (p : GraphPath). p.resource == r) s.result (child c e ∷ []),
      eq_iff e.to r,
      eq_iff r start,
    );
  }

unvisited-put-le :
    (r : String) (d : ℕ) (best : List (String × ℕ)) (es : List Edge)
    → unvisited (put r d best) es ≤ unvisited best es
unvisited-put-le r d best [] = omega arith
unvisited-put-le r d best (e ∷ es) =
    ground (arith, unvisited-put-le r d best es, lookup-put r e.to d best)

unvisited-put-lt :
    (e : Edge) (d : ℕ) (best : List (String × ℕ)) (es : List Edge)
    → Memᴰ e es
    → is_some (lookup e.to best) ≡ false
    → suc (unvisited (put e.to d best) es) ≤ unvisited best es
unvisited-put-lt e d best [] m h = absurd (Memᴰ.not-nil m)
unvisited-put-lt e d best (x ∷ es) (Memᴰ.head same) h =
    rw (← same)
      (ground (arith, unvisited-put-le e.to d best es, lookup-put e.to e.to d best, eq_refl e.to))
unvisited-put-lt e d best (x ∷ es) (Memᴰ.tail m) h =
    ground (arith, unvisited-put-lt e d best es m h, lookup-put e.to x.to d best)

-- What the loop over the edges `es` of an item does; `all` holds all edges of the graph.
pub record Scanned (required : String) (c : GraphPath) (es all : List Edge) (s t : Search)
    : Type 0 where
  pub keeps : (r : String) → visited s r ≡ true → visited t r ≡ true
  pub keeps_queued : (r : String) → queued s r ≡ true → queued t r ≡ true
  pub queues : (r : String) → visited t r ≡ true → (visited s r ≡ true) ⊎ (queued t r ≡ true)
  pub visits : (e : Edge) → Memᴰ e es → wrong_key required c e ≡ false → visited t e.to ≡ true
  pub work : length t.queue + unvisited t.best all ≤ length s.queue + unvisited s.best all

Offered-Scanned :
    (required : String) (c : GraphPath) (s : Search) (e : Edge) (all : List Edge) (t : Search)
    → Memᴰ e all
    → Offered required c s e t
    → Scanned required c (e ∷ []) all s t
unfolding child
Offered-Scanned required c s e all t m (wrong w) = record {
  keeps = λ r h. h;
  keeps_queued = λ r h. h;
  queues = λ r h. inl h;
  visits = λ d md h.
      let right : wrong_key required c e ≡ false = rw (Memᴰ.eq_of_singleton md) at h in
      cc (w, right);
  work = omega arith;
}
Offered-Scanned required c s e all t m (old v) = record {
  keeps = λ r h. h;
  keeps_queued = λ r h. h;
  queues = λ r h. inl h;
  visits = λ d md h. rw (Memᴰ.eq_of_singleton md) v;
  work = omega arith;
}
Offered-Scanned required c s e all t m (new right v) = record {
  keeps = λ r h. ground (arith, lookup-put e.to r (length c.path) s.best);
  keeps_queued = λ r h.
      ground (arith, any-append (λ (p : GraphPath). p.resource == r) s.queue (child c e ∷ []));
  queues = λ r h. ground (
    arith,
    lookup-put e.to r (length c.path) s.best,
    any-append (λ (p : GraphPath). p.resource == r) s.queue (child c e ∷ []),
  );
  visits = λ d md h.
      rw (Memᴰ.eq_of_singleton md)
        (ground (arith, lookup-put e.to e.to (length c.path) s.best, eq_refl e.to));
  work = omega (
    arith,
    length-append s.queue (child c e ∷ []),
    unvisited-put-lt e (length c.path) s.best all m v,
  );
}

-- One edge, then the others.
Scanned-cons :
    (required : String) (c : GraphPath) (e : Edge) (es all : List Edge) (s t u : Search)
    → Scanned required c (e ∷ []) all s t
    → Scanned required c es all t u
    → Scanned required c (e ∷ es) all s u
Scanned-cons required c e es all s t u a b = record {
  keeps = λ r h. b.keeps r (a.keeps r h);
  keeps_queued = λ r h. b.keeps_queued r (a.keeps_queued r h);
  queues = λ r h. ground (arith, b.queues r h, a.queues r, b.keeps_queued r);
  visits = λ d md h.
      ⊎_elim (λ same. b.keeps d.to (a.visits d (Memᴰ.head same) h)) (λ m. b.visits d m h)
        (Memᴰ.cases_cons md);
  work = omega (arith, a.work, b.work);
}

module _ (g : Graph) (required start : String) (c : GraphPath) (item : IsItem g required start c)
    (all : List Edge) where
  pub scan-Scanned :
      (es : List Edge) (s : Search)
      → All (λ e. Memᴰ e (edges_of g c.resource) × Memᴰ e all) es
      → Inv g required start (length c.path) s
      → Inv g required start (length c.path) (scan required c es s)
        × Scanned required c es all s (scan required c es s)
  unfolding scan
  scan-Scanned [] s ms inv = (
    inv,
    record {
      keeps = λ r h. h;
      keeps_queued = λ r h. h;
      queues = λ r h. inl h;
      visits = λ d md h. absurd (Memᴰ.not-nil md);
      work = omega arith;
    },
  )
  scan-Scanned (e ∷ es) s ((m, in_all), ms) inv =
      let t = offer required c s e in
      let outcome = offer-Offered required c s e (λ d h. inv.low e.to d h) in
      let first = Offered-Scanned required c s e all t in_all outcome in
      let (inv', rest) = scan-Scanned es t ms (Offered-Inv g required start c item m inv outcome) in
      (inv', Scanned-cons required c e es all s t (scan required c es t) first rest)
