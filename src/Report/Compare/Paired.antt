-- ===== src/Report/Compare/Paired.antt =====
-- The correlated values of one report are as many as the IDs that they take from its own.
use k8s_diagnose.Prelude.{
  String, Bool, true, false, Option, none, some, List, [], ◌∷◌, ◌≡◌, ◌∙◌, ◌+◌, ◌≤◌, ◌<◌, refl, sym,
  ap, subst, inl, inr, arith, ◌==◌, ◌↔◌, eq_iff, eq_refl, lookup, All, All-weaken, All-concat,
  Bool-cases, count_if, map, length, contains,
}
use k8s_diagnose.Report.Json.{Json, string_field}
use k8s_diagnose.Report.Findings.{
  Objects, Groups, group, or_empty, append_group, keys, has, value_at, values_for_ids, subject,
  finding_correlation_key, grouped_from, singles, correlation_map,
}
use k8s_diagnose.Report.Compare.{ids_at}
use k8s_diagnose.Report.Compare.Maps.{
  Entries, keys_of, Once, Entries-put, Entries-lookup, put-Once, has-value_at,
}

-- The key under which a value is correlated.
abbrev pub correlation : Bool → Json → String
unfolding finding_correlation_key subject
correlation roots v = finding_correlation_key (subject roots v)

-- A value that stands in `m` under its own ID, which is one of `ids`.
unfoldable pub Owned : Objects → List String → Json → Type 0
unfolding value_at string_field
Owned m ids v = (value_at m (string_field v "id") ≡ v) × (contains ids (string_field v "id") ≡ true)

module _ (roots : Bool) (m : Objects) (ids : List String) where
  abbrev IsGroup : String → List Json → Type 0
  IsGroup k vs = All (λ v. (correlation roots v ≡ k) × Owned m ids v) vs

  or_empty-IsGroup :
      (k : String) (groups : Groups) (o : Option (List Json))
      → Entries IsGroup groups
      → lookup k groups ≡ o
      → IsGroup k (or_empty o)
  or_empty-IsGroup k groups none h e = tt
  or_empty-IsGroup k groups (some vs) h e = Entries-lookup IsGroup k vs groups h e

  append_group-Entries :
      (k : String) (v : Json) (groups : Groups)
      → (correlation roots v ≡ k) × Owned m ids v
      → Entries IsGroup groups
      → Entries IsGroup (append_group k v groups)
  unfolding append_group group
  append_group-Entries k v groups p h =
      Entries-put IsGroup k _ groups
        (All-concat _ (group k groups) (or_empty-IsGroup k groups (lookup k groups) h refl) p) h

  grouped_from-Entries :
      (vs : List Json) (groups : Groups)
      → All (Owned m ids) vs
      → Entries IsGroup groups
      → Entries IsGroup (grouped_from roots vs groups)
  unfolding grouped_from
  grouped_from-Entries [] groups o h = h
  grouped_from-Entries (v ∷ vs) groups (p, o) h = elim (Bool-cases (correlation roots v == "")) [
    | inl nameless ↦ rw nameless (grouped_from-Entries vs groups o h)
    | inr named ↦ rw named (
        grouped_from-Entries vs (append_group (correlation roots v) v groups) o
          (append_group-Entries (correlation roots v) v groups (refl, p) h))
  ]

  abbrev IsSingle : String → Json → Type 0
  IsSingle k v = (correlation roots v ≡ k) × Owned m ids v

  singles-Entries : (groups : Groups) → Entries IsGroup groups → Entries IsSingle (singles groups)
  unfolding singles
  singles-Entries [] h = tt
  singles-Entries ((k, []) ∷ groups) (p, h) = singles-Entries groups h
  singles-Entries ((k, v ∷ []) ∷ groups) ((p, q), h) = (p, singles-Entries groups h)
  singles-Entries ((k, v ∷ w ∷ vs) ∷ groups) (p, h) = singles-Entries groups h

grouped_from-Once :
    (roots : Bool) (vs : List Json) (groups : Groups)
    → Once (keys_of groups)
    → Once (keys_of (grouped_from roots vs groups))
unfolding grouped_from append_group
grouped_from-Once roots [] groups h = h
grouped_from-Once roots (v ∷ vs) groups h = elim (Bool-cases (correlation roots v == "")) [
  | inl nameless ↦ rw nameless (grouped_from-Once roots vs groups h)
  | inr named ↦ rw named (
      grouped_from-Once roots vs (append_group (correlation roots v) v groups)
        (put-Once (correlation roots v) _ groups h))
]

singles-le :
    (k : String) (groups : Groups)
    → count_if (λ j. j == k) (keys (singles groups)) ≤ count_if (λ j. j == k) (keys_of groups)
unfolding singles
singles-le k [] = omega arith
singles-le k ((j, []) ∷ groups) = ground (arith, singles-le k groups)
singles-le k ((j, v ∷ []) ∷ groups) = ground (arith, singles-le k groups)
singles-le k ((j, v ∷ w ∷ vs) ∷ groups) = ground (arith, singles-le k groups)

pub correlation_map-Once : (vs : List Json) (roots : Bool) → Once (keys (correlation_map vs roots))
unfolding correlation_map
correlation_map-Once vs roots k = omega (
  arith,
  singles-le k (grouped_from roots vs []),
  grouped_from-Once roots vs [] (λ j. omega arith) k,
)

pub correlation_map-Entries :
    (roots : Bool) (m : Objects) (ids : List String) (vs : List Json)
    → All (Owned m ids) vs
    → Entries (λ k v. (correlation roots v ≡ k) × Owned m ids v) (correlation_map vs roots)
unfolding correlation_map
correlation_map-Entries roots m ids vs o =
    singles-Entries roots m ids (grouped_from roots vs [])
      (grouped_from-Entries roots m ids vs [] o tt)

contains-count :
    (x : String) (xs : List String) → (contains xs x ≡ true) ↔ (0 < count_if (λ j. j == x) xs)
contains-count x [] = ground arith
contains-count x (y ∷ ys) = ground (arith, contains-count x ys)

count_if-none : (xs : List String) → count_if (contains []) xs ≡ 0
count_if-none [] = refl
count_if-none (x ∷ xs) = count_if-none xs

count_if-split :
    (x : String) (l xs : List String)
    → contains l x ≡ false
    → count_if (contains (x ∷ l)) xs ≡ count_if (λ j. j == x) xs + count_if (contains l) xs
count_if-split x l [] h = refl
count_if-split x l (y ∷ ys) h = elim (Bool-cases (x == y)) [
  | inl same ↦
      subst
        (λ z.
          count_if (contains (x ∷ l)) (z ∷ ys)
          ≡ count_if (λ j. j == x) (z ∷ ys) + count_if (contains l) (z ∷ ys))
        ((eq_iff x y).0 same) (ground (arith, h, eq_refl x, count_if-split x l ys h))
  | inr other ↦ ground (arith, other, eq_iff x y, eq_iff y x, count_if-split x l ys h)
]

-- Counting the elements of a set within a set that holds them.
pub count_if-contains :
    (l xs : List String)
    → Once l
    → Once xs
    → All (λ k. contains xs k ≡ true) l
    → count_if (contains l) xs ≡ length l
count_if-contains [] xs u w h = count_if-none xs
count_if-contains (x ∷ l) xs u w (p, h) =
    let rest = count_if-contains l xs (λ k. ground (arith, u k)) w h in
    let fresh : contains l x ≡ false = ground (arith, u x, eq_refl x, contains-count x l) in
    omega (arith, rest, count_if-split x l xs fresh, w x, (contains-count x xs).0 p)

count_if-ids :
    (f g : String → String) (i : String) (ks : List String)
    → All (λ k. g (f k) ≡ k) ks
    → count_if (λ j. j == i) (map f ks) ≤ count_if (λ j. j == g i) ks
count_if-ids f g i [] h = omega arith
count_if-ids f g i (k ∷ ks) (e, h) = elim (Bool-cases (f k == i)) [
  | inl same ↦
      let at : k ≡ g i = sym e ∙ ap g ((eq_iff (f k) i).0 same) in
      ground (arith, same, eq_iff k (g i), at, count_if-ids f g i ks h)
  | inr other ↦ ground (arith, other, count_if-ids f g i ks h)
]

ids_at-map :
    (m : Objects) (ks : List String) → ids_at m ks ≡ map (λ k. string_field (value_at m k) "id") ks
unfolding ids_at
ids_at-map m [] = refl
ids_at-map m (k ∷ ks) = ap (λ ids. string_field (value_at m k) "id" ∷ ids) (ids_at-map m ks)

length-map : (f : String → String) (ks : List String) → length (map f ks) ≡ length ks
length-map f [] = refl
length-map f (k ∷ ks) = omega (arith, length-map f ks)

All-map :
    (f : String → String) (P : String → Type 0) (ks : List String)
    → All (λ k. P (f k)) ks
    → All P (map f ks)
All-map f P [] h = tt
All-map f P (k ∷ ks) (p, h) = (p, All-map f P ks h)

-- A map whose keys are the IDs of its values, each once.
pub record IsById (m : Objects) : Type 0 where
  pub named : Entries (λ k v. string_field v "id" ≡ k) m
  pub once : Once (keys m)

module _ (m : Objects) (b : IsById m) (ids : List String) where
  pub values_for_ids-Owned :
      (is : List String)
      → All (λ i. (has m i ≡ true) × (contains ids i ≡ true)) is
      → All (Owned m ids) (values_for_ids m is)
  unfolding values_for_ids Owned
  values_for_ids-Owned [] h = tt
  values_for_ids-Owned (i ∷ is) ((p, q), h) =
      let e = Entries-lookup _ i (value_at m i) m b.named (has-value_at m i p) in
      ((ap (value_at m) e, subst (λ j. contains ids j ≡ true) (sym e) q), values_for_ids-Owned is h)

  -- The IDs of the correlated values that `ks` picks are as many as `ks`, among `ids`.
  pub ids_at-count :
      (roots : Bool) (ks : List String)
      → Once ids
      → All (λ i. (has m i ≡ true) × (contains ids i ≡ true)) ids
      → Once ks
      → All (λ k. has (correlation_map (values_for_ids m ids) roots) k ≡ true) ks
      → count_if (contains (ids_at (correlation_map (values_for_ids m ids) roots) ks)) ids
        ≡ length ks
  unfolding Owned
  ids_at-count roots ks u h w found =
      let c = correlation_map (values_for_ids m ids) roots in
      let f : String → String = λ k. string_field (value_at c k) "id" in
      let g : String → String = λ i. correlation roots (value_at m i) in
      let owned : All (λ k. (correlation roots (value_at c k) ≡ k) × Owned m ids (value_at c k))
          ks =
        All-weaken (λ k. has c k ≡ true) _ ks
          (λ k e.
            Entries-lookup _ k (value_at c k) c
              (correlation_map-Entries roots m ids (values_for_ids m ids)
                (values_for_ids-Owned ids h))
              (has-value_at c k e))
          found in
      let back : All (λ k. g (f k) ≡ k) ks =
        All-weaken _ (λ k. g (f k) ≡ k) ks (λ k (e, (o, i)). ap (correlation roots) o ∙ e) owned in
      rw (ids_at-map c ks) (
        count_if-contains (map f ks) ids (λ i. omega (arith, count_if-ids f g i ks back, w (g i))) u
          (All-map f _ ks
            (All-weaken _ (λ k. contains ids (f k) ≡ true) ks (λ k (e, (o, i)). i) owned))
        ∙ length-map f ks)
