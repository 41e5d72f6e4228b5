-- ===== src/Report/Compare/Picked.antt =====
-- The keys that a comparison picks from its maps, and how many there are.
use k8s_diagnose.Prelude.{
  String, Bool, true, not, List, [], ◌∷◌, ◌≡◌, ◌∙◌, ◌+◌, ◌≤◌, refl, sym, subst, inl, inr, arith,
  ◌==◌, eq_iff, eq_refl, ◌&&◌, All, All-weaken, All-of_Memᴰ, Bool-cases, count_if, length, keep,
  Memᴰ-keep, contains, contains-Memᴰ, contains_Memᴰ, put, text_lt, Memᴰ,
}
use k8s_diagnose.Prelude.Sort.{sort_strings, sort, Memᴰ-sort, count_if-sort, length-sort}
use k8s_diagnose.Report.Json.{Json, string_field}
use k8s_diagnose.Report.Findings.{Objects, keys, has, by_id_from, values_for_ids, correlation_map}
use k8s_diagnose.Report.Compare.{ids_at}
use k8s_diagnose.Report.Compare.Maps.{Once, Entries-put, put-Once, has-keys}
use k8s_diagnose.Report.Compare.Paired.{IsById, ids_at-count, count_if-contains}

pub by_id_from-IsById : (vs : List Json) (m : Objects) → IsById m → IsById (by_id_from vs m)
unfolding by_id_from
by_id_from-IsById [] m b = b
by_id_from-IsById (v ∷ vs) m b = elim (Bool-cases (string_field v "id" == "")) [
  | inl nameless ↦ rw nameless (by_id_from-IsById vs m b)
  | inr named ↦ rw named (
      by_id_from-IsById vs (put (string_field v "id") v m) (record {
        named = Entries-put (λ k w. string_field w "id" ≡ k) (string_field v "id") v m refl b.named;
        once = put-Once (string_field v "id") v m b.once;
      }))
]

bool_iff : (a b : Bool) → (a ≡ true → b ≡ true) → (b ≡ true → a ≡ true) → a ≡ b
bool_iff a b f g = ground (arith, f, g)

-- The part of a list that a test picks, in order.
abbrev pub picked : (String → Bool) → List String → List String
unfolding sort_strings
picked p ks = sort_strings (keep p ks)

pub count_if-keep-le :
    (q p : String → Bool) (xs : List String) → count_if q (keep p xs) ≤ count_if q xs
count_if-keep-le q p [] = omega arith
count_if-keep-le q p (x ∷ xs) = ground (arith, count_if-keep-le q p xs)

pub picked-Once : (p : String → Bool) (ks : List String) → Once ks → Once (picked p ks)
unfolding sort_strings
picked-Once p ks u k = omega (
  arith,
  count_if-sort text_lt (λ j. j == k) (keep p ks),
  count_if-keep-le (λ j. j == k) p ks,
  u k,
)

pub picked-All :
    (p : String → Bool) (ks : List String)
    → All (λ k. (p k ≡ true) × Memᴰ k ks × Memᴰ k (picked p ks)) (picked p ks)
unfolding sort_strings
picked-All p ks =
    All-of_Memᴰ _ (sort text_lt (keep p ks))
      (λ k m. let (i, t) = Memᴰ-keep p k ks ((Memᴰ-sort text_lt k (keep p ks)).0 m) in (t, i, m))

keep-split :
    (p : String → Bool) (xs : List String)
    → length (keep p xs) + length (keep (λ x. not (p x)) xs) ≡ length xs
keep-split p [] = omega arith
keep-split p (x ∷ xs) = ground (arith, keep-split p xs)

length-picked : (p : String → Bool) (ks : List String) → length (picked p ks) ≡ length (keep p ks)
unfolding sort_strings
length-picked p ks = length-sort text_lt (keep p ks)

contains-keep_and :
    (p : String → Bool) (k : String) (xs : List String)
    → contains (keep p xs) k ≡ (p k && contains xs k)
contains-keep_and p k [] = ground arith
contains-keep_and p k (x ∷ xs) = elim (Bool-cases (x == k)) [
  | inl same ↦
      subst (λ y. contains (keep p (y ∷ xs)) k ≡ (p k && contains (y ∷ xs) k))
        (sym ((eq_iff x k).0 same)) (ground (arith, eq_refl k, contains-keep_and p k xs))
  | inr other ↦ ground (arith, other, contains-keep_and p k xs)
]

contains-picked :
    (p : String → Bool) (k : String) (ks : List String)
    → contains (picked p ks) k ≡ (p k && contains ks k)
unfolding sort_strings
contains-picked p k ks =
    bool_iff _ _
      (λ h.
        sym (contains-keep_and p k ks)
        ∙ contains-Memᴰ k _ ((Memᴰ-sort text_lt k (keep p ks)).0 (contains_Memᴰ k _ h)))
      (λ h.
        contains-Memᴰ k _
          ((Memᴰ-sort text_lt k (keep p ks)).1 (contains_Memᴰ k _ (contains-keep_and p k ks ∙ h))))

module _ (b a : Objects) (bb : IsById b) (ba : IsById a) where
  abbrev pub common : List String
  common = picked (has a) (keys b)

  pub common-length :
      length common + length (picked (λ id. not (has a id)) (keys b)) ≡ length (keys b)
  common-length = omega (
    arith,
    keep-split (has a) (keys b),
    length-picked (has a) (keys b),
    length-picked (λ id. not (has a id)) (keys b),
  )

  -- Seen from the other side, the common keys are as many.
  count_if-common :
      (ks : List String)
      → All (λ k. contains (keys a) k ≡ true) ks
      → count_if (contains common) ks ≡ length (keep (has b) ks)
  count_if-common [] h = refl
  count_if-common (k ∷ ks) (p, h) =
      ground (
        arith,
        count_if-common ks h,
        contains-picked (has a) k (keys b),
        has-keys a k,
        has-keys b k,
      )

  common-other : length common ≡ length (keep (has b) (keys a))
  common-other =
      sym (
        count_if-contains common (keys a) (picked-Once (has a) (keys b) bb.once) ba.once (
          All-weaken _ (λ k. contains (keys a) k ≡ true) common (λ k (t, r, q). has-keys a k ∙ t)
            (picked-All (has a) (keys b))))
      ∙ count_if-common (keys a) (All-of_Memᴰ _ (keys a) (λ k m. contains-Memᴰ k (keys a) m))

  pub other-length :
      length common + length (picked (λ id. not (has b id)) (keys a)) ≡ length (keys a)
  other-length = omega (
    arith,
    common-other,
    keep-split (has b) (keys a),
    length-picked (λ id. not (has b id)) (keys a),
  )

-- The IDs of one report alone hold those of its correlated values, one for each key.
pub alone-count :
    (m : Objects) (b : IsById m) (p : String → Bool) (roots : Bool) (ks : List String)
    → Once ks
    → All (λ k. has (correlation_map (values_for_ids m (picked p (keys m))) roots) k ≡ true) ks
    → count_if
        (contains (ids_at (correlation_map (values_for_ids m (picked p (keys m))) roots) ks))
        (picked p (keys m))
      ≡ length ks
alone-count m b p roots ks u h =
    ids_at-count m b (picked p (keys m)) roots ks (picked-Once p (keys m) b.once)
      (All-weaken _ (λ i. (has m i ≡ true) × (contains (picked p (keys m)) i ≡ true))
        (picked p (keys m))
        (λ i (t, r, s).
          (sym (has-keys m i) ∙ contains-Memᴰ i (keys m) r, contains-Memᴰ i (picked p (keys m)) s))
        (picked-All p (keys m)))
      u h

module _ (b a : Objects) where
  abbrev pub both : List String
  both = picked (has a) (keys b)

  pub both-before : All (λ k. has b k ≡ true) both
  both-before =
      All-weaken _ (λ k. has b k ≡ true) both
        (λ k (t, r, s). sym (has-keys b k) ∙ contains-Memᴰ k (keys b) r)
        (picked-All (has a) (keys b))

  pub both-after : All (λ k. has a k ≡ true) both
  both-after =
      All-weaken _ (λ k. has a k ≡ true) both (λ k (t, r, s). t) (picked-All (has a) (keys b))
