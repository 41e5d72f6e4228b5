-- ===== src/Report/Compare/Same.antt =====
-- A report compared with itself.
use k8s_diagnose.Prelude.{
  ℕ, String, Bool, true, false, not, List, [], ◌∷◌, ◌≡◌, ◌∙◌, refl, sym, ap, subst, text_lt, arith,
  eq_refl, bool_eq, All, All-of_Memᴰ, contains-Memᴰ, keep, length,
}
use k8s_diagnose.Prelude.Sort.{sort_strings, sort, length-sort}
use k8s_diagnose.Report.Json.{
  Json, Items, Fields, null, bool, number, text, array, object, no_items, item, no_fields, entry,
  json_eq, items_eq, fields_eq,
}
use k8s_diagnose.Report.Findings.{
  Objects, keys, has, finding_map, root_map, set_parts, common_keys, value_at, values_for_ids,
  correlation_map, grouped_from, singles,
}
use k8s_diagnose.Report.Compare.{
  Difference, compare, findings_by_parts, roots_by_parts, compare_findings, compare_root_causes,
  changed_common, split_missing, new_values, classify_keys, correlated_pairs, stable_finding,
  stable_root,
}
use k8s_diagnose.Report.Compare.Maps.{has-keys, length-keys}

bool_eq_refl : (b : Bool) → bool_eq b b ≡ true
bool_eq_refl true = refl
bool_eq_refl false = refl

mutual
  unfolding json_eq

  json_eq_refl : (v : Json) → json_eq v v ≡ true
  json_eq_refl null = refl
  json_eq_refl (bool b) = bool_eq_refl b
  json_eq_refl (number n) = eq_refl n
  json_eq_refl (text s) = eq_refl s
  json_eq_refl (array xs) = items_eq_refl xs
  json_eq_refl (object fs) = fields_eq_refl fs

  items_eq_refl : (xs : Items) → items_eq xs xs ≡ true
  items_eq_refl no_items = refl
  items_eq_refl (item x xs) = ground (arith, json_eq_refl x, items_eq_refl xs)

  fields_eq_refl : (fs : Fields) → fields_eq fs fs ≡ true
  fields_eq_refl no_fields = refl
  fields_eq_refl (entry k v fs) = ground (arith, eq_refl k, json_eq_refl v, fields_eq_refl fs)

pub semantic_eq_refl : (v : Json) → json_eq v v ≡ true
semantic_eq_refl v = json_eq_refl v

nothing_alone :
    (p : String → Bool) (ks : List String)
    → All (λ k. p k ≡ true) ks
    → keep (λ k. not (p k)) ks ≡ []
nothing_alone p [] h = refl
nothing_alone p (k ∷ ks) (q, h) = rw q (nothing_alone p ks h)

keep_own : (p : String → Bool) (ks : List String) → All (λ k. p k ≡ true) ks → keep p ks ≡ ks
keep_own p [] h = refl
keep_own p (k ∷ ks) (q, h) = rw q (ap (λ js. k ∷ js) (keep_own p ks h))

has-own : (m : Objects) → All (λ k. has m k ≡ true) (keys m)
has-own m = All-of_Memᴰ _ (keys m) (λ k i. sym (has-keys m k) ∙ contains-Memᴰ k (keys m) i)

set_parts-same : (m : Objects) → set_parts m m ≡ (sort_strings (keys m), [], [])
unfolding set_parts sort_strings
set_parts-same m =
    rw (nothing_alone (has m) (keys m) (has-own m), keep_own (has m) (keys m) (has-own m)) refl

unchanged_common :
    (stable : Json → Json) (m : Objects) (ids : List String) → changed_common stable m m ids ≡ []
unfolding changed_common
unchanged_common stable m [] = refl
unchanged_common stable m (i ∷ ids) =
    rw (json_eq_refl (stable (value_at m i))) (unchanged_common stable m ids)

-- Nothing but unchanged values.
abbrev pub IsUnchanged : Difference → ℕ → Type 0
IsUnchanged d n =
    (d.new ≡ [])
    × (d.resolved ≡ [])
    × (d.unknown ≡ [])
    × (d.worsened ≡ [])
    × (d.improved ≡ [])
    × (d.changed ≡ [])
    × (d.unchanged ≡ n)

length-sort_strings : (ks : List String) → length (sort_strings ks) ≡ length ks
unfolding sort_strings
length-sort_strings ks = length-sort text_lt ks

module _ (r : Json) where
  findings_by_parts-same :
      (m : Objects)
      → IsUnchanged (findings_by_parts r m m (sort_strings (keys m), [], [])) (length m)
  unfolding findings_by_parts values_for_ids correlation_map grouped_from singles common_keys
      sort_strings sort classify_keys split_missing new_values
  findings_by_parts-same m = rw (unchanged_common stable_finding m (sort text_lt (keys m))) (
    refl,
    refl,
    refl,
    refl,
    refl,
    refl,
    omega (arith, length-sort text_lt (keys m), length-keys m),
  )

  roots_by_parts-same :
      (m : Objects) → IsUnchanged (roots_by_parts r m m (sort_strings (keys m), [], [])) (length m)
  unfolding roots_by_parts values_for_ids correlation_map grouped_from singles common_keys
      sort_strings sort correlated_pairs split_missing new_values
  roots_by_parts-same m = rw (unchanged_common stable_root m (sort text_lt (keys m))) (
    refl,
    refl,
    refl,
    refl,
    refl,
    refl,
    omega (arith, length-sort text_lt (keys m), length-keys m),
  )

-- `Compare` of a report with itself finds nothing new, resolved, unknown, worse, better or changed:
-- all its findings and root causes, by their IDs, are unchanged.
pub compare-same :
    (r : Json)
    → IsUnchanged (compare r r).findings (length (finding_map r))
      × IsUnchanged (compare r r).root_causes (length (root_map r))
unfolding compare compare_findings compare_root_causes
compare-same r = (
  subst
      (λ p.
        IsUnchanged (findings_by_parts r (finding_map r) (finding_map r) p)
          (length (finding_map r)))
      (sym (set_parts-same (finding_map r))) (findings_by_parts-same r (finding_map r)),
  subst (λ p. IsUnchanged (roots_by_parts r (root_map r) (root_map r) p) (length (root_map r)))
      (sym (set_parts-same (root_map r))) (roots_by_parts-same r (root_map r)),
)
