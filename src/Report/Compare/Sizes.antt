-- ===== src/Report/Compare/Sizes.antt =====
-- How the loops of a comparison fill its lists: one entry for each step.
use k8s_diagnose.Prelude.{
  ℕ, suc, String, Bool, true, false, Option, none, some, List, [], ◌∷◌, ◌≡◌, ◌∙◌, ◌+◌, ◌≤◌, refl,
  sym, subst, inl, inr, arith, ◌==◌, ◌||◌, if◌then◌else◌, is_some, Bool-cases, count_if, length,
  length-append, contains, is_empty, count_if-append,
}
use k8s_diagnose.Report.Json.{Json, string_field}
use k8s_diagnose.Report.Findings.{Objects, Groups, group, matching_unavailable, value_at, subject}
use k8s_diagnose.Report.Compare.{
  Classes, Trend, rises, falls, stays, Pair, UnknownEntry, unknown_entry, place_by_weight,
  place_correlated, plain_pair, weigh, lost_entry, turned_unavailable, add_missing, classify_keys,
  changed_common, split_missing, new_values, correlated_pairs,
}

abbrev pub sizes : Classes → ℕ
sizes c = length c.unknowns + length c.worse + length c.better + length c.other

-- The unknown values that have one in the later report, at the severity of an unavailable check.
abbrev pub with_after : List UnknownEntry → ℕ
with_after es = count_if (λ (e : UnknownEntry). is_some e.after) es

-- What an entry, if there is one, says of the later report.
abbrev After : Option Json → Option UnknownEntry → Type 0
After a none = Unit
After a (some e) = e.after ≡ a

if-After :
    (a : Option Json) (b : Bool) (o : Option UnknownEntry)
    → After a o
    → After a (if b then none else o)
if-After a true o h = tt
if-After a false o h = h

unknown_entry-After : (v : Json) (g : Groups) (a : Option Json) → After a (unknown_entry v g a)
unfolding unknown_entry
unknown_entry-After v g a = if-After a (string_field v "severity" == "unavailable") _ (
    if-After a
      (string_field v "section" == ""
        || is_empty (matching_unavailable v (group (string_field v "section") g)))
      _ refl)

if-After_else :
    (a : Option Json) (b : Bool) (o : Option UnknownEntry)
    → After a o
    → After a (if b then o else none)
if-After_else a true o h = h
if-After_else a false o h = tt

place_by_weight-sizes :
    (t : Trend) (p : Pair) (c : Classes)
    → (sizes (place_by_weight t p c) ≡ suc (sizes c))
      × ((place_by_weight t p c).unknowns ≡ c.unknowns)
unfolding place_by_weight
place_by_weight-sizes rises p c = (omega (arith, length-append c.worse (p ∷ [])), refl)
place_by_weight-sizes falls p c = (omega (arith, length-append c.better (p ∷ [])), refl)
place_by_weight-sizes stays p c = (omega (arith, length-append c.other (p ∷ [])), refl)

abbrev pub AllAfter : List UnknownEntry → Type 0
AllAfter es = with_after es ≡ length es

with_after_one : (e : UnknownEntry) (a : Json) → e.after ≡ some a → with_after (e ∷ []) ≡ 1
with_after_one e a h = rw h refl

without_after :
    (e : UnknownEntry) (v : Json) (es : List UnknownEntry)
    → e.after ≡ none
    → with_after (record e { before = v } ∷ es) ≡ with_after es
without_after e v es h = rw h refl

place_correlated-sizes :
    (o : Option UnknownEntry) (previous current : Json) (c : Classes)
    → After (some current) o
    → AllAfter c.unknowns
    → (sizes (place_correlated o previous current c) ≡ suc (sizes c))
      × AllAfter (place_correlated o previous current c).unknowns
unfolding place_correlated
place_correlated-sizes none previous current c h k =
    let (n, e) = place_by_weight-sizes (weigh previous current) (plain_pair previous current) c in
    (n, subst AllAfter (sym e) k)
place_correlated-sizes (some e) previous current c h k = (
  omega (arith, length-append c.unknowns (e ∷ [])),
  omega (
    arith,
    k,
    length-append c.unknowns (e ∷ []),
    count_if-append (λ (x : UnknownEntry). is_some x.after) c.unknowns (e ∷ []),
    with_after_one e current h,
  ),
)

pub classify_keys-sizes :
    (g : Groups) (b a : Objects) (ks : List String) (c : Classes)
    → AllAfter c.unknowns
    → (sizes (classify_keys g b a ks c) ≡ length ks + sizes c)
      × AllAfter (classify_keys g b a ks c).unknowns
unfolding classify_keys lost_entry
classify_keys-sizes g b a [] c h = (omega arith, h)
classify_keys-sizes g b a (k ∷ ks) c h =
    let previous = value_at b k in
    let current = value_at a k in
    let (n, h') =
      place_correlated-sizes (lost_entry g previous current) previous current c
        (if-After_else (some current) (turned_unavailable previous current) _
          (unknown_entry-After previous g (some current)))
        h in
    let (n', h'') =
      classify_keys-sizes g b a ks
        (place_correlated (lost_entry g previous current) previous current c) h' in
    (omega (arith, n, n'), h'')

add_missing-sizes :
    (o : Option UnknownEntry) (v : Json) (rest : List UnknownEntry × List Json)
    → After none o
    → (length (add_missing o v rest).0 + length (add_missing o v rest).1
        ≡ suc (length rest.0 + length rest.1))
      × (with_after (add_missing o v rest).0 ≡ with_after rest.0)
unfolding add_missing
add_missing-sizes none v rest h = (omega arith, refl)
add_missing-sizes (some e) v rest h = (omega arith, without_after e v rest.0 h)

pub split_missing-sizes :
    (roots : Bool) (g : Groups) (paired : List String) (b : Objects) (ids : List String)
    → (length (split_missing roots g paired b ids).0
          + length (split_missing roots g paired b ids).1
          + count_if (contains paired) ids
        ≡ length ids)
      × (with_after (split_missing roots g paired b ids).0 ≡ 0)
unfolding split_missing
split_missing-sizes roots g paired b [] = (refl, refl)
split_missing-sizes roots g paired b (i ∷ ids) =
    let (n, h) = split_missing-sizes roots g paired b ids in
    let (n', h') =
      add_missing-sizes (unknown_entry (subject roots (value_at b i)) g none) (value_at b i)
        (split_missing roots g paired b ids)
        (unknown_entry-After (subject roots (value_at b i)) g none) in
    elim (Bool-cases (contains paired i)) [
      | inl found ↦ rw found (omega (arith, n), h)
      | inr lost ↦ rw lost (omega (arith, n, n'), h' ∙ h)
    ]

pub new_values-sizes :
    (paired : List String) (a : Objects) (ids : List String)
    → length (new_values paired a ids) + count_if (contains paired) ids ≡ length ids
unfolding new_values
new_values-sizes paired a [] = refl
new_values-sizes paired a (i ∷ ids) = ground (arith, new_values-sizes paired a ids)

pub changed_common-le :
    (stable : Json → Json) (b a : Objects) (ids : List String)
    → length (changed_common stable b a ids) ≤ length ids
unfolding changed_common
changed_common-le stable b a [] = omega arith
changed_common-le stable b a (i ∷ ids) = ground (arith, changed_common-le stable b a ids)

pub correlated_pairs-length :
    (b a : Objects) (ks : List String) → length (correlated_pairs b a ks) ≡ length ks
unfolding correlated_pairs
correlated_pairs-length b a [] = refl
correlated_pairs-length b a (k ∷ ks) = omega (arith, correlated_pairs-length b a ks)
