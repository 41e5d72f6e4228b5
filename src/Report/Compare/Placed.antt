-- ===== src/Report/Compare/Placed.antt =====
-- Which values stand in which list of a comparison.
use k8s_diagnose.Prelude.{
  ℕ, suc, String, Bool, true, false, Option, none, some, List, [], ◌∷◌, ◌≡◌, ◌<◌, ◌⊎◌, refl, sym,
  subst, inl, inr, arith, ◌==◌, ◌||◌, if◌then◌else◌, Bool-cases, length, All, All-concat, contains,
  lookup, ltb, is_empty,
}
use mathlib.Core.Logic.{⊎_elim}
use k8s_diagnose.Report.Json.{Json, json_eq, string_field}
use k8s_diagnose.Report.Findings.{
  Objects, Groups, group, matching_unavailable, has, value_at, subject,
}
use k8s_diagnose.Report.Compare.{
  Classes, rises, falls, stays, Pair, UnknownEntry, Difference, unknown_entry, place_by_weight,
  place_correlated, plain_pair, severity_weight, weigh, lost_entry, turned_unavailable, add_missing,
  classify_keys, changed_common, split_missing, new_values, correlated_pairs,
}
use k8s_diagnose.Report.Compare.Paired.{correlation}

-- A value of the map, under its own ID.
abbrev pub Known : Objects → Json → Type 0
Known m v = lookup (string_field v "id") m ≡ some v

-- A value of the first map whose ID the second does not have.
abbrev pub Alone : Objects → Objects → Json → Type 0
Alone m other v = Known m v × (has other (string_field v "id") ≡ false)

-- The place of a severity among these, from the gravest, counted from the end; 0 for another text.
abbrev pub rank : List String → String → ℕ
rank [] s = 0
rank (x ∷ xs) s = if s == x then suc (length xs) else rank xs s

abbrev pub gravity : Json → ℕ
gravity v =
    rank ("issue" ∷ "warning" ∷ "unavailable" ∷ "candidate" ∷ []) (string_field v "severity")

weigh-cases :
    (before after : Json)
    → ((weigh before after ≡ rises) × (gravity before < gravity after))
      ⊎ ((weigh before after ≡ falls) × (gravity after < gravity before))
      ⊎ ((weigh before after ≡ stays) × (gravity before ≡ gravity after))
unfolding weigh severity_weight
weigh-cases before after = elim (Bool-cases (ltb (gravity before) (gravity after))) [
  | inl less ↦ rw less (inl (refl, ground arith))
  | inr not_less ↦ elim (Bool-cases (ltb (gravity after) (gravity before))) [
    | inl more ↦ rw (not_less, more) (inr (inl (refl, ground arith)))
    | inr same ↦ rw (not_less, same) (inr (inr (refl, ground arith)))
  ]
]

module _ (roots : Bool) (b a : Objects) where
  -- A value of each report, alone in its own, that agree in code and resource.
  abbrev pub Correlated : Json → Json → Type 0
  Correlated before after =
      Alone b a before × Alone a b after × (correlation roots before ≡ correlation roots after)

  abbrev pub Rises : Pair → Type 0
  Rises p = Correlated p.before p.after × (gravity p.before < gravity p.after)

  abbrev pub Falls : Pair → Type 0
  Falls p = Correlated p.before p.after × (gravity p.after < gravity p.before)

  -- One ID in both reports, or correlated.
  abbrev pub Paired : Pair → Type 0
  Paired p =
      (Known b p.before
        × Known a p.after
        × (string_field p.before "id" ≡ string_field p.after "id"))
      ⊎ Correlated p.before p.after

  abbrev pub Lost : UnknownEntry → Type 0
  Lost e =
      Alone b a e.before
      × ((e.after ≡ none) ⊎ ((v : Json) × (e.after ≡ some v) × Correlated e.before v))

  -- Where the values in the lists of a difference come from.
  pub record Placed (d : Difference) : Type 0 where
    pub new_alone : All (Alone a b) d.new
    pub resolved_alone : All (Alone b a) d.resolved
    pub unknown_lost : All Lost d.unknown
    pub worsened_rises : All Rises d.worsened
    pub improved_falls : All Falls d.improved
    pub changed_paired : All Paired d.changed

  -- What an entry, if there is one, holds.
  abbrev Holds : Json → Option Json → Option UnknownEntry → Type 0
  Holds v w none = Unit
  Holds v w (some e) = (e.before ≡ v) × (e.after ≡ w)

  if_none-Holds :
      (v : Json) (w : Option Json) (t : Bool) (o : Option UnknownEntry)
      → Holds v w o
      → Holds v w (if t then none else o)
  if_none-Holds v w true o h = tt
  if_none-Holds v w false o h = h

  if-Holds :
      (v : Json) (w : Option Json) (t : Bool) (o : Option UnknownEntry)
      → Holds v w o
      → Holds v w (if t then o else none)
  if-Holds v w true o h = h
  if-Holds v w false o h = tt

  unknown_entry-Holds : (v : Json) (g : Groups) (w : Option Json) → Holds v w (unknown_entry v g w)
  unfolding unknown_entry
  unknown_entry-Holds v g w = if_none-Holds v w (string_field v "severity" == "unavailable") _ (
      if_none-Holds v w
        (string_field v "section" == ""
          || is_empty (matching_unavailable v (group (string_field v "section") g)))
        _ (refl, refl))

  abbrev ClassesPlaced : Classes → Type 0
  ClassesPlaced c =
      All Lost c.unknowns × All Rises c.worse × All Falls c.better × All Paired c.other

  place_correlated-Placed :
      (o : Option UnknownEntry) (v w : Json) (c : Classes)
      → Holds v (some w) o
      → Correlated v w
      → ClassesPlaced c
      → ClassesPlaced (place_correlated o v w c)
  unfolding place_correlated place_by_weight
  place_correlated-Placed (some e) v w c (h, k) r (u, s, t, q) = (
    All-concat Lost c.unknowns u
        (subst (λ x. Alone b a x) (sym h) r.0, inr (w, k, subst (λ x. Correlated x w) (sym h) r)),
    s,
    t,
    q,
  )
  place_correlated-Placed none v w c h r (u, s, t, q) =
      ⊎_elim (λ (e, more). rw e (u, All-concat Rises c.worse s (r, more), t, q))
        (λ rest.
          ⊎_elim (λ (e, less). rw e (u, s, All-concat Falls c.better t (r, less), q))
            (λ (e, same). rw e (u, s, t, All-concat Paired c.other q (inr r))) rest)
        (weigh-cases v w)

  pub classify_keys-Placed :
      (g : Groups) (bc ac : Objects) (ks : List String) (c : Classes)
      → All (λ k. Correlated (value_at bc k) (value_at ac k)) ks
      → ClassesPlaced c
      → ClassesPlaced (classify_keys g bc ac ks c)
  unfolding classify_keys lost_entry
  classify_keys-Placed g bc ac [] c h p = p
  classify_keys-Placed g bc ac (k ∷ ks) c (r, h) p =
      let v = value_at bc k in
      let w = value_at ac k in
      classify_keys-Placed g bc ac ks _ h (
        place_correlated-Placed (lost_entry g v w) v w c
          (if-Holds v (some w) (turned_unavailable v w) _ (unknown_entry-Holds v g (some w))) r p)

  pub correlated_pairs-Paired :
      (bc ac : Objects) (ks : List String)
      → All (λ k. Correlated (value_at bc k) (value_at ac k)) ks
      → All Paired (correlated_pairs bc ac ks)
  unfolding correlated_pairs
  correlated_pairs-Paired bc ac [] h = tt
  correlated_pairs-Paired bc ac (k ∷ ks) (r, h) = (inr r, correlated_pairs-Paired bc ac ks h)

  pub changed_common-Paired :
      (stable : Json → Json) (ids : List String)
      → All (λ i. Paired (plain_pair (value_at b i) (value_at a i))) ids
      → All Paired (changed_common stable b a ids)
  unfolding changed_common
  changed_common-Paired stable [] h = tt
  changed_common-Paired stable (i ∷ ids) (p, h) =
      elim (Bool-cases (json_eq (stable (value_at b i)) (stable (value_at a i)))) [
        | inl same ↦ rw same (changed_common-Paired stable ids h)
        | inr other ↦ rw other (p, changed_common-Paired stable ids h)
      ]

  abbrev SplitPlaced : List UnknownEntry × List Json → Type 0
  SplitPlaced split = All Lost split.0 × All (Alone b a) split.1

  add_missing-Placed :
      (o : Option UnknownEntry) (u v : Json) (rest : List UnknownEntry × List Json)
      → Holds u none o
      → Alone b a v
      → SplitPlaced rest
      → SplitPlaced (add_missing o v rest)
  unfolding add_missing
  add_missing-Placed none u v rest h p (l, r) = (l, (p, r))
  add_missing-Placed (some e) u v rest (h, k) p (l, r) = (((p, inl k), l), r)

  pub split_missing-Placed :
      (g : Groups) (paired : List String) (ids : List String)
      → All (λ i. Alone b a (value_at b i)) ids
      → SplitPlaced (split_missing roots g paired b ids)
  unfolding split_missing
  split_missing-Placed g paired [] h = (tt, tt)
  split_missing-Placed g paired (i ∷ ids) (p, h) =
      let rest = split_missing-Placed g paired ids h in
      elim (Bool-cases (contains paired i)) [
        | inl found ↦ rw found rest
        | inr lost ↦ rw lost (
            add_missing-Placed (unknown_entry (subject roots (value_at b i)) g none)
              (subject roots (value_at b i)) (value_at b i) (split_missing roots g paired b ids)
              (unknown_entry-Holds (subject roots (value_at b i)) g none) p rest)
      ]

  pub new_values-Alone :
      (paired : List String) (ids : List String)
      → All (λ i. Alone a b (value_at a i)) ids
      → All (Alone a b) (new_values paired a ids)
  unfolding new_values
  new_values-Alone paired [] h = tt
  new_values-Alone paired (i ∷ ids) (p, h) = elim (Bool-cases (contains paired i)) [
    | inl found ↦ rw found (new_values-Alone paired ids h)
    | inr lost ↦ rw lost (p, new_values-Alone paired ids h)
  ]
