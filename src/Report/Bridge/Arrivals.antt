-- ===== src/Report/Bridge/Arrivals.antt =====
-- Bridging moves new findings and loses none.
use k8s_diagnose.Prelude.{
  ℕ, suc, String, Bool, true, false, Option, none, some, List, [], ◌∷◌, ◌+◌, ◌≡◌, ◌≤◌,
  if◌then◌else◌, All-concat, ◌==◌, ◌&&◌, ◌||◌, not, inl, inr, arith, refl, length, length-append,
  All, ltb, Bool-cases, ◌++◌, ◌∙◌, sym, subst,
}
use mathlib.Core.List.{reverse, append_assoc}
use k8s_diagnose.Report.Json.{Json, field, string_field}
use k8s_diagnose.Report.Findings.{evaluation_unavailable, subject, finding_correlation_key}
use k8s_diagnose.Report.Compare.{
  Pair, Difference, Comparison, compare, compare_findings, compare_root_causes,
}
use k8s_diagnose.Report.Bridge.{
  bridge_for, known_in, settle, settle_all, recount, bridge, compare_history, compare_with, Verdict,
  is_worse, is_better, is_same, is_changed, verdict, place_pair, bridged_pair, when_bridged,
  last_known_from, last_known,
}

-- The values that are new, or known from before a gap.
abbrev pub arrivals : Difference → ℕ
arrivals d =
    length d.new + length d.reconfirmed + length d.worsened + length d.improved + length d.changed

place_pair-arrivals :
    (v : Verdict) (p : Pair) (d : Difference) → arrivals (place_pair v p d) ≡ arrivals d + 1
unfolding place_pair
place_pair-arrivals is_worse p d = omega (arith, length-append d.worsened (p ∷ []))
place_pair-arrivals is_better p d = omega (arith, length-append d.improved (p ∷ []))
place_pair-arrivals is_same p d = omega (arith, length-append d.reconfirmed (p ∷ []))
place_pair-arrivals is_changed p d = omega (arith, length-append d.changed (p ∷ []))

settle-arrivals :
    (roots : Bool) (v : Json) (k : Option (Json × ℕ × Json)) (d : Difference)
    → arrivals (settle roots v k d) ≡ arrivals d + 1
unfolding settle
settle-arrivals roots v none d = omega (arith, length-append d.new (v ∷ []))
settle-arrivals roots v (some k) d =
    place_pair-arrivals (verdict roots (bridged_pair v k)) (bridged_pair v k) d

settle_all-arrivals :
    (roots : Bool) (previous vs : List Json) (d : Difference)
    → arrivals (settle_all roots previous vs d) ≡ arrivals d + length vs
unfolding settle_all
settle_all-arrivals roots previous [] d = omega arith
settle_all-arrivals roots previous (v ∷ vs) d = omega (
  arith,
  settle-arrivals roots v (bridge_for roots previous v) d,
  settle_all-arrivals roots previous vs (settle roots v (bridge_for roots previous v) d),
)

bridge-arrivals :
    (roots : Bool) (previous : List Json) (d : Difference)
    → arrivals (bridge roots previous d) ≡ arrivals d
unfolding bridge recount
bridge-arrivals roots previous d =
    omega (arith, settle_all-arrivals roots previous d.new (record d { new = [] }))

-- After as many samples that could not be evaluated and do not know the value, the newest first, one
-- knows it; and `n` of them are more than none.
abbrev pub KnownAfter : Bool → Json → List Json → ℕ → Json → Json → Type 0
KnownAfter roots current samples n value generated_at =
    (gap : List Json) × (known : Json) × (older : List Json) × (samples ≡ gap ++ known ∷ older)
    × (n ≡ length gap)
    × (1 ≤ n)
    × All
        (λ d.
          (known_in roots (finding_correlation_key (subject roots current)) d ≡ none)
          × (evaluation_unavailable d (subject roots current) ≡ true))
        gap
    × (known_in roots (finding_correlation_key (subject roots current)) known ≡ some value)
    × (generated_at ≡ field "generated_at" known)

-- What stands for a pair that was known before a gap.
abbrev pub IsBridged : Bool → List Json → Pair → Type 0
IsBridged roots samples p =
    (n : ℕ) × (g : Json) × (p.bridged ≡ some (n, g)) × KnownAfter roots p.after samples n p.before g

abbrev Bridges : Bool → Json → List Json → Option (Json × ℕ × Json) → Type 0
Bridges roots current samples none = Unit
Bridges roots current samples (some (v, n, g)) = KnownAfter roots current samples n v g

if_none-Bridges :
    (roots : Bool) (current : Json) (samples : List Json) (b : Bool) (o : Option (Json × ℕ × Json))
    → Bridges roots current samples o
    → Bridges roots current samples (if b then none else o)
if_none-Bridges roots current samples true o h = tt
if_none-Bridges roots current samples false o h = h

module _ (roots : Bool) (current : Json) (samples : List Json) where
  abbrev cause : Json
  cause = subject roots current

  abbrev key : String
  key = finding_correlation_key (subject roots current)

  abbrev Unknown : List Json → Type 0
  Unknown gap =
      All (λ d. (known_in roots key d ≡ none) × (evaluation_unavailable d cause ≡ true)) gap

  when_bridged-Bridges :
      (gap : List Json) (d v : Json) (ds : List Json)
      → samples ≡ gap ++ d ∷ ds
      → Unknown gap
      → known_in roots key d ≡ some v
      → Bridges roots current samples (when_bridged (length gap) d v)
  unfolding when_bridged
  when_bridged-Bridges gap d v ds e h k = elim (Bool-cases (ltb 0 (length gap))) [
    | inl more ↦ rw more (gap, d, ds, e, refl, ground arith, h, k, refl)
    | inr zero_left ↦ rw zero_left tt
  ]

  last_known_from-Bridges :
      (gap ds : List Json)
      → samples ≡ gap ++ ds
      → Unknown gap
      → Bridges roots current samples (last_known_from roots key cause ds (length gap))
  unfolding last_known_from
  last_known_from-Bridges gap [] e h = tt
  last_known_from-Bridges gap (d ∷ ds) e h =
      elim (known_in roots key d)
          as (λ o.
            known_in roots key d ≡ o
            → Bridges roots current samples (elim o [
              | some v ↦ when_bridged (length gap) d v
              | none ↦
                  if evaluation_unavailable d cause
                  then last_known_from roots key cause ds (suc (length gap))
                  else none
            ])) [
              | some v ↦ λ k. when_bridged-Bridges gap d v ds e h k
              | none ↦ λ k. elim (Bool-cases (evaluation_unavailable d cause)) [
                | inr seen ↦ rw seen tt
                | inl blind ↦ rw blind (
                    subst
                      (λ n. Bridges roots current samples (last_known_from roots key cause ds n))
                      (omega (arith, length-append gap (d ∷ [])))
                      (last_known_from-Bridges (gap ++ d ∷ []) ds
                        (e ∙ sym (append_assoc gap (d ∷ []) ds)) (All-concat _ gap h (k, blind))))
              ]
            ]
        refl

bridge_for-Bridges :
    (roots : Bool) (previous : List Json) (v : Json)
    → Bridges roots v (reverse previous) (bridge_for roots previous v)
unfolding bridge_for last_known
bridge_for-Bridges roots previous v =
    if_none-Bridges roots v (reverse previous)
      (not roots && string_field v "severity" == "unavailable") _
      (if_none-Bridges roots v (reverse previous)
        (finding_correlation_key (subject roots v) == ""
          || string_field (subject roots v) "section" == "")
        _ (last_known_from-Bridges roots v (reverse previous) [] (reverse previous) refl tt))

module _ (roots : Bool) (previous : List Json) where
  abbrev AllBridged : Difference → Type 0
  AllBridged d = All (IsBridged roots (reverse previous)) d.reconfirmed

  place_pair-AllBridged :
      (v : Verdict) (p : Pair) (d : Difference)
      → IsBridged roots (reverse previous) p
      → AllBridged d
      → AllBridged (place_pair v p d)
  unfolding place_pair
  place_pair-AllBridged is_worse p d h a = a
  place_pair-AllBridged is_better p d h a = a
  place_pair-AllBridged is_same p d h a = All-concat _ d.reconfirmed a h
  place_pair-AllBridged is_changed p d h a = a

  settle-AllBridged :
      (v : Json) (k : Option (Json × ℕ × Json)) (d : Difference)
      → Bridges roots v (reverse previous) k
      → AllBridged d
      → AllBridged (settle roots v k d)
  unfolding settle bridged_pair
  settle-AllBridged v none d h a = a
  settle-AllBridged v (some (b, n, g)) d h a =
      place_pair-AllBridged (verdict roots (bridged_pair v (b, n, g))) _ d (n, g, refl, h) a

  settle_all-AllBridged :
      (vs : List Json) (d : Difference) → AllBridged d → AllBridged (settle_all roots previous vs d)
  unfolding settle_all
  settle_all-AllBridged [] d a = a
  settle_all-AllBridged (v ∷ vs) d a =
      settle_all-AllBridged vs _ (
        settle-AllBridged v (bridge_for roots previous v) d (bridge_for-Bridges roots previous v) a)

compare_with-bridges :
    (newest : Json) (older previous : List Json) (current : Json)
    → (c : Comparison) × (compare_with (newest ∷ older) previous current ≡ inr c)
      × (arrivals c.findings ≡ arrivals (compare newest current).findings)
      × (arrivals c.root_causes ≡ arrivals (compare newest current).root_causes)
      × All (IsBridged false (reverse previous)) c.findings.reconfirmed
      × All (IsBridged true (reverse previous)) c.root_causes.reconfirmed
unfolding compare_with compare bridge recount compare_findings
compare_with-bridges newest older previous current = (
  _,
  refl,
  bridge-arrivals false previous (compare_findings newest current),
  bridge-arrivals true previous (compare_root_causes newest current),
  settle_all-AllBridged false previous (compare_findings newest current).new _ tt,
  settle_all-AllBridged true previous (compare_root_causes newest current).new _ tt,
)

-- With a newest sample, `CompareHistory` gives a result. It counts as many findings that are new,
-- reconfirmed, worse, better or changed as `Compare` with the newest sample does, and as many root
-- causes. Each finding and each root cause that it reconfirms was known, as the earlier value of its
-- pair, to one sample, and all the later ones, as many as the pair says and one at least, do not know
-- it and could not evaluate it.
pub compare_history-bridges :
    (previous : List Json) (current newest : Json) (older : List Json)
    → reverse previous ≡ newest ∷ older
    → (c : Comparison) × (compare_history previous current ≡ inr c)
      × (arrivals c.findings ≡ arrivals (compare newest current).findings)
      × (arrivals c.root_causes ≡ arrivals (compare newest current).root_causes)
      × All (IsBridged false (reverse previous)) c.findings.reconfirmed
      × All (IsBridged true (reverse previous)) c.root_causes.reconfirmed
unfolding compare_history
compare_history-bridges previous current newest older e =
    subst
      (λ samples.
        (c : Comparison) × (compare_with samples previous current ≡ inr c)
        × (arrivals c.findings ≡ arrivals (compare newest current).findings)
        × (arrivals c.root_causes ≡ arrivals (compare newest current).root_causes)
        × All (IsBridged false (reverse previous)) c.findings.reconfirmed
        × All (IsBridged true (reverse previous)) c.root_causes.reconfirmed)
      (sym e) (compare_with-bridges newest older previous current)
