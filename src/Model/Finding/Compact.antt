-- ===== src/Model/Finding/Compact.antt =====
-- What `compactEvidence` leaves.
use k8s_diagnose.Prelude.{
  String, true, List, [], ◌∷◌, ◌≡◌, ◌≤◌, ◌≢◌, refl, arith, ◌==◌, eq_iff, contains, count_if, all,
  any, not, ◌||◌, Memᴰ, eq_refl,
}
use mathlib.Core.List.Memᴰ
use k8s_diagnose.Model.Types.{Evidence}
use k8s_diagnose.Model.Finding.{clean_evidence, evidence_key, compact_from, compact_evidence}

abbrev HasKey : String → List Evidence → Type 0
HasKey k es = any (λ e. evidence_key e == k) es ≡ true

-- A key occurs once at most, and not at all if it was seen before.
compact_from-once :
    (k : String) (seen : List String) (es : List Evidence)
    → (count_if (λ e. evidence_key e == k) (compact_from seen es) ≤ 1)
      × (contains seen k ≡ true → count_if (λ e. evidence_key e == k) (compact_from seen es) ≡ 0)
unfolding compact_from
compact_from-once k seen [] = (omega arith, λ _. refl)
compact_from-once k seen (e ∷ es) =
    let key = evidence_key (clean_evidence e) in
    ground (arith, compact_from-once k seen es, compact_from-once k (key ∷ seen) es, eq_iff key k)

compact_from-filled :
    (seen : List String) (es : List Evidence)
    → all (λ e. not (e.value == "")) (compact_from seen es) ≡ true
unfolding compact_from
compact_from-filled seen [] = refl
compact_from-filled seen (e ∷ es) =
    let key = evidence_key (clean_evidence e) in
    ground (arith, compact_from-filled seen es, compact_from-filled (key ∷ seen) es)

-- The cleaned form of each given value was seen before or is in the result, if it is not empty.
compact_from-covers :
    (e : Evidence) (seen : List String) (es : List Evidence)
    → Memᴰ e es
    → (clean_evidence e).value ≢ ""
    → (contains seen (evidence_key (clean_evidence e))
        || any (λ d. evidence_key d == evidence_key (clean_evidence e)) (compact_from seen es))
      ≡ true
unfolding compact_from
compact_from-covers e seen [] m h = absurd (Memᴰ.not-nil m)
compact_from-covers e seen (x ∷ es) (Memᴰ.head same) h =
    rw (← same) (
      ground (arith, eq_iff (clean_evidence e).value "", eq_refl (evidence_key (clean_evidence e))))
compact_from-covers e seen (x ∷ es) (Memᴰ.tail m) h =
    let key = evidence_key (clean_evidence x) in
    ground (arith, compact_from-covers e seen es m h, compact_from-covers e (key ∷ seen) es m h)

-- No two values that `compactEvidence` returns have the same kind, key and value, and none is empty.
pub compact_evidence_lem :
    (es : List Evidence)
    → ((k : String) → count_if (λ e. evidence_key e == k) (compact_evidence es) ≤ 1)
      × (all (λ e. not (e.value == "")) (compact_evidence es) ≡ true)
unfolding compact_evidence
compact_evidence_lem es = (λ k. (compact_from-once k [] es).0, compact_from-filled [] es)

-- A given value that is not blank once sanitized and trimmed is among those that `compactEvidence`
-- returns, so cleaned.
pub compact_evidence-covers :
    (es : List Evidence) (e : Evidence)
    → Memᴰ e es
    → (clean_evidence e).value ≢ ""
    → any (λ d. evidence_key d == evidence_key (clean_evidence e)) (compact_evidence es) ≡ true
unfolding compact_evidence
compact_evidence-covers es e m h = compact_from-covers e [] es m h
