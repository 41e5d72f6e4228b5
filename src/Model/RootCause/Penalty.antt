-- ===== src/Model/RootCause/Penalty.antt =====
-- What `NewRootCause` makes of a cause and its impacts.
use k8s_diagnose.Prelude.{
  String, Bool, true, false, List, [], ◌∷◌, ◌++◌, ◌≡◌, ◌≤◌, ◌≢◌, ℤ, pos, negsuc, int_leb, arith,
  ◌⊎◌, ◌↔◌, refl, ◌==◌, eq_iff, contains, count_if, trim_space,
}
use k8s_diagnose.Model.Types.{issue, Evidence, Finding, Impact, RootCause}
use k8s_diagnose.Model.Finding.Confidence.{IsPercent}
use k8s_diagnose.Model.RootCause.{
  unique_from, clamp_confidence, is_confirmed, classify, root_penalty, new_root_cause,
}

clamp_confidence-IsPercent : (c : ℤ) → IsPercent (clamp_confidence c)
unfolding clamp_confidence
clamp_confidence-IsPercent (pos n) = ground arith
clamp_confidence-IsPercent (negsuc n) = ground arith

is_confirmed_iff :
    (cause : Finding) (c : ℤ)
    → (is_confirmed cause c ≡ true) ↔ ((cause.severity ≡ issue) × (int_leb (pos 90) c ≡ true))
unfolding is_confirmed
is_confirmed_iff cause c = ground arith

root_penalty-bounds :
    (cause : Finding) (impacts : List Impact)
    → ((cause.severity ≡ issue)
        × (8 ≤ root_penalty cause impacts)
        × (root_penalty cause impacts ≤ 14))
      ⊎ ((cause.severity ≢ issue) × (root_penalty cause impacts ≡ 0))
unfolding root_penalty
root_penalty-bounds cause impacts = ground arith

-- A value occurs once at most, and not at all if it was seen before.
unique_from-once :
    (k : String) (seen values : List String)
    → (count_if (λ j. j == k) (unique_from seen values) ≤ 1)
      × (contains seen k ≡ true → count_if (λ j. j == k) (unique_from seen values) ≡ 0)
unfolding unique_from
unique_from-once k seen [] = (omega arith, λ _. refl)
unique_from-once k seen (s ∷ ss) =
    let value = trim_space s in
    ground (arith, unique_from-once k seen ss, unique_from-once k (value ∷ seen) ss, eq_iff value k)

-- The classes of a root cause: confirmed, then by a confidence of 60 or more.
abbrev pub Classified : Bool → ℤ → String → Type 0
Classified confirmed c name =
    ((confirmed ≡ true) × (name ≡ "root_cause"))
    ⊎ ((confirmed ≡ false) × (int_leb (pos 60) c ≡ true) × (name ≡ "cause_candidate"))
    ⊎ ((confirmed ≡ false) × (int_leb (pos 60) c ≡ false) × (name ≡ "related_candidate"))

classify-Classified : (confirmed : Bool) (c : ℤ) → Classified confirmed c (classify confirmed c).0
unfolding classify
classify-Classified confirmed c = ground arith

module _ (digest : String → String) (cause : Finding) (c : ℤ) (evidence : List Evidence)
    (direct propagated : List Impact) (remediation commands related : List String) where
  abbrev built : RootCause
  built = new_root_cause digest cause c evidence direct propagated remediation commands related

  -- A root cause of `NewRootCause` has a confidence from 0 to 100; it is confirmed exactly when its
  -- cause is an issue and the confidence is 90 or more; it is classified by that and by a
  -- confidence of 60; its penalty is 8 to 14 if the cause is an issue and 0 if not; and no finding
  -- is listed twice as related.
  pub new_root_cause_lem :
      IsPercent built.confidence
      × ((built.confirmed ≡ true)
          ↔ ((cause.severity ≡ issue) × (int_leb (pos 90) built.confidence ≡ true)))
      × Classified built.confirmed built.confidence built.classification
      × (((cause.severity ≡ issue) × (8 ≤ built.health_penalty) × (built.health_penalty ≤ 14))
          ⊎ ((cause.severity ≢ issue) × (built.health_penalty ≡ 0)))
      × ((id : String) → count_if (λ j. j == id) built.related_finding_ids ≤ 1)
  unfolding new_root_cause
  new_root_cause_lem = (
    clamp_confidence-IsPercent c,
    is_confirmed_iff cause (clamp_confidence c),
    classify-Classified (is_confirmed cause (clamp_confidence c)) (clamp_confidence c),
    root_penalty-bounds cause (direct ++ propagated),
    λ id. (unique_from-once id [] (cause.id ∷ related)).0,
  )
