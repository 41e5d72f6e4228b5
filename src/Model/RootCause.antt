-- ===== src/Model/RootCause.antt =====
-- Root causes: `NewRootCause` and `uniqueStrings`.
pub mod Penalty
use k8s_diagnose.Prelude.{
  ℕ, String, Bool, true, false, List, [], ◌∷◌, ◌++◌, ◌+◌, ◌/◌, min, ℤ, pos, int_ltb, int_leb,
  if◌then◌else◌, ◌==◌, ◌&&◌, ◌||◌, contains, trim_space, join, length, map,
}
use k8s_diagnose.Model.Types.{
  Severity, issue, severity_eq, separator, Evidence, Finding, Impact, RootCause,
}
use k8s_diagnose.Model.Finding.{compact_evidence}

-- The loop of `uniqueStrings`; `seen` holds the values that were passed on.
unfoldable pub unique_from : List String → List String → List String
unique_from seen [] = []
unique_from seen (s ∷ ss) =
    let value = trim_space s in
    let skipped = unique_from seen ss in
    let added = value ∷ unique_from (value ∷ seen) ss in
    if value == "" || contains seen value then skipped else added

unfoldable pub unique_strings : List String → List String
unfolding unique_from trim_space
unique_strings values = unique_from [] values

-- `counts[kind]++`
unfoldable pub increment : String → List (String × ℕ) → List (String × ℕ)
increment k [] = (k, 1) ∷ []
increment k ((j, n) ∷ m) = if j == k then (j, n + 1) ∷ m else (j, n) ∷ increment k m

unfoldable pub count_kinds : List (String × ℕ) → List Impact → List (String × ℕ)
unfolding increment
count_kinds counts [] = counts
count_kinds counts (i ∷ is) = count_kinds (increment i.kind counts) is

-- `unique[impact.Resource] = struct{}{}`
unfoldable pub impacted : List String → List Impact → List String
impacted unique [] = unique
impacted unique (i ∷ is) =
    impacted (if contains unique i.resource then unique else i.resource ∷ unique) is

unfoldable pub clamp_confidence : ℤ → ℤ
clamp_confidence c =
    let low = (if int_ltb c (pos 0) then pos 0 else c) in
    if int_ltb (pos 100) low then pos 100 else low

unfoldable pub is_confirmed : Finding → ℤ → Bool
is_confirmed cause confidence = severity_eq cause.severity issue && int_leb (pos 90) confidence

-- The classification and its label.
unfoldable pub classify : Bool → ℤ → String × String
classify confirmed confidence =
    if confirmed
    then ("root_cause", "根本原因")
    else if int_leb (pos 60) confidence
    then ("cause_candidate", "原因候補")
    else ("related_candidate", "関連候補（要確認）")

unfoldable pub root_penalty : Finding → List Impact → ℕ
unfolding impacted
root_penalty cause impacts =
    if severity_eq cause.severity issue
    then 8 + min 6 ((length (impacted [] impacts) + 1) / 2)
    else 0

module _ (digest : String → String) where
  unfoldable pub root_id : Finding → String
  unfolding join
  root_id cause =
      digest (join separator ("root-cause" ∷ cause.code ∷ cause.resource ∷ cause.stable_key ∷ []))

  unfoldable pub new_root_cause :
      Finding
      → ℤ
      → List Evidence
      → (direct propagated : List Impact) → (remediation commands related : List String) → RootCause
  unfolding clamp_confidence is_confirmed classify count_kinds unique_strings root_penalty root_id
  new_root_cause cause confidence evidence direct propagated remediation commands related =
      let level = clamp_confidence confidence in
      let confirmed = is_confirmed cause level in
      record {
        id = root_id cause;
        confirmed = confirmed;
        classification = (classify confirmed level).0;
        label = (classify confirmed level).1;
        confidence = level;
        cause = cause;
        evidence = compact_evidence evidence;
        direct_impacts = direct;
        propagated_impacts = propagated;
        impact_summary = count_kinds [] (direct ++ propagated);
        remediations = unique_strings remediation;
        commands = unique_strings commands;
        related_finding_ids = unique_strings (cause.id ∷ related);
        health_penalty = root_penalty cause (direct ++ propagated);
      }
