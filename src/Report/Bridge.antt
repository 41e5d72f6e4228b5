-- ===== src/Report/Bridge.antt =====
-- `CompareHistory` of internal/report/report.go: samples in which a check was unavailable do not
-- make a known finding new.
pub mod Arrivals
use k8s_diagnose.Prelude.{
  ℕ, suc, String, Bool, true, false, not, Option, none, some, List, [], ◌∷◌, ◌++◌, ◌+◌, ◌⊎◌, inl,
  inr, ◌==◌, ◌&&◌, ◌||◌, if◌then◌else◌, length, ltb, lookup,
}
use mathlib.Core.List.{reverse}
use k8s_diagnose.Report.Json.{Json, json_eq, field, string_field}
use k8s_diagnose.Report.Findings.{
  evaluation_unavailable, finding_objects, root_objects, finding_correlation_key, correlation_map,
  subject,
}
use k8s_diagnose.Report.Compare.{
  Pair, Counts, Difference, Comparison, Classes, Trend, rises, falls, stays, weigh, stable_root,
  compare,
}

abbrev pub known_unless_unavailable : Option Json → Option Json
known_unless_unavailable none = none
known_unless_unavailable (some v) =
    if string_field v "severity" == "unavailable" then none else some v

-- The value that a sample knows: a correlated one, which for findings is not an unavailable check.
unfoldable pub known_in : Bool → String → Json → Option Json
unfolding correlation_map lookup string_field
known_in roots key document =
    if roots
    then lookup key (correlation_map (root_objects document) true)
    else known_unless_unavailable (lookup key (correlation_map (finding_objects document) false))

-- Known before `unknown` samples without it, if there were any.
unfoldable pub when_bridged : ℕ → Json → Json → Option (Json × ℕ × Json)
unfolding field
when_bridged unknown document value =
    if ltb 0 unknown then some (value, unknown, field "generated_at" document) else none

-- The loop over the samples, the newest first.
unfoldable pub last_known_from : Bool → String → Json → List Json → ℕ → Option (Json × ℕ × Json)
unfolding known_in when_bridged evaluation_unavailable
last_known_from roots key cause [] unknown = none
last_known_from roots key cause (d ∷ ds) unknown =
    let further = last_known_from roots key cause ds (suc unknown) in
    elim (known_in roots key d) [
      | some v ↦ when_bridged unknown d v
      | none ↦ if evaluation_unavailable d cause then further else none
    ]

-- `lastKnownFinding` and `lastKnownRoot`
unfoldable pub last_known : Bool → List Json → Json → Option (Json × ℕ × Json)
unfolding subject finding_correlation_key last_known_from string_field
last_known roots previous current =
    let cause = subject roots current in
    if finding_correlation_key cause == "" || string_field cause "section" == ""
    then none
    else last_known_from roots (finding_correlation_key cause) cause (reverse previous) 0

unfoldable pub bridged_pair : Json → Json × ℕ × Json → Pair
bridged_pair after (before, unknown, generated_at) = record {
  before = before;
  after = after;
  bridged = some (unknown, generated_at);
}

pub data Verdict : Type 0 where
  is_worse is_better is_same is_changed : Verdict

-- By the severities, and by the IDs where they weigh the same.
abbrev verdict_by : Trend → Bool → Verdict
verdict_by rises same = is_worse
verdict_by falls same = is_better
verdict_by stays true = is_same
verdict_by stays false = is_changed

-- The switch for findings, and the test for root causes.
unfoldable pub verdict : Bool → Pair → Verdict
unfolding weigh string_field json_eq stable_root
verdict roots p =
    if roots
    then verdict_by stays (json_eq (stable_root p.before) (stable_root p.after))
    else verdict_by (weigh p.before p.after)
        (string_field p.before "id" == string_field p.after "id")

unfoldable pub place_pair : Verdict → Pair → Difference → Difference
place_pair is_worse p d = record d { worsened = d.worsened ++ p ∷ [] }
place_pair is_better p d = record d { improved = d.improved ++ p ∷ [] }
place_pair is_same p d = record d { reconfirmed = d.reconfirmed ++ p ∷ [] }
place_pair is_changed p d = record d { changed = d.changed ++ p ∷ [] }

-- Where a new value was known before: never for an unavailable check.
unfoldable pub bridge_for : Bool → List Json → Json → Option (Json × ℕ × Json)
unfolding last_known string_field
bridge_for roots previous after =
    if not roots && (string_field after "severity" == "unavailable")
    then none
    else last_known roots previous after

unfoldable pub settle : Bool → Json → Option (Json × ℕ × Json) → Difference → Difference
unfolding bridged_pair verdict place_pair
settle roots after none d = record d { new = d.new ++ after ∷ [] }
settle roots after (some k) d =
    place_pair (verdict roots (bridged_pair after k)) (bridged_pair after k) d

-- The loop over the new values, with `remaining` in `new`.
unfoldable pub settle_all : Bool → List Json → List Json → Difference → Difference
unfolding bridge_for settle
settle_all roots previous [] d = d
settle_all roots previous (v ∷ vs) d =
    settle_all roots previous vs (settle roots v (bridge_for roots previous v) d)

-- The counts of the lists that have changed.
unfoldable pub recount : Difference → Difference
recount d = record d {
  counts = record d.counts {
    new_count = length d.new;
    worsened_count = length d.worsened;
    improved_count = length d.improved;
    changed_count = length d.changed;
    reconfirmed_count = length d.reconfirmed;
  };
}

unfoldable pub bridge : Bool → List Json → Difference → Difference
unfolding settle_all recount
bridge roots previous d = recount (settle_all roots previous d.new (record d { new = [] }))

-- With the samples newest first: `previous[len(previous)-1]` is the first of them.
unfoldable pub compare_with : List Json → List Json → Json → String ⊎ Comparison
unfolding compare bridge
compare_with [] previous current = inl "履歴差分には1件以上の比較基準が必要です"
compare_with (newest ∷ older) previous current =
    let c = compare newest current in
    inr (record c {
      findings = bridge false previous c.findings;
      root_causes = bridge true previous c.root_causes;
    })

-- `previous` holds the samples, the oldest first; the left side is the error.
unfoldable pub compare_history : List Json → Json → String ⊎ Comparison
unfolding compare_with
compare_history previous current = compare_with (reverse previous) previous current
