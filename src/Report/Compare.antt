-- ===== src/Report/Compare.antt =====
-- `Compare` and `CompareHistory` of internal/report/report.go: what changed between two diagnoses.
pub mod Maps
pub mod Paired
pub mod Placed
pub mod Alone
pub mod Sizes
pub mod Picked
pub mod Conserved
pub mod Same
use k8s_diagnose.Prelude.{
  ℕ, suc, String, Bool, true, false, not, Option, none, some, List, [], ◌∷◌, ◌++◌, ◌+◌, ◌-◌, ◌⊎◌,
  inl, inr, ◌==◌, ◌&&◌, ◌||◌, if◌then◌else◌, is_empty, keep, map, length, ltb, contains, lookup,
}
use mathlib.Core.List.{reverse}
use k8s_diagnose.Report.Json.{
  Json, Items, Fields, null, array, object, no_items, item, no_fields, entry, json_eq, field,
  objects, string_field,
}
use k8s_diagnose.Report.Findings.{
  Objects, Groups, group, unavailable_sections, matching_unavailable, evaluation_unavailable,
  finding_objects, root_objects, finding_map, root_map, value_at, set_parts, values_for_ids,
  subject, correlation_map, common_keys,
}

unfoldable pub fields_at : List String → Json → Fields
unfolding field
fields_at [] v = no_fields
fields_at (k ∷ ks) v = entry k (field k v) (fields_at ks v)

abbrev pub stable_fields : List String
stable_fields =
    "id" ∷ "code" ∷ "severity" ∷ "section" ∷ "resource" ∷ "reason" ∷ "stable_key" ∷ "confidence"
    ∷ "acknowledged" ∷ "acknowledgement" ∷ []

unfoldable pub stable_finding : Json → Json
unfolding fields_at
stable_finding v = object (fields_at stable_fields v)

unfoldable pub stable_items : List Json → Items
unfolding fields_at
stable_items [] = no_items
stable_items (i ∷ is) =
    item
      (object (
        fields_at
          ("resource" ∷ "kind" ∷ "relation" ∷ "depth" ∷ "finding_ids" ∷ "path" ∷ "path_relations"
            ∷ [])
          i))
      (stable_items is)

-- The order of the keys does not matter, since only two such values are compared.
unfoldable pub stable_root : Json → Json
unfolding stable_finding stable_items objects field
stable_root v = object (
    entry "cause" (stable_finding (field "cause" v)) (
      entry "direct_impacts" (array (stable_items (objects (field "direct_impacts" v)))) (
        entry "propagated_impacts" (array (stable_items (objects (field "propagated_impacts" v)))) (
          fields_at
            ("id" ∷ "confirmed" ∷ "classification" ∷ "label" ∷ "confidence" ∷ "impact_summary"
              ∷ "remediations" ∷ "commands" ∷ "related_finding_ids" ∷ "health_penalty" ∷ [])
            v))))

unfoldable pub severity_weight : String → ℕ
severity_weight s =
    if s == "issue"
    then 4
    else if s == "warning"
    then 3
    else if s == "unavailable"
    then 2
    else if s == "candidate"
    then 1
    else 0

-- `bridged` holds `unknown_samples` and `last_known_generated_at`, which only `CompareHistory` sets.
pub record Pair : Type 0 where
  pub before : Json
  pub after : Json
  pub bridged : Option (ℕ × Json)

abbrev pub plain_pair : Json → Json → Pair
plain_pair before after = record { before = before; after = after; bridged = none }

pub record UnknownEntry : Type 0 where
  pub before : Json
  pub section : String
  pub unavailable : List Json
  pub after : Option Json

unfoldable pub unknown_entry : Json → Groups → Option Json → Option UnknownEntry
unfolding matching_unavailable group string_field
unknown_entry before unavailable after =
    let section = string_field before "section" in
    let blockers = matching_unavailable before (group section unavailable) in
    if string_field before "severity" == "unavailable"
    then none
    else if section == "" || is_empty blockers
    then none
    else some (record { before = before; section = section; unavailable = blockers; after = after })

pub record Counts : Type 0 where
  pub new_count : ℕ
  pub resolved_count : ℕ
  pub unknown_count : ℕ
  pub reconfirmed_count : ℕ
  pub worsened_count : ℕ
  pub improved_count : ℕ
  pub changed_count : ℕ
  pub unchanged_count : ℕ

-- The difference of the root causes has no worsened and no improved ones.
pub record Difference : Type 0 where
  pub counts : Counts
  pub new : List Json
  pub resolved : List Json
  pub unknown : List UnknownEntry
  pub reconfirmed : List Pair
  pub worsened : List Pair
  pub improved : List Pair
  pub changed : List Pair
  pub unchanged : ℕ

pub record Comparison : Type 0 where
  pub baseline_generated_at : Json
  pub findings : Difference
  pub root_causes : Difference

-- The lists that the loop over the correlated findings extends.
pub record Classes : Type 0 where
  pub unknowns : List UnknownEntry
  pub worse : List Pair
  pub better : List Pair
  pub other : List Pair

pub data Trend : Type 0 where
  rises falls stays : Trend

-- The switch on the weights of the severities.
unfoldable pub weigh : Json → Json → Trend
unfolding severity_weight string_field
weigh before after =
    let b = severity_weight (string_field before "severity") in
    let a = severity_weight (string_field after "severity") in
    if ltb b a then rises else if ltb a b then falls else stays

unfoldable pub place_by_weight : Trend → Pair → Classes → Classes
place_by_weight rises p c = record c { worse = c.worse ++ p ∷ [] }
place_by_weight falls p c = record c { better = c.better ++ p ∷ [] }
place_by_weight stays p c = record c { other = c.other ++ p ∷ [] }

-- `previous` has become unavailable: it was not, and the new one is.
unfoldable pub turned_unavailable : Json → Json → Bool
unfolding string_field
turned_unavailable previous current =
    not (string_field previous "severity" == "unavailable")
    && (string_field current "severity" == "unavailable")

unfoldable pub lost_entry : Groups → Json → Json → Option UnknownEntry
unfolding turned_unavailable unknown_entry
lost_entry unavailable previous current =
    if turned_unavailable previous current
    then unknown_entry previous unavailable (some current)
    else none

unfoldable pub place_correlated : Option UnknownEntry → Json → Json → Classes → Classes
unfolding place_by_weight weigh
place_correlated (some e) previous current c = record c { unknowns = c.unknowns ++ e ∷ [] }
place_correlated none previous current c =
    place_by_weight (weigh previous current) (plain_pair previous current) c

unfoldable pub classify_keys : Groups → Objects → Objects → List String → Classes → Classes
unfolding value_at lost_entry place_correlated
classify_keys unavailable before after [] c = c
classify_keys unavailable before after (k ∷ ks) c =
    let previous = value_at before k in
    let current = value_at after k in
    classify_keys unavailable before after ks
      (place_correlated (lost_entry unavailable previous current) previous current c)

-- The common IDs whose stable parts differ, as pairs.
unfoldable pub changed_common : (Json → Json) → Objects → Objects → List String → List Pair
unfolding value_at json_eq
changed_common stable before after [] = []
changed_common stable before after (id ∷ ids) =
    let rest = changed_common stable before after ids in
    if json_eq (stable (value_at before id)) (stable (value_at after id))
    then rest
    else plain_pair (value_at before id) (value_at after id) ∷ rest

-- The set of the IDs of the correlated values.
unfoldable pub ids_at : Objects → List String → List String
unfolding value_at string_field
ids_at m [] = []
ids_at m (k ∷ ks) = string_field (value_at m k) "id" ∷ ids_at m ks

-- The value of an ID that is not paired, before the results for the IDs after it.
unfoldable pub add_missing :
    Option UnknownEntry → Json → List UnknownEntry × List Json → List UnknownEntry × List Json
add_missing (some e) value (unknown, resolved) = (record e { before = value } ∷ unknown, resolved)
add_missing none value (unknown, resolved) = (unknown, value ∷ resolved)

-- The loop over the IDs of the earlier report alone: the unknown and the resolved ones.
unfoldable pub split_missing :
    Bool → Groups → List String → Objects → List String → List UnknownEntry × List Json
unfolding value_at unknown_entry add_missing subject
split_missing roots unavailable paired before [] = ([], [])
split_missing roots unavailable paired before (id ∷ ids) =
    let rest = split_missing roots unavailable paired before ids in
    let value = value_at before id in
    if contains paired id
    then rest
    else add_missing (unknown_entry (subject roots value) unavailable none) value rest

-- The loop over the IDs of the later report alone.
unfoldable pub new_values : List String → Objects → List String → List Json
unfolding value_at
new_values paired after [] = []
new_values paired after (id ∷ ids) =
    let rest = new_values paired after ids in
    if contains paired id then rest else value_at after id ∷ rest

abbrev pub difference_of :
    ℕ → List Pair → Classes → List UnknownEntry × List Json → List Json → Difference
difference_of common changed c missing new = record {
  counts = record {
    new_count = length new;
    resolved_count = length missing.1;
    unknown_count = length (c.unknowns ++ missing.0);
    reconfirmed_count = 0;
    worsened_count = length c.worse;
    improved_count = length c.better;
    changed_count = length (changed ++ c.other);
    unchanged_count = common - length changed;
  };
  new = new;
  resolved = missing.1;
  unknown = c.unknowns ++ missing.0;
  reconfirmed = [];
  worsened = c.worse;
  improved = c.better;
  changed = changed ++ c.other;
  unchanged = common - length changed;
}

abbrev pub no_classes : Classes
no_classes = record { unknowns = []; worse = []; better = []; other = [] }

-- `Compare` from the maps and their parts on: the report's own part of it.
unfoldable pub findings_by_parts :
    Json → Objects → Objects → List String × List String × List String → Difference
unfolding unavailable_sections correlation_map values_for_ids common_keys classify_keys
    changed_common split_missing new_values ids_at
findings_by_parts after b a (common, before_only, after_only) =
    let unavailable = unavailable_sections after in
    let bc = correlation_map (values_for_ids b before_only) false in
    let ac = correlation_map (values_for_ids a after_only) false in
    let ks = common_keys bc ac in
    difference_of (length common) (changed_common stable_finding b a common)
      (classify_keys unavailable bc ac ks no_classes)
      (split_missing false unavailable (ids_at bc ks) b before_only)
      (new_values (ids_at ac ks) a after_only)

unfoldable pub compare_findings : Json → Json → Difference
unfolding finding_map set_parts findings_by_parts
compare_findings before after =
    findings_by_parts after (finding_map before) (finding_map after)
      (set_parts (finding_map before) (finding_map after))

-- Root causes that correlate have changed, whatever their severity.
unfoldable pub correlated_pairs : Objects → Objects → List String → List Pair
unfolding value_at
correlated_pairs before after [] = []
correlated_pairs before after (k ∷ ks) =
    plain_pair (value_at before k) (value_at after k) ∷ correlated_pairs before after ks

unfoldable pub roots_by_parts :
    Json → Objects → Objects → List String × List String × List String → Difference
unfolding unavailable_sections correlation_map values_for_ids common_keys correlated_pairs
    changed_common split_missing new_values ids_at
roots_by_parts after b a (common, before_only, after_only) =
    let bc = correlation_map (values_for_ids b before_only) true in
    let ac = correlation_map (values_for_ids a after_only) true in
    let ks = common_keys bc ac in
    difference_of (length common) (changed_common stable_root b a common)
      (record no_classes { other = correlated_pairs bc ac ks })
      (split_missing true (unavailable_sections after) (ids_at bc ks) b before_only)
      (new_values (ids_at ac ks) a after_only)

unfoldable pub compare_root_causes : Json → Json → Difference
unfolding root_map set_parts roots_by_parts
compare_root_causes before after =
    roots_by_parts after (root_map before) (root_map after)
      (set_parts (root_map before) (root_map after))

unfoldable pub compare : Json → Json → Comparison
unfolding field compare_findings compare_root_causes
compare before after = record {
  baseline_generated_at = field "generated_at" before;
  findings = compare_findings before after;
  root_causes = compare_root_causes before after;
}
