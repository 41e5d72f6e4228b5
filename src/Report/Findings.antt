-- ===== src/Report/Findings.antt =====
-- Findings in reports: the sections that could not be evaluated, of internal/jsonutil/jsonutil.go,
-- and the maps of findings, of internal/report/report.go.
use k8s_diagnose.Prelude.{
  String, Bool, not, Option, none, some, List, [], ◌∷◌, ◌++◌, ◌==◌, ◌&&◌, ◌||◌, if◌then◌else◌,
  concat, is_empty, is_some, keep, map, lookup, put, strip_prefix,
}
use k8s_diagnose.Prelude.Sort.{sort_strings}
use k8s_diagnose.Model.Types.{separator}
use k8s_diagnose.Report.Json.{Json, null, field, objects, string_field}

abbrev pub Objects : Type 0
Objects = List (String × Json)

abbrev pub Groups : Type 0
Groups = List (String × List Json)

abbrev pub or_empty : Option (List Json) → List Json
or_empty none = []
or_empty (some values) = values

-- `groups[key]`, nil where it is missing
unfoldable pub group : String → Groups → List Json
unfolding lookup
group key groups = or_empty (lookup key groups)

-- `groups[key] = append(groups[key], value)`
unfoldable pub append_group : String → Json → Groups → Groups
unfolding group put
append_group key value groups = put key (group key groups ++ value ∷ []) groups

unfoldable pub unavailable_from : List Json → Groups → Groups
unfolding append_group string_field
unavailable_from [] groups = groups
unavailable_from (f ∷ fs) groups = unavailable_from fs (
    if string_field f "severity" == "unavailable"
    then append_group (string_field f "section") f groups
    else groups)

unfoldable pub unavailable_sections : Json → Groups
unfolding unavailable_from
unavailable_sections document = unavailable_from (objects (field "findings" document)) []

-- The rule of a blocker, or its resource without "Rule/".
unfoldable pub blocker_rule : Json → String
unfolding string_field
blocker_rule b =
    if string_field b "rule_id" == ""
    then strip_prefix "Rule/" (string_field b "resource")
    else string_field b "rule_id"

unfoldable pub matching_unavailable : Json → List Json → List Json
unfolding blocker_rule
matching_unavailable f blockers =
    if string_field f "rule_id" == ""
    then blockers
    else keep (λ b. blocker_rule b == string_field f "rule_id") blockers

unfoldable pub evaluation_unavailable : Json → Json → Bool
unfolding unavailable_sections matching_unavailable group
evaluation_unavailable document f =
    let section = string_field f "section" in
    not (section == "")
    && not (is_empty (matching_unavailable f (group section (unavailable_sections document))))

unfoldable pub finding_objects : Json → List Json
finding_objects document = objects (field "findings" document)

unfoldable pub root_objects : Json → List Json
root_objects document = objects (field "root_causes" document)

-- The loop of `findingMap` and `rootMap`.
unfoldable pub by_id_from : List Json → Objects → Objects
unfolding string_field put
by_id_from [] m = m
by_id_from (v ∷ vs) m =
    by_id_from vs (if string_field v "id" == "" then m else put (string_field v "id") v m)

unfoldable pub finding_map : Json → Objects
unfolding finding_objects by_id_from
finding_map document = by_id_from (finding_objects document) []

unfoldable pub root_map : Json → Objects
unfolding root_objects by_id_from
root_map document = by_id_from (root_objects document) []

abbrev pub keys : Objects → List String
keys m = map (λ (e : String × Json). e.0) m

abbrev pub has : Objects → String → Bool
unfolding lookup
has m id = is_some (lookup id m)

abbrev pub or_null : Option Json → Json
or_null none = null
or_null (some v) = v

-- `values[id]`
unfoldable pub value_at : Objects → String → Json
unfolding lookup
value_at m id = or_null (lookup id m)

-- The common keys, those of the first map alone and those of the second alone, each sorted.
unfoldable pub set_parts : Objects → Objects → List String × List String × List String
unfolding has sort_strings
set_parts before after = (
  sort_strings (keep (has after) (keys before)),
  sort_strings (keep (λ id. not (has after id)) (keys before)),
  sort_strings (keep (λ id. not (has before id)) (keys after)),
)

unfoldable pub values_for_ids : Objects → List String → List Json
unfolding value_at
values_for_ids m ids = map (value_at m) ids

-- The finding that a value is, or the cause of a root.
unfoldable pub subject : Bool → Json → Json
unfolding field
subject roots value = if roots then field "cause" value else value

unfoldable pub finding_correlation_key : Json → String
unfolding string_field
finding_correlation_key f =
    if string_field f "code" == "" || string_field f "resource" == ""
    then ""
    else concat (string_field f "code" ∷ separator ∷ string_field f "resource" ∷ [])

-- The test and the key of the loop of `correlationMap`; an empty key stands for the test.
unfoldable pub grouped_from : Bool → List Json → Groups → Groups
unfolding subject finding_correlation_key append_group
grouped_from roots [] groups = groups
grouped_from roots (v ∷ vs) groups = grouped_from roots vs (
    if finding_correlation_key (subject roots v) == ""
    then groups
    else append_group (finding_correlation_key (subject roots v)) v groups)

-- The groups of one value.
unfoldable pub singles : Groups → Objects
singles [] = []
singles ((k, []) ∷ groups) = singles groups
singles ((k, v ∷ []) ∷ groups) = (k, v) ∷ singles groups
singles ((k, v ∷ w ∷ vs) ∷ groups) = singles groups

unfoldable pub correlation_map : List Json → Bool → Objects
unfolding grouped_from singles
correlation_map values roots = singles (grouped_from roots values [])

unfoldable pub common_keys : Objects → Objects → List String
unfolding has sort_strings
common_keys before after = sort_strings (keep (has after) (keys before))
