-- ===== src/Report/Junit.antt =====
-- `JUnit` of internal/report/report.go: one test case for each finding. `marshal` stands for
-- `json.Marshal`; the XML is written by `encoding/xml`.
pub mod Tallied
use k8s_diagnose.Prelude.{
  ℕ, suc, String, Bool, true, false, not, Option, none, some, List, [], ◌∷◌, ◌++◌, ◌==◌, ◌&&◌, ◌||◌,
  if◌then◌else◌, concat, join, lookup, put, length, is_empty, decimal,
}
use k8s_diagnose.Report.Json.{
  Json, Items, null, bool, object, array, sprint, field, is_object, string_field, boolean,
}
use k8s_diagnose.Report.Findings.{finding_objects, root_objects}
use k8s_diagnose.Report.Graph.{string_slice}
use k8s_diagnose.Report.Serialize.{items}

pub record Detail : Type 0 where
  pub kind : String
  pub message : String
  pub text : String

-- The one of the three pointers that is set, if any.
pub data Outcome : Type 0 where
  passed : Outcome
  failure error skipped : Detail → Outcome

-- `root_ids` is the property `root_cause_ids`, which is there unless it is empty.
pub record TestCase : Type 0 where
  pub name : String
  pub class_name : String
  pub root_ids : List String
  pub outcome : Outcome
  pub system_out : String

pub record Suite : Type 0 where
  pub tests : ℕ
  pub failures : ℕ
  pub errors : ℕ
  pub skips : ℕ
  pub properties : List (String × String)
  pub cases : List TestCase

abbrev pub Roots : Type 0
Roots = List (String × List String)

abbrev or_none : Option (List String) → List String
or_none none = []
or_none (some ids) = ids

unfoldable pub roots_of : String → Roots → List String
unfolding lookup
roots_of id m = or_none (lookup id m)

unfoldable pub add_root : String → List String → Roots → Roots
unfolding roots_of put
add_root root [] m = m
add_root root (id ∷ ids) m = add_root root ids (put id (roots_of id m ++ root ∷ []) m)

-- `rootsByFinding`
unfoldable pub roots_by_finding : List Json → Roots → Roots
unfolding add_root string_slice field string_field
roots_by_finding [] m = m
roots_by_finding (r ∷ rs) m =
    roots_by_finding rs
      (add_root (string_field r "id") (string_slice (field "related_finding_ids" r)) m)

abbrev or_text : String → String → String
or_text other value = if value == "" then other else value

-- `acknowledgementReason`; the reason of a value that is no acknowledgement is empty.
unfoldable pub acknowledgement_reason : Json → String
unfolding string_field
acknowledgement_reason value = or_text "承認済み" (string_field value "reason")

unfoldable pub detail_text : Json → String
unfolding string_slice field string_field concat join
detail_text f =
    let evidence = string_slice (field "evidence" f) in
    if is_empty evidence
    then string_field f "message"
    else concat (string_field f "message" ∷ "\nEvidence:\n- " ∷ join "\n- " evidence ∷ [])

abbrev code_of : Json → String
unfolding string_field
code_of f = or_text "K8S.UNKNOWN" (string_field f "code")

abbrev detail : String → String → Json → Detail
unfolding detail_text
detail kind message f = record { kind = kind; message = message; text = detail_text f }

-- The `switch`.
unfoldable pub outcome_of : Json → Outcome
unfolding detail_text acknowledgement_reason field string_field boolean
outcome_of f =
    if boolean (field "acknowledged" f)
    then skipped (detail "acknowledged" (acknowledgement_reason (field "acknowledgement" f)) f)
    else if string_field f "severity" == "issue"
    then failure (detail (code_of f) (string_field f "message") f)
    else if string_field f "severity" == "unavailable"
    then error (detail (code_of f) (string_field f "message") f)
    else skipped (detail (string_field f "severity") (string_field f "message") f)

unfoldable pub case_of : Roots → Json → TestCase
unfolding outcome_of roots_of detail_text string_field concat
case_of roots f = record {
  name = concat (code_of f ∷ " " ∷ or_text "cluster" (string_field f "resource") ∷ []);
  class_name = string_field f "section";
  root_ids = roots_of (string_field f "id") roots;
  outcome = outcome_of f;
  system_out = detail_text f;
}

-- One more in the count that the outcome asks for.
unfoldable pub tally : Outcome → Suite → Suite
tally passed s = s
tally (failure d) s = record s { failures = suc s.failures }
tally (error d) s = record s { errors = suc s.errors }
tally (skipped d) s = record s { skips = suc s.skips }

unfoldable pub add_cases : Roots → List Json → Suite → Suite
unfolding case_of tally outcome_of
add_cases roots [] s = s
add_cases roots (f ∷ fs) s =
    add_cases roots fs (tally (outcome_of f) (record s { cases = s.cases ++ case_of roots f ∷ [] }))

abbrev healthy_case : TestCase
healthy_case = record {
  name = "cluster-diagnosis";
  class_name = "k8s-diagnose";
  root_ids = [];
  outcome = passed;
  system_out = "";
}

-- The case of a run without findings, and the number of all cases.
unfoldable pub close_suite : List Json → Suite → Suite
close_suite [] s = record s { cases = s.cases ++ healthy_case ∷ []; tests = suc (length s.cases) }
close_suite (f ∷ fs) s = record s { tests = length s.cases }

module _ (marshal : Json → String) where
  unfoldable pub suite_properties : Json → List (String × String)
  unfolding field sprint root_objects decimal is_object items
  suite_properties document =
      let summary = field "summary" document in
      let target = field "target" document in
      ("health", sprint (field "health" summary))
      ∷ ("coverage", sprint (field "coverage" summary))
      ∷ ("context", sprint (field "context" target))
      ∷ ("namespace", sprint (field "scope" target))
      ∷ ("root_causes", decimal (length (root_objects document)))
      ∷ ((if is_empty (root_objects document)
            then []
            else ("root_causes_json", marshal (array (items (λ v. v) (root_objects document))))
              ∷ [])
          ++ (if is_object (field "history_analysis" document)
              then ("history_analysis_json", marshal (field "history_analysis" document)) ∷ []
              else []))

  abbrev pub empty_suite : Json → Suite
  unfolding suite_properties
  empty_suite document = record {
    tests = 0;
    failures = 0;
    errors = 0;
    skips = 0;
    properties = suite_properties document;
    cases = [];
  }

  unfoldable pub junit : Json → Suite
  unfolding suite_properties add_cases roots_by_finding close_suite finding_objects root_objects
  junit document = close_suite (finding_objects document) (
      add_cases (roots_by_finding (root_objects document) []) (finding_objects document)
        (empty_suite document))
