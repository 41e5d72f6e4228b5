-- ===== src/Tests/Reports.antt =====
-- Reports, their comparison and their drawings.
use k8s_diagnose.Prelude.{
  String, Bool, true, false, none, some, [], ◌∷◌, ◌≡◌, ◌==◌, inr, refl, All, length,
}
use k8s_diagnose.Model.Types.{issue, unavailable, Finding, State}
use k8s_diagnose.Model.State.{new_state, add, finding_key, by_severity}
use k8s_diagnose.Model.State.Runs.{new, call, adds, Reachable-IsValid}
use k8s_diagnose.Redact.Masking.{Expression}
use k8s_diagnose.Report.Json.{
  Json, Items, bool, text, array, object, no_items, item, no_fields, entry, json_eq,
}
use k8s_diagnose.Report.Findings.{finding_objects}
use k8s_diagnose.Report.Compare.{Comparison, compare, stable_finding}
use mathlib.Core.List.{reverse}
use k8s_diagnose.Report.Compare.Placed.{Placed}
use k8s_diagnose.Report.Compare.Same.{IsUnchanged}
use k8s_diagnose.Report.Bridge.{compare_history}
use k8s_diagnose.Report.Bridge.Arrivals.{arrivals, IsBridged, compare_history-bridges}
use k8s_diagnose.Report.Sanitize.{mask_structured}
use k8s_diagnose.Report.Sanitize.Masked.{IsMasked, sanitize-IsMasked}
use k8s_diagnose.Report.Serialize.{serialize_finding}
use k8s_diagnose.Report.Build.{Config, build}
use k8s_diagnose.Report.Build.Counted.{Pairwise, build-Pairwise}
use k8s_diagnose.Report.Build.Compared.{build-IsUnchanged}
use k8s_diagnose.Report.Build.Stored.{stored-differs}
use k8s_diagnose.Report.Graph.{report_graph}
use k8s_diagnose.Report.Graph.Joined.{Joins, report_graph-Joins}
use k8s_diagnose.Report.Junit.{junit}
use k8s_diagnose.Report.Junit.Tallied.{junit-build}
use k8s_diagnose.Tests.Samples.{digest, cause, symptom, state, acknowledgement}

-- Expressions that match nothing, and one sensitive key.
abbrev pub keep_text : Expression → String → String → String
keep_text e template value = value

abbrev pub is_password : Expression → String → Bool
is_password e value = value == "password"

abbrev marshal : Json → String
marshal v = "{}"

abbrev pub finding_json : String → String → String → String → Json
finding_json id code severity resource = object (
    entry "acknowledged" (bool false) (
      entry "code" (text code) (
        entry "id" (text id) (
          entry "resource" (text resource)
            (entry "section" (text "Pod") (entry "severity" (text severity) no_fields))))))

abbrev pub report_of : Items → Json
report_of findings = object (
    entry "findings" (array findings) (
      entry "generated_at" (text "2026-11-26T15:00:00Z") (
        entry "root_causes" (array no_items) (
          entry "schema" (text "k8s-diagnose/report/v1") (
            entry "target"
              (object (entry "context" (text "dev") (entry "mode" (text "full") no_fields)))
              no_fields)))))

abbrev pub crash : Json
crash = finding_json "f1" "K8S.POD.CRASH" "issue" "Pod/a/web"

abbrev pending : Json
pending = finding_json "f2" "K8S.POD.PENDING" "warning" "Pod/a/db"

abbrev worse_pending : Json
worse_pending = finding_json "f3" "K8S.POD.PENDING" "issue" "Pod/a/db"

abbrev blocked : Json
blocked = finding_json "f4" "K8S.API.FORBIDDEN" "unavailable" "API/pods"

abbrev pub broken : Json
broken = report_of (item crash (item pending no_items))

abbrev later : Json
later = report_of (item crash (item worse_pending no_items))

abbrev blind : Json
blind = report_of (item blocked no_items)

abbrev pub calm : Json
calm = report_of no_items

-- The finding is known from before the sample that could not see it.
compare_history-bridges_example :
    (c : Comparison) × (compare_history (broken ∷ blind ∷ []) broken ≡ inr c)
    × (arrivals c.findings ≡ arrivals (compare blind broken).findings)
    × (arrivals c.root_causes ≡ arrivals (compare blind broken).root_causes)
    × All (IsBridged false (reverse (broken ∷ blind ∷ []))) c.findings.reconfirmed
    × All (IsBridged true (reverse (broken ∷ blind ∷ []))) c.root_causes.reconfirmed
compare_history-bridges_example =
    compare_history-bridges (broken ∷ blind ∷ []) broken blind (broken ∷ []) refl

abbrev secret : Json
secret = object (entry "note" (text "n") (entry "password" (text "p") no_fields))

sanitize-IsMasked_example :
    IsMasked keep_text is_password (mask_structured keep_text is_password secret)
sanitize-IsMasked_example = sanitize-IsMasked keep_text is_password secret

abbrev cfg : Config
cfg = record {
  namespace = "a";
  mode = "full";
  config_file = "";
  fail_on = "issue";
  max_issues = none;
}

abbrev recorded : State
recorded = add digest (add digest new_state symptom) cause

abbrev report : State → Json
report s = build keep_text is_password s cfg "dev" "2026-11-26T15:00:00Z" "1.0"

build-IsUnchanged_example :
    IsUnchanged (compare (report recorded) (report recorded)).findings (length recorded.findings)
unfolding add new_state finding_key
build-IsUnchanged_example =
    build-IsUnchanged digest keep_text is_password recorded cfg "dev" "2026-11-26T15:00:00Z" "1.0"
      (Reachable-IsValid digest (call (call new (adds _ symptom)) (adds _ cause)))
      (refl, (refl, tt))

build-Pairwise_example :
    Pairwise keep_text is_password state.findings (finding_objects (report state))
build-Pairwise_example =
    build-Pairwise keep_text is_password state cfg "dev" "2026-11-26T15:00:00Z" "1.0"

abbrev acknowledged : Finding
acknowledged = record cause { acknowledged = true; acknowledgement = some acknowledgement }

stored-differs_example :
    json_eq
      (stable_finding
        (mask_structured keep_text is_password (serialize_finding keep_text acknowledged)))
      (stable_finding (serialize_finding keep_text acknowledged))
    ≡ false
stored-differs_example = stored-differs keep_text is_password acknowledged acknowledgement refl

-- A root cause whose impact is reached in two steps.
abbrev drawn : Json
drawn = object (
    entry "root_causes"
      (array (
        item
          (object (
            entry "cause" (finding_json "f1" "K8S.DEPENDENCY.MISSING_OBJECT" "issue" "Secret/a/db")
              (entry "classification" (text "root_cause") (
                entry "direct_impacts"
                  (array (
                    item
                      (object (
                        entry "path"
                          (array (
                            item (text "Secret/a/db")
                              (item (text "Pod/a/web") (item (text "Deployment/a/web") no_items))))
                          (entry "resource" (text "Deployment/a/web") no_fields)))
                      no_items))
                  no_fields))))
          no_items))
      no_fields)

report_graph-Joins_example : All (Joins (report_graph drawn).0) (report_graph drawn).1
report_graph-Joins_example = report_graph-Joins drawn

junit-build_example :
    ((junit marshal (report state)).failures ≡ length (by_severity state issue true))
    × ((junit marshal (report state)).errors ≡ length (by_severity state unavailable true))
junit-build_example =
    junit-build marshal keep_text is_password state cfg "dev" "2026-11-26T15:00:00Z" "1.0"
