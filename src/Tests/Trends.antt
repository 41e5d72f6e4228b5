-- ===== src/Tests/Trends.antt =====
-- The history of a Pod that comes and goes and restarts.
use k8s_diagnose.Prelude.{
  arith, String, true, false, List, [], ◌∷◌, ◌++◌, ◌≡◌, ◌≤◌, inr, refl, All, length, Memᴰ, pos, map,
  lookup, put, concat,
}
use k8s_diagnose.Model.Types.{warning, Finding}
use k8s_diagnose.Model.State.{new_state}
use k8s_diagnose.Model.State.Invariant.{IsValid}
use k8s_diagnose.Model.State.Runs.{new, Reachable-IsValid}
use k8s_diagnose.Report.Json.{
  Json, number, text, array, object, no_items, item, no_fields, entry, objects, objects_of,
  is_object, field, field_of, string_field, string, boolean,
}
use k8s_diagnose.Report.Sanitize.{mask_structured, sort_fields, insert_field}
use k8s_diagnose.History.Samples.{
  active_finding_map, active_from, is_inactive, active_key, restart_map, restarts_from, int_value,
  parse_int,
}
use k8s_diagnose.History.Flaps.{
  abnormal, normal, flap_trend, evaluated, latest, first_value, with_states, evaluation, is_flap,
  transitions_of, transitions_from, is_transition, contains_state,
}
use k8s_diagnose.History.Restarts.{
  restart_trend, restart_count, records_of, is_growing, increases_from, is_decreasing_from,
  growth_of,
}
use k8s_diagnose.History.Analysis.{
  Analysis, analyze, recent, window_of, sample_of, drop, add_findings,
}
use k8s_diagnose.History.Store.{Row, load, append, retained, decode_document, target_key}
use k8s_diagnose.Report.Findings.{
  evaluation_unavailable, unavailable_sections, unavailable_from, append_group, group,
  matching_unavailable, blocker_rule, finding_objects,
}
use k8s_diagnose.Redact.{sanitize_text}
use k8s_diagnose.Redact.Masking.{mask_secrets, is_sensitive_key}
use k8s_diagnose.Model.Types.{separator}
use k8s_diagnose.History.Analysis.Trends.{IsTrend, analyze-IsTrend}
use k8s_diagnose.History.Analysis.Reported.{analyze-flap, analyze-growth}
use k8s_diagnose.History.Analysis.Window.{add_findings-keeps}
use k8s_diagnose.History.Store.Kept.{EndsWith, IsReadable, append-load}
use k8s_diagnose.Tests.Samples.{digest}
use k8s_diagnose.Tests.Reports.{keep_text, is_password, crash, broken, calm}

abbrev runs : List Json
runs = calm ∷ broken ∷ calm ∷ []

analyze-IsTrend_example :
    All
      (IsTrend (recent runs broken (pos 4)) (pos 2) (pos 3))
      (analyze runs broken (pos 4) (pos 2) (pos 3)).trends
analyze-IsTrend_example = analyze-IsTrend runs broken (pos 4) (pos 2) (pos 3)

analyze-flap_example :
    Memᴰ
      (flap_trend crash (normal ∷ abnormal ∷ normal ∷ abnormal ∷ []))
      (analyze runs broken (pos 4) (pos 2) (pos 3)).trends
unfolding evaluated latest first_value with_states evaluation evaluation_unavailable
    unavailable_sections unavailable_from append_group group matching_unavailable blocker_rule
    sample_of active_finding_map active_from is_inactive active_key recent window_of drop is_flap
    transitions_of transitions_from is_transition contains_state finding_objects objects objects_of
    is_object field field_of string_field string boolean lookup put concat
analyze-flap_example =
    analyze-flap runs broken (pos 4) (pos 2) (pos 3)
      (concat ("K8S.POD.CRASH" ∷ separator ∷ "Pod/a/web" ∷ [])) crash
      (normal ∷ abnormal ∷ normal ∷ abnormal ∷ []) refl refl (Memᴰ.tail (Memᴰ.head refl))
      (Memᴰ.head refl)

abbrev restarted : String → Json
restarted count = object (
    entry "observations"
      (object (
        entry "pod_restarts"
          (array (
            item
              (object (
                entry "id" (text "u1/web") (
                  entry "resource" (text "Pod/a/web")
                    (entry "restart_count" (number count) no_fields))))
              no_items))
          no_fields))
      no_fields)

abbrev counter : String → Json
counter count = object (
    entry "id" (text "u1/web")
      (entry "resource" (text "Pod/a/web") (entry "restart_count" (number count) no_fields)))

analyze-growth_example :
    Memᴰ
      (restart_trend
        (counter "9")
        (restart_count (counter "2"))
        (map restart_count (counter "4" ∷ counter "9" ∷ [])))
      (analyze (restarted "2" ∷ restarted "4" ∷ []) (restarted "9") (pos 4) (pos 2) (pos 3)).trends
unfolding records_of restart_map restarts_from restart_count int_value parse_int recent window_of
    drop is_growing increases_from is_decreasing_from growth_of objects objects_of is_object field
    field_of string_field string lookup put
analyze-growth_example =
    analyze-growth (restarted "2" ∷ restarted "4" ∷ []) (restarted "9") (pos 4) (pos 2) (pos 3)
      "u1/web" (counter "2") (counter "4" ∷ counter "9" ∷ []) refl (omega arith) (refl, (refl, tt))
      (omega arith) refl

abbrev trends : Analysis
trends = analyze runs broken (pos 4) (pos 2) (pos 3)

add_findings-keeps_example :
    IsValid digest (add_findings digest new_state trends)
    × ((add_findings digest new_state trends).root_causes ≡ new_state.root_causes)
    × ((added : List Finding) × ((add_findings digest new_state trends).findings
          ≡ new_state.findings ++ added)
        × All (λ f. f.severity ≡ warning) added
        × (length added ≤ length trends.trends))
add_findings-keeps_example =
    add_findings-keeps digest new_state trends (Reachable-IsValid digest new)

append-load_example :
    (stored : List Row) × (append keep_text is_password [] broken (pos 5) false
      ≡ inr (stored, true))
    × IsReadable stored
    × (length stored ≤ retained (pos 5))
    × EndsWith (load stored broken (pos 3)) (mask_structured keep_text is_password broken)
    × (append keep_text is_password stored broken (pos 5) true ≡ inr (stored, false))
unfolding decode_document target_key mask_structured mask_secrets sanitize_text sort_fields
    insert_field is_sensitive_key field field_of string_field string k8s_diagnose.Redact.keeps_rune
append-load_example =
    append-load keep_text is_password [] broken broken (pos 5) (pos 3) tt refl refl refl
