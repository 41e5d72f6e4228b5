-- ===== src/Report/Build.antt =====
-- `Build` of internal/report/report.go: the report of a state.
pub mod Counted
pub mod Compared
pub mod Stored
use k8s_diagnose.Prelude.{
  ℕ, String, Bool, true, false, Option, none, some, List, [], ◌∷◌, ◌==◌, if◌then◌else◌, length,
  count_if, decimal, ℤ, int_decimal, not, ◌||◌, lookup, map, text_lt,
}
use k8s_diagnose.Model.Types.{
  Severity, issue, warning, unavailable, candidate, Finding, RootCause, ScopedScore, Scalar, State,
}
use k8s_diagnose.Prelude.Sort.{sort_strings}
use k8s_diagnose.Model.State.{by_severity, scoped_score_value}
use k8s_diagnose.Model.Health.{coverage_counts, coverage, health, should_fail}
use k8s_diagnose.Redact.Masking.{Expression, is_sensitive_key}
use k8s_diagnose.Report.Json.{
  Json, Items, Fields, null, bool, number, text, array, object, no_items, item, no_fields, entry,
}
use k8s_diagnose.Report.Sanitize.{insert_field, mask_structured}
use k8s_diagnose.Report.Serialize.{
  items, nullable, natural, scoped_score_json, serialize_finding, serialize_root_cause,
}

-- The fields of the configuration that `Build` reads.
pub record Config : Type 0 where
  pub namespace : String
  pub mode : String
  pub config_file : String
  pub fail_on : String
  pub max_issues : Option ℤ

-- `Config.ScopeLabel`
unfoldable pub scope_label : Config → String
scope_label cfg = if cfg.namespace == "" then "全て" else cfg.namespace

-- `Schema`
abbrev pub schema : String
schema = "k8s-diagnose/report/v1"

unfoldable pub acknowledged_count : List Finding → ℕ
acknowledged_count findings = count_if (λ f. f.acknowledged) findings

-- `m[key] = value` in a map that is written in the order of its keys.
unfoldable pub set_field : String → Json → Fields → Fields
set_field k v no_fields = entry k v no_fields
set_field k v (entry j w fs) =
    let rest = set_field k v fs in
    if j == k
    then entry k v fs
    else if text_lt j k
    then entry j w rest
    else entry k v (entry j w fs)

-- The root causes of the three classes of the `switch`: confirmed, probable and related.
unfoldable pub class_counts : List RootCause → ℕ × ℕ × ℕ
class_counts roots = (
  count_if (λ r. r.classification == "root_cause") roots,
  count_if (λ r. r.classification == "cause_candidate") roots,
  count_if (λ r. not (r.classification == "root_cause" || r.classification == "cause_candidate"))
      roots,
)

-- The counts of `SeverityOrder`, of all findings or of the active ones.
unfoldable pub severity_counts : State → Bool → Json
unfolding by_severity decimal
severity_counts s active_only =
    let count : Severity → Json =
      λ severity. natural (length (by_severity s severity active_only)) in
    object (
      entry "candidate" (count candidate) (
        entry "issue" (count issue)
          (entry "unavailable" (count unavailable) (entry "warning" (count warning) no_fields))))

unfoldable pub checks_json : ℕ × ℕ × ℕ → Json
unfolding decimal
checks_json (ok, missing, total) = object (
    entry "ok" (natural ok)
      (entry "total" (natural total) (entry "unavailable" (natural missing) no_fields)))

unfoldable pub classes_json : ℕ × ℕ × ℕ → ℕ → Json
unfolding decimal
classes_json (confirmed, probable, related) total = object (
    entry "confirmed" (natural confirmed) (
      entry "probable" (natural probable)
        (entry "related" (natural related) (entry "total" (natural total) no_fields))))

abbrev pub with_score : Option ScopedScore → Fields → Fields
unfolding scoped_score_json
with_score none rest = rest
with_score (some v) rest = entry "scoped_score" (scoped_score_json v) rest

unfoldable pub summary : State → Json
unfolding severity_counts acknowledged_count checks_json coverage_counts coverage health
    class_counts classes_json scoped_score_value decimal
summary s = object (
    entry "acknowledged_findings" (natural (acknowledged_count s.findings)) (
      entry "active_findings" (severity_counts s true) (
        entry "checks" (checks_json (coverage_counts s)) (
          entry "coverage" (natural (coverage s)) (
            entry "findings" (severity_counts s false) (
              entry "health" (natural (health s)) (
                entry "root_causes"
                  (classes_json (class_counts s.root_causes) (length s.root_causes))
                  (with_score (scoped_score_value s) no_fields))))))))

module _ (replace : Expression → String → String → String)
    (matches : Expression → String → Bool) where
  abbrev scalar : Scalar → Json
  unfolding mask_structured
  scalar (k8s_diagnose.Model.Types.text s) = mask_structured replace matches (text s)
  scalar (k8s_diagnose.Model.Types.number n) = mask_structured replace matches (number (decimal n))

  -- `row := {"id": key}`, then the fields of the value.
  unfoldable pub row_fields : List (String × Scalar) → Fields → Fields
  unfolding set_field mask_structured decimal
  row_fields [] row = row
  row_fields ((k, v) ∷ fs) row = row_fields fs (set_field k (scalar v) row)

  abbrev row_of : String → Option (List (String × Scalar)) → Json
  row_of id none = object (entry "id" (text id) no_fields)
  row_of id (some fs) = object (row_fields fs (entry "id" (text id) no_fields))

  unfoldable pub rows : List (String × List (String × Scalar)) → Json
  unfolding row_fields items lookup sort_strings set_field mask_structured decimal
  rows values = array (
      items (λ id. row_of id (lookup id values))
        (sort_strings (map (λ (e : String × List (String × Scalar)). e.0) values)))

  unfoldable pub observations_json : List (String × List (String × List (String × Scalar))) → Fields
  unfolding rows set_field
  observations_json [] = no_fields
  observations_json ((category, values) ∷ rest) =
      set_field category (rows values) (observations_json rest)

  -- `generated_at` is the time, and `version` the one of the program.
  unfoldable pub build : State → Config → String → String → String → Json
  unfolding summary observations_json items serialize_finding serialize_root_cause scope_label
      nullable should_fail int_decimal
  build s cfg context generated_at version = object (
      entry "findings" (array (items (serialize_finding replace) s.findings)) (
        entry "generated_at" (text generated_at) (
          entry "observations" (object (observations_json s.observations)) (
            entry "policy"
              (object (
                entry "fail_on" (text cfg.fail_on) (
                  entry "max_issues"
                    (elim cfg.max_issues [ none ↦ null | some n ↦ number (int_decimal n) ])
                    (entry "would_fail" (bool (should_fail s cfg.fail_on cfg.max_issues))
                      no_fields))))
              (entry "root_causes" (array (items (serialize_root_cause replace) s.root_causes)) (
                entry "schema" (text schema) (
                  entry "summary" (summary s) (
                    entry "target"
                      (object (
                        entry "config_file" (nullable cfg.config_file) (
                          entry "context" (text context) (
                            entry "mode" (text cfg.mode) (
                              entry "namespace" (nullable cfg.namespace)
                                (entry "scope" (text (scope_label cfg)) no_fields))))))
                      (entry "tool"
                        (object (
                          entry "name" (text "k8s-diagnose") (
                            entry "runtime" (text "go")
                              (entry "version" (text version) no_fields))))
                        no_fields)))))))))
