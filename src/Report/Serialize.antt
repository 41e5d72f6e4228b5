-- ===== src/Report/Serialize.antt =====
-- The JSON of findings and of root causes, of internal/report/report.go. A slice that is nil is
-- written as an empty one.
use k8s_diagnose.Prelude.{
  ℕ, String, true, Option, none, some, List, [], ◌∷◌, ◌==◌, if◌then◌else◌, concat, decimal,
  int_decimal,
}
use k8s_diagnose.Model.Types.{
  severity_text, Evidence, Acknowledgement, Finding, Impact, RootCause, ScoreDimension, ScopedScore,
}
use k8s_diagnose.Redact.Masking.{Expression, mask_secrets}
use k8s_diagnose.Report.Json.{
  Json, Items, Fields, null, bool, number, text, array, object, no_items, item, no_fields, entry,
}
use k8s_diagnose.Report.Sanitize.{insert_field}

unfoldable pub items {ℓ} : {A : Type ℓ} → (A → Json) → List A → Items
items f [] = no_items
items f (x ∷ xs) = item (f x) (items f xs)

unfoldable pub texts : List String → Json
unfolding items
texts values = array (items text values)

unfoldable pub nullable : String → Json
nullable value = if value == "" then null else text value

abbrev pub natural : ℕ → Json
natural n = number (decimal n)

-- `omitempty`
unfoldable pub entry_unless_empty : String → String → Fields → Fields
entry_unless_empty key value rest = if value == "" then rest else entry key (text value) rest

unfoldable pub counters : List (String × ℕ) → Fields
unfolding insert_field decimal
counters [] = no_fields
counters ((k, n) ∷ m) = insert_field k (natural n) (counters m)

unfoldable pub score_dimension : ScoreDimension → Json
unfolding entry_unless_empty decimal
score_dimension d = object (
    entry "id" (text d.id) (
      entry "label" (text d.label) (
        entry "score" (natural d.score)
          (entry "maximum" (natural d.maximum) (entry_unless_empty "detail" d.detail no_fields)))))

-- The structs as `encoding/json` writes them, by their tags.
unfoldable pub scoped_score_json : ScopedScore → Json
unfolding items score_dimension int_decimal
scoped_score_json v = object (
    entry "kind" (text v.kind) (
      entry "resource" (text v.resource) (
        entry "score" (number (int_decimal v.score)) (
          entry "maximum" (number (int_decimal v.maximum))
            (entry "dimensions" (array (items score_dimension v.dimensions)) no_fields)))))

module _ (replace : Expression → String → String → String) where
  abbrev masked : String → String
  unfolding mask_secrets
  masked value = mask_secrets replace value true

  -- The reason is masked, and the struct is kept.
  unfoldable pub acknowledgement_json : Option Acknowledgement → Json
  unfolding mask_secrets entry_unless_empty
  acknowledgement_json none = null
  acknowledgement_json (some a) = object (
      entry "rule_id" (text a.rule_id) (
        entry "reason" (text (masked a.reason)) (
          entry "expires" (text a.expires) (
            entry_unless_empty "source" a.source
              (entry_unless_empty "workload" a.workload no_fields)))))

  unfoldable pub evidence_text : Evidence → String
  unfolding mask_secrets concat
  evidence_text e = masked (if e.key == "" then e.value else concat (e.key ∷ "=" ∷ e.value ∷ []))

  unfoldable pub serialize_evidence : List Evidence → Json
  unfolding items evidence_text
  serialize_evidence values = array (items (λ e. text (evidence_text e)) values)

  unfoldable pub serialize_finding : Finding → Json
  unfolding acknowledgement_json serialize_evidence nullable mask_secrets int_decimal
  serialize_finding f = object (
      entry "acknowledged" (bool f.acknowledged) (
        entry "acknowledgement" (acknowledgement_json f.acknowledgement) (
          entry "code" (text f.code) (
            entry "confidence" (number (int_decimal f.confidence)) (
              entry "evidence" (serialize_evidence f.evidence) (
                entry "id" (text f.id) (
                  entry "message" (text (masked f.message)) (
                    entry "reason" (nullable (masked f.reason)) (
                      entry "resource" (nullable f.resource) (
                        entry "rule_id" (nullable f.rule_id) (
                          entry "section" (text f.section) (
                            entry "severity" (text (severity_text f.severity))
                              (entry "stable_key" (nullable f.stable_key) no_fields)))))))))))))

  unfoldable pub serialize_impact : Impact → Json
  unfolding mask_secrets nullable texts decimal
  serialize_impact i = object (
      entry "depth" (natural i.depth) (
        entry "finding_ids" (texts i.finding_ids) (
          entry "kind" (text i.kind) (
            entry "message" (text (masked i.message)) (
              entry "path" (texts i.path) (
                entry "path_relations" (texts i.path_relations) (
                  entry "relation" (nullable i.relation)
                    (entry "resource" (text i.resource) no_fields))))))))

  unfoldable pub serialize_root_cause : RootCause → Json
  unfolding serialize_finding serialize_impact serialize_evidence counters items texts mask_secrets
      decimal int_decimal
  serialize_root_cause r = object (
      entry "cause" (serialize_finding r.cause) (
        entry "classification" (text r.classification) (
          entry "commands" (array (items (λ s. text (masked s)) r.commands)) (
            entry "confidence" (number (int_decimal r.confidence)) (
              entry "confirmed" (bool r.confirmed) (
                entry "direct_impacts" (array (items serialize_impact r.direct_impacts)) (
                  entry "evidence" (serialize_evidence r.evidence) (
                    entry "health_penalty" (natural r.health_penalty) (
                      entry "id" (text r.id) (
                        entry "impact_summary" (object (counters r.impact_summary)) (
                          entry "label" (text r.label) (
                            entry "propagated_impacts"
                              (array (items serialize_impact r.propagated_impacts))
                              (entry "related_finding_ids" (texts r.related_finding_ids) (
                                entry "remediations"
                                  (array (items (λ s. text (masked s)) r.remediations))
                                  no_fields))))))))))))))
