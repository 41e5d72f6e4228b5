-- ===== src/Baseline/Apply.antt =====
-- `Apply`: the rules that are not expired acknowledge findings, and each expired one adds a warning.
-- `today` is the date of the clock, and `resolve` the optional resolver of workloads.
use k8s_diagnose.Prelude.{
  ℕ, String, Bool, not, Option, none, some, List, [], ◌∷◌, ◌+◌, pos, if◌then◌else◌, ◌==◌, ◌&&◌,
  text_lt, concat,
}
use k8s_diagnose.Model.Types.{warning, Finding, RootCause, Acknowledgement, State}
use k8s_diagnose.Model.Finding.{new_finding}
use k8s_diagnose.Model.State.{add, acknowledge}
use k8s_diagnose.Baseline.Pattern.{match}
use k8s_diagnose.Baseline.Scope.{Rule, Baseline, match_resource_scope, match_workload}

module _ (digest : String → String) (today : String)
    (resolve : Option (Finding → List String)) where
  unfoldable pub expired : Rule → Bool
  expired rule = text_lt rule.expires today

  unfoldable pub expired_finding : Rule → Finding
  expired_finding rule =
      new_finding digest warning "K8S.BASELINE.EXPIRED" "ベースライン"
        (concat ("Baseline/" ∷ rule.id ∷ [])) "Expired" rule.id
        (concat ("ベースライン承認 " ∷ rule.id ∷ " は、有効期限 " ∷ rule.expires ∷ " を過ぎています" ∷ [])) (pos 100)
        (record { kind = "baseline"; key = "reason"; value = rule.reason } ∷ [])

  -- The tests on one finding: it is not acknowledged, and code, scope and workloads match.
  unfoldable pub applies : Rule → List RootCause → Finding → Bool
  applies rule roots f =
      not f.acknowledged
      && (match rule.code f.code
          && (match_resource_scope rule f.resource && (match_workload rule f roots resolve).0))

  unfoldable pub acknowledgement_of : Rule → List RootCause → Finding → Acknowledgement
  acknowledgement_of rule roots f = record {
    rule_id = rule.id;
    reason = rule.reason;
    expires = rule.expires;
    source = rule.source;
    workload = (match_workload rule f roots resolve).1;
  }

  -- `if state.Acknowledge(id, a) { count++ }`
  unfoldable pub acknowledge_counted : String → Acknowledgement → State × ℕ → State × ℕ
  acknowledge_counted id a (s, count) =
      let (t, found) = acknowledge s id a in (t, if found then count + 1 else count)

  -- The loop over a copy of the findings.
  unfoldable pub apply_rule : Rule → List Finding → State × ℕ → State × ℕ
  apply_rule rule [] (s, count) = (s, count)
  apply_rule rule (f ∷ fs) (s, count) = apply_rule rule fs (
      if applies rule s.root_causes f
      then acknowledge_counted f.id (acknowledgement_of rule s.root_causes f) (s, count)
      else (s, count))

  unfoldable pub apply_rules : List Rule → State × ℕ → State × ℕ
  apply_rules [] (s, count) = (s, count)
  apply_rules (rule ∷ rules) (s, count) = apply_rules rules (
      if expired rule
      then (add digest s (expired_finding rule), count)
      else apply_rule rule s.findings (s, count))

  -- The acknowledgement of the first finding with the ID.
  unfoldable pub acknowledgement_by_id : String → List Finding → Option Acknowledgement
  acknowledgement_by_id id [] = none
  acknowledgement_by_id id (f ∷ fs) =
      let rest = acknowledgement_by_id id fs in if f.id == id then f.acknowledgement else rest

  unfoldable pub acknowledge_all : Acknowledgement → List String → State × ℕ → State × ℕ
  acknowledge_all a [] (s, count) = (s, count)
  acknowledge_all a (id ∷ ids) (s, count) =
      acknowledge_all a ids (acknowledge_counted id a (s, count))

  -- An acknowledged cause passes its acknowledgement on to the findings related to it.
  unfoldable pub apply_roots : List RootCause → State × ℕ → State × ℕ
  apply_roots [] (s, count) = (s, count)
  apply_roots (root ∷ roots) (s, count) =
      apply_roots roots (elim (acknowledgement_by_id root.cause.id s.findings) [
        | none ↦ (s, count)
        | some a ↦ acknowledge_all a root.related_finding_ids (s, count)
      ])

  unfoldable pub apply : State → Baseline → State × ℕ
  apply s baseline =
      if baseline.path == ""
      then (s, 0)
      else (let (t, count) = apply_rules baseline.rules (s, 0) in
          apply_roots t.root_causes (t, count))
