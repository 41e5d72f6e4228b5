-- ===== src/Tests/Acknowledging.antt =====
-- Baselines, the patterns of their rules, and the exit code.
use k8s_diagnose.Prelude.{
  String, true, false, none, [], ◌∷◌, ◌≡◌, ◌≢◌, ◌≤◌, ◌↔◌, Memᴰ, refl, arith, ◌==◌, eq_iff,
}
use k8s_diagnose.Model.State.{finding_key}
use k8s_diagnose.Model.State.Invariant.{IsValid}
use k8s_diagnose.Model.State.Runs.{Reachable-IsValid, new}
use k8s_diagnose.Model.State
use k8s_diagnose.Model.Health.{included, policy_count}
use k8s_diagnose.Baseline.Pattern.{match}
use k8s_diagnose.Baseline.Glob.{Matches, match_iff}
use k8s_diagnose.Baseline.Apply.{apply, apply_rules, expired, expired_finding}
use k8s_diagnose.Baseline.Effect.{apply-IsValid, apply-policy_count}
use k8s_diagnose.Baseline.Expired.{apply-expired}
use k8s_diagnose.Tests.Samples.{digest, state, baseline, rule}

match_example :
    (match "K8S.POD.*" "K8S.POD.ABNORMAL_STATE" ≡ true)
    ↔ Matches "K8S.POD.*" "K8S.POD.ABNORMAL_STATE"
match_example = match_iff "K8S.POD.*" "K8S.POD.ABNORMAL_STATE"

apply-IsValid_example :
    IsValid digest (apply digest "2026-11-26" none State.new_state (baseline "2020-01-01")).0
apply-IsValid_example =
    apply-IsValid digest "2026-11-26" none State.new_state (baseline "2020-01-01")
      (Reachable-IsValid digest new)

apply-policy_count_example :
    policy_count (apply digest "2026-11-26" none state (baseline "2030-01-01")).0 "issue"
    ≤ policy_count state "issue"
unfolding included
apply-policy_count_example =
    apply-policy_count digest "2026-11-26" none state (baseline "2030-01-01") "issue" refl

differs : (s t : String) → (s == t) ≡ false → s ≢ t
differs s t h e = ground (arith, eq_iff s t)

apply-expired_example :
    (apply digest "2026-11-26" none state (baseline "2020-01-01")
      ≡ apply_rules digest "2026-11-26" none (rule "r1" "2020-01-01" ∷ []) (state, 0))
    × ((apply digest "2026-11-26" none state (baseline "2020-01-01")).0.root_causes ≡ [])
unfolding expired finding_key expired_finding k8s_diagnose.Model.Finding.new_finding
apply-expired_example =
    apply-expired digest "2026-11-26" none state (baseline "2020-01-01") (rule "r1" "2020-01-01")
      (differs "baseline.yaml" "" refl) (Memᴰ.head refl) refl refl
