-- ===== src/Tests/State.antt =====
-- Findings, the state and what a report says of it.
use k8s_diagnose.Prelude.{
  ℕ, String, Bool, true, false, Option, none, some, List, [], ◌∷◌, ◌≡◌, ◌≢◌, ◌≤◌, ◌+◌, ◌<◌, ◌↔◌,
  ◌-◌, ◌*◌, ◌/◌, min, Memᴰ, pos, negsuc, arith, refl, ◌==◌, eq_iff, trim_space, contains, count_if,
  any, all, not, keep, int_leb, ◌⊎◌,
}
use k8s_diagnose.Prelude.Sort.{IsOrdered}
use k8s_diagnose.Redact.{sanitize_text}
use k8s_diagnose.Redact.Clean.{IsClean, IsPlainRune}
use k8s_diagnose.Model.Types.{issue, Finding, RootCause}
use k8s_diagnose.Model.Finding.{clean_evidence}
use k8s_diagnose.Model.Finding.Confidence.{IsPercent}
use k8s_diagnose.Model.RootCause.{new_root_cause}
use k8s_diagnose.Model.RootCause.Penalty.{Classified, new_root_cause_lem}
use k8s_diagnose.Model.State.{new_state, add, finding_key, sort_findings}
use k8s_diagnose.Model.State.Invariant.{IsValid}
use k8s_diagnose.Model.State.Runs.{new, call, adds, sorts, Reachable-IsValid}
use k8s_diagnose.Model.State.Order.{ListedBefore, alike, sort_findings_lem}
use k8s_diagnose.Model.Health.{health, should_fail}
use k8s_diagnose.Model.Health.Bounds.{health-add_issue}
use k8s_diagnose.Model.Health.Policy.{Counts, should_fail_lem}
use k8s_diagnose.Tests.Samples.{digest, cause, symptom, state, evidence, finding}

abbrev late : Finding
late = finding "f3" "K8S.POD.NOT_READY" issue "Pod/a/late" 80

Reachable-IsValid_example :
    IsValid digest (sort_findings (add digest (add digest new_state symptom) cause))
Reachable-IsValid_example =
    Reachable-IsValid digest (call (call (call new (adds _ symptom)) (adds _ cause)) (sorts _))

differs : (s t : String) → (s == t) ≡ false → s ≢ t
differs s t h e = ground (arith, eq_iff s t)

by_default : Counts "issue" issue
by_default = differs "issue" "none" refl

should_fail_example : should_fail state "issue" none ≡ true
should_fail_example = (should_fail_lem state "issue").1 (cause, Memᴰ.head refl, (refl, by_default))

health-add_issue_example : health (add digest state late) ≡ 76
unfolding finding_key
health-add_issue_example = health-add_issue digest state late refl refl refl

plain_rune : (r : ℕ) → 0x20 ≤ r → r < 0x7f → IsPlainRune r
plain_rune r h k = ground arith

IsClean-text : IsClean "a b"
IsClean-text = (
  plain_rune 97 (omega arith) (omega arith),
  (plain_rune 32 (omega arith) (omega arith), (plain_rune 98 (omega arith) (omega arith), tt)),
)

filled : (clean_evidence evidence).value ≢ ""
unfolding clean_evidence sanitize_text k8s_diagnose.Redact.keeps_rune trim_space
    k8s_diagnose.Prelude.is_space
filled = differs "timeout" "" refl

sort_findings_example :
    IsOrdered ListedBefore (sort_findings state).findings
    × ((p : Finding → Bool) → count_if p (sort_findings state).findings ≡ count_if p state.findings)
    × ((f : Finding)
        → keep (alike f) (sort_findings state).findings ≡ keep (alike f) state.findings)
sort_findings_example = sort_findings_lem state

abbrev root : RootCause
root = new_root_cause digest cause (pos 95) [] [] [] [] [] ("f2" ∷ "f2" ∷ [])

new_root_cause_example :
    IsPercent root.confidence
    × ((root.confirmed ≡ true)
        ↔ ((cause.severity ≡ issue) × (int_leb (pos 90) root.confidence ≡ true)))
    × Classified root.confirmed root.confidence root.classification
    × (((cause.severity ≡ issue) × (8 ≤ root.health_penalty) × (root.health_penalty ≤ 14))
        ⊎ ((cause.severity ≢ issue) × (root.health_penalty ≡ 0)))
    × ((id : String) → count_if (λ j. j == id) root.related_finding_ids ≤ 1)
new_root_cause_example = new_root_cause_lem digest cause (pos 95) [] [] [] [] [] ("f2" ∷ "f2" ∷ [])
