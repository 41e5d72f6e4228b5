-- ===== src/Model/Health.antt =====
-- What a report says of a state: `CoverageCounts`, `Coverage`, `Health` and `ShouldFail`.
pub mod Bounds
pub mod Policy
use k8s_diagnose.Prelude.{
  ℕ, String, Bool, true, false, not, Option, none, some, List, [], ◌∷◌, ◌++◌, ◌+◌, ◌-◌, ◌*◌, ◌/◌, ℤ,
  pos, int_min, int_max, int_ltb, int_scale, int_quot, pos_part, if◌then◌else◌, ◌==◌, ◌&&◌,
  contains, count_if, length, nat_eq, ltb,
}
use k8s_diagnose.Model.Types.{
  Severity, issue, warning, unavailable, candidate, severity_eq, Finding, RootCause, Check,
  ScopedScore, State,
}

-- Available checks, unavailable checks and all of them.
unfoldable pub coverage_counts : State → ℕ × ℕ × ℕ
coverage_counts s = (
  count_if (λ c. c.available) s.checks,
  count_if (λ c. not c.available) s.checks,
  length s.checks,
)

unfoldable pub coverage : State → ℕ
unfolding coverage_counts
coverage s =
    let (ok, missing, total) = coverage_counts s in if nat_eq total 0 then 100 else ok * 100 / total

abbrev pub is_issue : Finding → Bool
is_issue f = severity_eq f.severity issue

-- The penalties of the root causes.
unfoldable pub root_penalties : List RootCause → ℕ
root_penalties [] = 0
root_penalties (r ∷ rs) = r.health_penalty + root_penalties rs

-- The set `grouped`: the findings that belong to a root cause which is an issue.
unfoldable pub grouped : List RootCause → List String
grouped [] = []
grouped (r ∷ rs) =
    let rest = grouped rs in if is_issue r.cause then r.related_finding_ids ++ rest else rest

-- Eight points for each issue outside the groups.
unfoldable pub loose_penalty : List String → List Finding → ℕ
loose_penalty ids [] = 0
loose_penalty ids (f ∷ fs) =
    (if is_issue f then (if contains ids f.id then 0 else 8) else 0) + loose_penalty ids fs

-- `max(0, min(100, score*100/maximum))`
unfoldable pub scoped_health : ScopedScore → ℕ
scoped_health v =
    pos_part (int_max (pos 0) (int_min (pos 100) (int_quot (int_scale v.score 100) v.maximum)))

-- `max(0, 100-penalty)`, which subtraction on ℕ gives.
unfoldable pub cluster_health : State → ℕ
unfolding root_penalties grouped loose_penalty
cluster_health s = elim s.root_causes [
  | [] ↦ 100 - count_if is_issue s.findings * 8
  | r ∷ rs ↦ 100 - (root_penalties (r ∷ rs) + loose_penalty (grouped (r ∷ rs)) s.findings)
]

unfoldable pub health : State → ℕ
unfolding cluster_health scoped_health
health s = elim s.scoped_score [
  | none ↦ cluster_health s
  | some v ↦ if int_ltb (pos 0) v.maximum then scoped_health v else cluster_health s
]

-- The map `included` for a value of `--fail-on`.
unfoldable pub included : String → Severity → Bool
included fail_on severity =
    if fail_on == "warning"
    then (elim severity [ issue ↦ true | warning ↦ true | _ ↦ false ])
    else if fail_on == "unavailable"
    then (elim severity [ issue ↦ true | warning ↦ true | unavailable ↦ true | _ ↦ false ])
    else if fail_on == "any"
    then true
    else if fail_on == "none"
    then false
    else severity_eq severity issue

unfoldable pub policy_count : State → String → ℕ
policy_count s fail_on =
    count_if (λ f. not f.acknowledged && included fail_on f.severity) s.findings

unfoldable pub should_fail : State → String → Option ℤ → Bool
unfolding policy_count
should_fail s fail_on none = ltb 0 (policy_count s fail_on)
should_fail s fail_on (some limit) = int_ltb limit (pos (policy_count s fail_on))
