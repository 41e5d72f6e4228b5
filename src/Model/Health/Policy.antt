-- ===== src/Model/Health/Policy.antt =====
-- `ShouldFail`: which findings make a run fail.
use k8s_diagnose.Prelude.{
  String, Bool, true, false, not, Option, none, some, List, [], ◌∷◌, ◌≡◌, ◌≤◌, ◌≢◌, ◌↔◌, ◌⊎◌, ℤ,
  pos, negsuc, arith, count_if, eq_iff, ◌&&◌, Memᴰ, any_iff, count_if-pos,
}
use k8s_diagnose.Model.Types.{
  Severity, issue, warning, unavailable, candidate, Finding, Acknowledgement, State,
}
use k8s_diagnose.Model.State.{acknowledge_first, acknowledge}
use k8s_diagnose.Model.Health.{included, policy_count, should_fail}

-- The severities that a policy counts, from the strictest policy to the widest.
abbrev pub Counts : String → Severity → Type 0
Counts fail_on issue = fail_on ≢ "none"
Counts fail_on warning = (fail_on ≡ "warning") ⊎ (fail_on ≡ "unavailable") ⊎ (fail_on ≡ "any")
Counts fail_on unavailable = (fail_on ≡ "unavailable") ⊎ (fail_on ≡ "any")
Counts fail_on candidate = fail_on ≡ "any"

included-Counts :
    (fail_on : String) (severity : Severity)
    → (included fail_on severity ≡ true) ↔ Counts fail_on severity
unfolding included
included-Counts fail_on issue = ground (
  arith,
  eq_iff fail_on "warning",
  eq_iff fail_on "unavailable",
  eq_iff fail_on "any",
  eq_iff fail_on "none",
  eq_iff "warning" "none",
  eq_iff "unavailable" "none",
  eq_iff "any" "none",
  eq_iff "warning" "unavailable",
  eq_iff "warning" "any",
  eq_iff "unavailable" "any",
)
included-Counts fail_on warning = ground (
  arith,
  eq_iff fail_on "warning",
  eq_iff fail_on "unavailable",
  eq_iff fail_on "any",
  eq_iff fail_on "none",
  eq_iff "warning" "none",
  eq_iff "unavailable" "none",
  eq_iff "any" "none",
  eq_iff "warning" "unavailable",
  eq_iff "warning" "any",
  eq_iff "unavailable" "any",
)
included-Counts fail_on unavailable = ground (
  arith,
  eq_iff fail_on "warning",
  eq_iff fail_on "unavailable",
  eq_iff fail_on "any",
  eq_iff fail_on "none",
  eq_iff "warning" "none",
  eq_iff "unavailable" "none",
  eq_iff "any" "none",
  eq_iff "warning" "unavailable",
  eq_iff "warning" "any",
  eq_iff "unavailable" "any",
)
included-Counts fail_on candidate = ground (
  arith,
  eq_iff fail_on "warning",
  eq_iff fail_on "unavailable",
  eq_iff fail_on "any",
  eq_iff fail_on "none",
  eq_iff "warning" "none",
  eq_iff "unavailable" "none",
  eq_iff "any" "none",
  eq_iff "warning" "unavailable",
  eq_iff "warning" "any",
  eq_iff "unavailable" "any",
)

-- A finding that a policy counts.
abbrev pub IsCounted : String → Finding → Type 0
IsCounted fail_on f = (f.acknowledged ≡ false) × Counts fail_on f.severity

abbrev counted : String → Finding → Bool
counted fail_on f = not f.acknowledged && included fail_on f.severity

counted-IsCounted :
    (fail_on : String) (f : Finding) → (counted fail_on f ≡ true) ↔ IsCounted fail_on f
counted-IsCounted fail_on f = ground (arith, included-Counts fail_on f.severity)

-- With no limit, a run fails exactly when some finding is not acknowledged and has a severity that
-- the policy counts: issues unless the policy is "none", warnings from "warning" on, unavailable
-- checks from "unavailable" on, and candidates under "any" alone.
pub should_fail_lem :
    (s : State) (fail_on : String)
    → (should_fail s fail_on none ≡ true)
      ↔ ((f : Finding) × Memᴰ f s.findings × IsCounted fail_on f)
unfolding should_fail
should_fail_lem s fail_on = (
  λ h.
      let (f, m, c) =
        (any_iff (counted fail_on) s.findings).0
          ((count_if-pos (counted fail_on) s.findings).0 (ground arith)) in
      (f, m, (counted-IsCounted fail_on f).0 c),
  λ (f, m, c).
      let some_counted =
        (any_iff (counted fail_on) s.findings).1 (f, m, (counted-IsCounted fail_on f).1 c) in
      ground (arith, count_if-pos (counted fail_on) s.findings),
)

acknowledge_first-count :
    (id fail_on : String) (a : Acknowledgement) (fs : List Finding)
    → count_if (counted fail_on) (acknowledge_first id a fs).0 ≤ count_if (counted fail_on) fs
unfolding acknowledge_first
acknowledge_first-count id fail_on a [] = omega arith
acknowledge_first-count id fail_on a (f ∷ fs) =
    ground (arith, acknowledge_first-count id fail_on a fs)

pub acknowledge-policy_count :
    (s : State) (id fail_on : String) (a : Acknowledgement)
    → policy_count (acknowledge s id a).0 fail_on ≤ policy_count s fail_on
unfolding policy_count acknowledge
acknowledge-policy_count s id fail_on a = acknowledge_first-count id fail_on a s.findings

-- An acknowledgement never makes a run fail that passed, whatever the policy and the limit.
pub should_fail-acknowledge :
    (s : State) (id fail_on : String) (a : Acknowledgement) (limit : Option ℤ)
    → should_fail s fail_on limit ≡ false
    → should_fail (acknowledge s id a).0 fail_on limit ≡ false
unfolding should_fail acknowledge
should_fail-acknowledge s id fail_on a none h =
    ground (arith, acknowledge_first-count id fail_on a s.findings)
should_fail-acknowledge s id fail_on a (some (pos n)) h =
    ground (arith, acknowledge_first-count id fail_on a s.findings)
should_fail-acknowledge s id fail_on a (some (negsuc n)) h = h
