-- ===== src/Model/State.antt =====
-- The operations of `State`, each from the state before to the state after.
pub mod Invariant
pub mod Runs
pub mod Order
use k8s_diagnose.Prelude.{
  ℕ, String, Bool, true, false, not, Option, none, some, List, [], ◌∷◌, ◌++◌, ℤ, pos, int_min,
  int_max, int_ltb, if◌then◌else◌, ◌==◌, ◌&&◌, ◌||◌, contains, keep, count_if, concat, nat_eq, ltb,
  text_lt, put,
}
use k8s_diagnose.Prelude.Sort.{sort}
use k8s_diagnose.Model.Types.{
  Severity, issue, warning, unavailable, candidate, severity_eq, separator, Finding, RootCause,
  Acknowledgement, Check, ScopedScore, Scalar, State,
}
use k8s_diagnose.Model.Finding.{fingerprint}

unfoldable pub new_state : State
new_state = record {
  findings = [];
  root_causes = [];
  checks = [];
  observations = [];
  scoped_score = none;
  seen = [];
}

module _ (digest : String → String) where
  -- `key := f.ID; if key == "" { key = f.Fingerprint() }`
  unfoldable pub finding_key : Finding → String
  finding_key f = if f.id == "" then fingerprint digest f else f.id

  unfoldable pub add : State → Finding → State
  unfolding finding_key
  add s f = if contains s.seen (finding_key f) then s else record s {
    seen = s.seen ++ finding_key f ∷ [];
    findings = s.findings ++ f ∷ [];
    root_causes = [];
  }

unfoldable pub put_check : Check → List Check → List Check
put_check check [] = check ∷ []
put_check check (c ∷ cs) =
    let rest = put_check check cs in if c.id == check.id then check ∷ cs else c ∷ rest

unfoldable pub add_check : State → Check → State
unfolding put_check
add_check s check = record s { checks = put_check check s.checks }

unfoldable pub get_map {ℓ} : {V : Type ℓ} → String → List (String × List V) → List V
get_map k [] = []
get_map k ((j, w) ∷ m) = let rest = get_map k m in if j == k then w else rest

unfoldable pub observe : State → String → String → List (String × Scalar) → State
unfolding put get_map
observe s category id value = if category == "" || id == "" then s else record s {
  observations = put category (put id value (get_map category s.observations)) s.observations;
}

unfoldable pub by_severity : State → Severity → Bool → List Finding
by_severity s severity active_only =
    keep (λ f. severity_eq f.severity severity && (not active_only || not f.acknowledged))
      s.findings

unfoldable pub set_root_causes : State → List RootCause → State
set_root_causes s values = record s { root_causes = values }

unfoldable pub set_scoped_score : State → ScopedScore → State
set_scoped_score s value = record s {
  scoped_score =
      some (record value { score = int_max (pos 0) (int_min value.maximum value.score) });
}

-- The caller gets a copy.
unfoldable pub scoped_score_value : State → Option ScopedScore
scoped_score_value s = s.scoped_score

abbrev pub mark : Finding → Acknowledgement → Finding
mark f a = record f { acknowledged = true; acknowledgement = some a }

-- The loop of `Acknowledge`: the first finding with the ID is marked, and the flag says if one was.
unfoldable pub acknowledge_first : String → Acknowledgement → List Finding → List Finding × Bool
acknowledge_first id a [] = ([], false)
acknowledge_first id a (f ∷ fs) =
    let (rest, found) = acknowledge_first id a fs in
    if f.id == id then (mark f a ∷ fs, true) else (f ∷ rest, found)

unfoldable pub acknowledge : State → String → Acknowledgement → State × Bool
unfolding acknowledge_first
acknowledge s id a =
    let (findings, found) = acknowledge_first id a s.findings in
    (record s { findings = findings }, found)

-- The map `weight`.
unfoldable pub weight : Severity → ℕ
weight issue = 0
weight warning = 1
weight unavailable = 2
weight candidate = 3

-- `fmt.Sprintf("%s\x00%s", f.Resource, f.Code)`
unfoldable pub place : Finding → String
unfolding concat
place f = concat (f.resource ∷ separator ∷ f.code ∷ [])

-- The comparison of `Sort`.
unfoldable pub finding_less : Finding → Finding → Bool
unfolding weight place
finding_less a b =
    if nat_eq (weight a.severity) (weight b.severity)
    then (if a.section == b.section
        then text_lt (place a) (place b)
        else text_lt a.section b.section)
    else ltb (weight a.severity) (weight b.severity)

unfoldable pub sort_findings : State → State
unfolding finding_less sort
sort_findings s = record s { findings = sort finding_less s.findings }
