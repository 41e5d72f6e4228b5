-- ===== src/Model/Types.antt =====
-- The data of internal/model/model.go. `confidence` and the scoped score can be negative in the
-- source and are integers; counters, depths and penalties are built non-negative.
use k8s_diagnose.Prelude.{ℕ, String, Bool, Option, List, ℤ}
use Prim.Native.Char.{nul}
use Prim.Native.String.{◌∷◌}

-- The four constants of the string type `Severity`.
pub data Severity : Type 0 where
  issue warning unavailable candidate : Severity

abbrev pub severity_text : Severity → String
severity_text issue = "issue"
severity_text warning = "warning"
severity_text unavailable = "unavailable"
severity_text candidate = "candidate"

abbrev pub severity_eq : Severity → Severity → Bool
severity_eq issue issue = Bool.true
severity_eq warning warning = Bool.true
severity_eq unavailable unavailable = Bool.true
severity_eq candidate candidate = Bool.true
severity_eq _ _ = Bool.false

-- "\x00", which separates the parts of a key
abbrev pub separator : String
separator = nul ∷ ""

pub record Evidence : Type 0 where
  pub kind : String
  pub key : String
  pub value : String

pub record Acknowledgement : Type 0 where
  pub rule_id : String
  pub reason : String
  pub expires : String
  pub source : String
  pub workload : String

pub record Finding : Type 0 where
  pub id : String
  pub rule_id : String
  pub code : String
  pub severity : Severity
  pub section : String
  pub message : String
  pub resource : String
  pub reason : String
  pub stable_key : String
  pub confidence : ℤ
  pub evidence : List Evidence
  pub acknowledged : Bool
  pub acknowledgement : Option Acknowledgement

pub record Impact : Type 0 where
  pub resource : String
  pub kind : String
  pub message : String
  pub relation : String
  pub depth : ℕ
  pub finding_ids : List String
  pub path : List String
  pub path_relations : List String

pub record RootCause : Type 0 where
  pub id : String
  pub confirmed : Bool
  pub classification : String
  pub label : String
  pub confidence : ℤ
  pub cause : Finding
  pub evidence : List Evidence
  pub direct_impacts : List Impact
  pub propagated_impacts : List Impact
  pub impact_summary : List (String × ℕ)
  pub remediations : List String
  pub commands : List String
  pub related_finding_ids : List String
  pub health_penalty : ℕ

pub record Check : Type 0 where
  pub id : String
  pub section : String
  pub description : String
  pub available : Bool
  pub reason : String

pub record ScoreDimension : Type 0 where
  pub id : String
  pub label : String
  pub score : ℕ
  pub maximum : ℕ
  pub detail : String

pub record ScopedScore : Type 0 where
  pub kind : String
  pub resource : String
  pub score : ℤ
  pub maximum : ℤ
  pub dimensions : List ScoreDimension

-- The values that are observed: a `map[string]any` of texts and of one counter.
pub data Scalar : Type 0 where
  text : String → Scalar
  number : ℕ → Scalar

-- The mutex is left out: each operation holds it from start to end. `seen` and each level of
-- `observations` are maps, kept as lists.
pub record State : Type 0 where
  pub findings : List Finding
  pub root_causes : List RootCause
  pub checks : List Check
  pub observations : List (String × List (String × List (String × Scalar)))
  pub scoped_score : Option ScopedScore
  pub seen : List String
