-- ===== src/History/Flaps.antt =====
-- Findings that come and go: the first loop of `Analyze`.
pub mod Runs
use k8s_diagnose.Prelude.{
  ℕ, suc, String, Bool, true, false, not, Option, none, some, List, [], ◌∷◌, ◌++◌, ◌+◌, ◌==◌, ◌||◌,
  ◌&&◌, if◌then◌else◌, concat, join, lookup, is_some, ltb, ℤ, pos, int_ltb, map, length, decimal,
  any, count_if,
}
use mathlib.Core.List.{reverse}
use k8s_diagnose.Report.Json.{Json, string_field}
use k8s_diagnose.Report.Findings.{Objects, evaluation_unavailable}

-- The three texts of the states.
pub data Evaluation : Type 0 where
  abnormal unknown normal : Evaluation

abbrev pub evaluation_eq : Evaluation → Evaluation → Bool
evaluation_eq abnormal abnormal = true
evaluation_eq unknown unknown = true
evaluation_eq normal normal = true
evaluation_eq _ _ = false

-- The map of the labels.
abbrev pub label : Evaluation → String
label abnormal = "異常"
label unknown = "確認不能"
label normal = "正常"

-- `growth` is 0 for a flap, and `transitions` and `states` are empty for growth.
pub record Trend : Type 0 where
  pub type : String
  pub code : String
  pub resource : String
  pub confidence : ℤ
  pub message : String
  pub evidence : List String
  pub transitions : ℕ
  pub states : List Evaluation
  pub growth : ℤ

-- A report with its active findings.
pub record Sample : Type 0 where
  pub document : Json
  pub active : Objects

abbrev pub or_else : Option Json → Option Json → Option Json
or_else none other = other
or_else (some v) other = some v

-- The value in the first sample that has one.
unfoldable pub first_value : String → List Objects → Option Json
unfolding lookup
first_value key [] = none
first_value key (m ∷ ms) = or_else (lookup key m) (first_value key ms)

-- The loop for `latest`, from the last sample to the first.
unfoldable pub latest : String → List Objects → Option Json
unfolding first_value
latest key samples = first_value key (reverse samples)

unfoldable pub evaluation : String → Json → Sample → Evaluation
unfolding lookup evaluation_unavailable
evaluation key latest s =
    if is_some (lookup key s.active)
    then abnormal
    else if evaluation_unavailable s.document latest
    then unknown
    else normal

-- The test of the loop over the states.
unfoldable pub is_transition : Evaluation → Evaluation → Bool
is_transition a b =
    not (evaluation_eq a unknown) && not (evaluation_eq b unknown) && not (evaluation_eq a b)

unfoldable pub transitions_from : Evaluation → List Evaluation → ℕ
unfolding is_transition
transitions_from a [] = 0
transitions_from a (b ∷ bs) =
    if is_transition a b then suc (transitions_from b bs) else transitions_from b bs

unfoldable pub transitions_of : List Evaluation → ℕ
unfolding transitions_from
transitions_of [] = 0
transitions_of (a ∷ bs) = transitions_from a bs

-- `containsState`
unfoldable pub contains_state : List Evaluation → Evaluation → Bool
contains_state states target = any (λ s. evaluation_eq s target) states

-- The guard before a flap is reported, negated.
unfoldable pub is_flap : ℤ → List Evaluation → Bool
unfolding transitions_of contains_state
is_flap threshold states =
    not (int_ltb (pos (transitions_of states)) threshold)
    && contains_state states abnormal
    && contains_state states normal

unfoldable pub flap_trend : Json → List Evaluation → Trend
unfolding transitions_of concat join decimal string_field
flap_trend latest states = record {
  type = "finding_flap";
  code = "K8S.HISTORY.FINDING_FLAP";
  resource = string_field latest "resource";
  confidence = pos 85;
  message = concat (
      "リソース "
      ∷ string_field latest "resource"
      ∷ " の所見 "
      ∷ string_field latest "code"
      ∷ " は、直近 "
      ∷ decimal (length states)
      ∷ "回の診断で発生と解消を "
      ∷ decimal (transitions_of states)
      ∷ "回繰り返しています"
      ∷ []);
  evidence =
      concat ("states=" ∷ join " → " (map label states) ∷ [])
      ∷ concat ("sourceCode=" ∷ string_field latest "code" ∷ [])
      ∷ [];
  transitions = transitions_of states;
  states = states;
  growth = pos 0;
}

abbrev pub states_of : String → Json → List Sample → List Evaluation
unfolding evaluation
states_of key latest samples = map (evaluation key latest) samples

abbrev pub actives : List Sample → List Objects
actives samples = map (λ (s : Sample). s.active) samples

abbrev pub flaps_of : ℤ → Json → List Evaluation → List Trend
unfolding is_flap flap_trend
flaps_of threshold latest states =
    if is_flap threshold states then flap_trend latest states ∷ [] else []

unfoldable pub with_states : List Sample → String → Option Json → Option (Json × List Evaluation)
unfolding evaluation
with_states samples key none = none
with_states samples key (some value) = some (value, states_of key value samples)

-- The states of one key, with the latest finding; none where no sample has the key.
unfoldable pub evaluated : List Sample → String → Option (Json × List Evaluation)
unfolding latest with_states
evaluated samples key = with_states samples key (latest key (actives samples))

-- The body of the loop over the keys, before the results of the keys after it.
unfoldable pub add_flaps : ℤ → Option (Json × List Evaluation) → List Trend × ℕ → List Trend × ℕ
unfolding is_flap flap_trend
add_flaps threshold none rest = rest
add_flaps threshold (some (value, states)) (trends, unknowns) = (
  flaps_of threshold value states ++ trends,
  count_if (λ s. evaluation_eq s unknown) states + unknowns,
)

-- The trends, and the number of evaluations that were not possible.
unfoldable pub flaps : ℤ → List Sample → List String → List Trend × ℕ
unfolding evaluated add_flaps
flaps threshold samples [] = ([], 0)
flaps threshold samples (k ∷ ks) =
    add_flaps threshold (evaluated samples k) (flaps threshold samples ks)
