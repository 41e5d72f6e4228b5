-- ===== src/History/Samples.antt =====
-- What the analysis takes from a report: the active findings and the restart counters, by their keys.
use k8s_diagnose.Prelude.{
  ℕ, String, Bool, true, false, Option, none, some, List, [], ◌∷◌, ◌++◌, ◌+◌, ◌*◌, ◌-◌, ◌==◌, ◌||◌,
  ◌&&◌, if◌then◌else◌, concat, contains, put, leb, ℤ, pos, neg, starts_with, min, nat_eq,
}
use Prim.Native.Char.{code}
use k8s_diagnose.Prelude.Sort.{sort_strings}
use k8s_diagnose.Model.Types.{separator}
use k8s_diagnose.Report.Json.{
  Json, null, bool, number, text, array, object, sprint, field, objects, string_field, boolean,
}
use k8s_diagnose.Report.Findings.{Objects, keys, finding_objects}

-- The value of a digit, if it is one.
abbrev digit_value : ℕ → Option ℕ
digit_value c = if leb b'0' c && leb c b'9' then some (c - b'0') else none

-- The digits read so far, or none where there was another character.
digits_from : Option ℕ → String → Option ℕ
digits_from acc String.[] = acc
digits_from none (String.◌∷◌ c s) = none
digits_from (some n) (String.◌∷◌ c s) =
    digits_from (elim (digit_value (code c)) [ none ↦ none | some d ↦ some (n * 10 + d) ]) s

-- Out of the range of 64 bits, the nearest number within it.
natural_or : Bool → String → ℤ
unfolding digits_from
natural_or negative String.[] = pos 0
natural_or negative (String.◌∷◌ c s) = elim (digits_from (some 0) (String.◌∷◌ c s)) [
  | none ↦ pos 0
  | some n ↦ if negative then neg (min n 9223372036854775808) else pos (min n 9223372036854775807)
]

-- `strconv.Atoi` and `json.Number.Int64` without the error: a malformed text gives 0.
unfoldable pub parse_int : String → ℤ
unfolding natural_or
parse_int String.[] = pos 0
parse_int (String.◌∷◌ c s) =
    if nat_eq (code c) b'-'
    then natural_or true s
    else if nat_eq (code c) b'+'
    then natural_or false s
    else natural_or false (String.◌∷◌ c s)

-- `intValue`; a number that the program made itself is an integer.
unfoldable pub int_value : Json → ℤ
unfolding parse_int sprint
int_value (number n) = parse_int n
int_value null = parse_int "<nil>"
int_value (bool b) = parse_int (sprint (bool b))
int_value (text s) = parse_int s
int_value (array xs) = parse_int (sprint (array xs))
int_value (object fs) = parse_int (sprint (object fs))

-- The guard of the loop of `activeFindingMap`.
unfoldable pub is_inactive : Json → Bool
unfolding string_field field boolean
is_inactive f =
    string_field f "code" == ""
    || string_field f "resource" == ""
    || starts_with (string_field f "code") "K8S.HISTORY."
    || string_field f "severity" == "unavailable"
    || boolean (field "acknowledged" f)

unfoldable pub active_key : Json → String
unfolding string_field concat
active_key f = concat (string_field f "code" ∷ separator ∷ string_field f "resource" ∷ [])

unfoldable pub active_from : List Json → Objects → Objects
unfolding is_inactive active_key put
active_from [] m = m
active_from (f ∷ fs) m = active_from fs (if is_inactive f then m else put (active_key f) f m)

unfoldable pub active_finding_map : Json → Objects
unfolding active_from finding_objects
active_finding_map document = active_from (finding_objects document) []

unfoldable pub restarts_from : List Json → Objects → Objects
unfolding string_field put
restarts_from [] m = m
restarts_from (v ∷ vs) m =
    restarts_from vs (if string_field v "id" == "" then m else put (string_field v "id") v m)

unfoldable pub restart_map : Json → Objects
unfolding restarts_from objects field
restart_map document =
    restarts_from (objects (field "pod_restarts" (field "observations" document))) []

unfoldable pub add_keys : List String → List String → List String
add_keys [] set = set
add_keys (k ∷ ks) set = add_keys ks (if contains set k then set else set ++ k ∷ [])

unfoldable pub all_keys : List Objects → List String → List String
unfolding add_keys
all_keys [] set = set
all_keys (m ∷ ms) set = all_keys ms (add_keys (keys m) set)

-- The keys of all samples, sorted.
unfoldable pub sample_keys : List Objects → List String
unfolding all_keys sort_strings
sample_keys samples = sort_strings (all_keys samples [])
