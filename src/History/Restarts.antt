-- ===== src/History/Restarts.antt =====
-- Containers whose restarts keep growing: the second loop of `Analyze`.
pub mod Growing
use k8s_diagnose.Prelude.{
  ℕ, suc, String, Bool, true, false, not, Option, none, some, List, [], ◌∷◌, ◌++◌, ◌==◌, ◌||◌, ◌&&◌,
  if◌then◌else◌, concat, join, lookup, ltb, ℤ, pos, int_ltb, int_add, int_neg, map, length, decimal,
  int_decimal, last_or,
}
use k8s_diagnose.Report.Json.{Json, null, field, string_field}
use k8s_diagnose.Report.Findings.{Objects}
use k8s_diagnose.History.Samples.{int_value}
use k8s_diagnose.History.Flaps.{Trend}

abbrev pub with_record : Option Json → List Json → List Json
with_record none records = records
with_record (some r) records = r ∷ records

-- The records of one container in the samples that have it, the oldest first.
unfoldable pub records_of : String → List Objects → List Json
unfolding lookup
records_of key [] = []
records_of key (m ∷ ms) = with_record (lookup key m) (records_of key ms)

unfoldable pub restart_count : Json → ℤ
unfolding int_value field
restart_count r = int_value (field "restart_count" r)

unfoldable pub increases_from : ℤ → List ℤ → ℕ
increases_from a [] = 0
increases_from a (b ∷ bs) = if int_ltb a b then suc (increases_from b bs) else increases_from b bs

unfoldable pub is_decreasing_from : ℤ → List ℤ → Bool
is_decreasing_from a [] = false
is_decreasing_from a (b ∷ bs) = int_ltb b a || is_decreasing_from b bs

-- `counts[len(counts)-1] - counts[0]`
unfoldable pub growth_of : ℤ → List ℤ → ℤ
growth_of a bs = int_add (last_or a bs) (int_neg a)

-- Both guards before growth is reported, negated, for the counts `a ∷ bs`.
unfoldable pub is_growing : ℤ → ℤ → List ℤ → Bool
unfolding increases_from is_decreasing_from growth_of
is_growing restart_growth a bs =
    ltb 1 (length bs)
    && ltb 1 (increases_from a bs)
    && not (is_decreasing_from a bs)
    && not (int_ltb (growth_of a bs) restart_growth)

unfoldable pub restart_trend : Json → ℤ → List ℤ → Trend
unfolding growth_of concat join decimal int_decimal string_field
restart_trend latest a bs = record {
  type = "restart_growth";
  code = "K8S.HISTORY.RESTART_GROWTH";
  resource = string_field latest "resource";
  confidence = pos 95;
  message = concat (
      "リソース "
      ∷ string_field latest "resource"
      ∷ " のコンテナ "
      ∷ string_field latest "container"
      ∷ " では、再起動回数が直近 "
      ∷ decimal (suc (length bs))
      ∷ "回の診断で "
      ∷ int_decimal a
      ∷ "回から "
      ∷ int_decimal (last_or a bs)
      ∷ "回へ増加しました"
      ∷ []);
  evidence =
      concat ("restartCounts=" ∷ join "→" (map int_decimal (a ∷ bs)) ∷ [])
      ∷ concat ("podUID=" ∷ string_field latest "pod_uid" ∷ [])
      ∷ [];
  transitions = 0;
  states = [];
  growth = growth_of a bs;
}

-- The body of the loop, from the records of one container.
unfoldable pub growth_trends : ℤ → List Json → List Trend
unfolding is_growing restart_trend restart_count
growth_trends restart_growth [] = []
growth_trends restart_growth (r ∷ rs) =
    let counts = map restart_count rs in
    if is_growing restart_growth (restart_count r) counts
    then restart_trend (last_or r rs) (restart_count r) counts ∷ []
    else []

unfoldable pub restarts : ℤ → List Objects → List String → List Trend
unfolding growth_trends records_of
restarts restart_growth samples [] = []
restarts restart_growth samples (k ∷ ks) =
    growth_trends restart_growth (records_of k samples) ++ restarts restart_growth samples ks
