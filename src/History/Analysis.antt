-- ===== src/History/Analysis.antt =====
-- `Analyze` and `AddFindings`.
pub mod Trends
pub mod Reported
pub mod Window
use k8s_diagnose.Prelude.{
  ℕ, zero, suc, String, Bool, true, false, not, List, [], ◌∷◌, ◌++◌, ◌-◌, if◌then◌else◌, concat,
  ltb, ℤ, pos, int_ltb, pos_part, map, length, text_lt,
}
use k8s_diagnose.Prelude.Sort.{sort}
use k8s_diagnose.Report.Json.{Json}
use k8s_diagnose.Report.Findings.{Objects}
use k8s_diagnose.Model.Types.{warning, separator, Evidence, Finding, State}
use k8s_diagnose.Model.Finding.{new_finding}
use k8s_diagnose.Model.State.{add, set_root_causes}
use k8s_diagnose.History.Samples.{active_finding_map, restart_map, sample_keys}
use k8s_diagnose.History.Flaps.{Trend, Sample, flaps}
use k8s_diagnose.History.Restarts.{restarts}

-- The schema is a constant.
pub record Analysis : Type 0 where
  pub samples : ℕ
  pub window : ℕ
  pub flap_threshold : ℤ
  pub restart_growth : ℤ
  pub unknown_evaluations : ℕ
  pub trends : List Trend

unfoldable pub window_of : ℤ → ℕ
window_of w = if int_ltb w (pos 2) then 2 else pos_part w

unfoldable pub drop : ℕ → List Json → List Json
drop zero xs = xs
drop (suc n) [] = []
drop (suc n) (x ∷ xs) = drop n xs

-- The last `window` samples, the current one included.
unfoldable pub recent : List Json → Json → ℤ → List Json
unfolding window_of drop
recent previous current w =
    let samples = previous ++ current ∷ [] in
    if ltb (window_of w) (length samples)
    then drop (length samples - window_of w) samples
    else samples

unfoldable pub trend_key : Trend → String
unfolding concat
trend_key t = concat (t.type ∷ separator ∷ t.resource ∷ [])

unfoldable pub trend_less : Trend → Trend → Bool
unfolding trend_key
trend_less a b = text_lt (trend_key a) (trend_key b)

unfoldable pub sample_of : Json → Sample
unfolding active_finding_map
sample_of document = record { document = document; active = active_finding_map document }

-- Both loops, over the samples of the window.
unfoldable pub all_trends : List Json → ℤ → ℤ → List Trend × ℕ
unfolding sample_of flaps restarts restart_map sample_keys
all_trends documents threshold restart_growth =
    let samples = map sample_of documents in
    let counters = map restart_map documents in
    let (flapping, unknowns) =
      flaps threshold samples (sample_keys (map active_finding_map documents)) in
    (flapping ++ restarts restart_growth counters (sample_keys counters), unknowns)

unfoldable pub analyze : List Json → Json → ℤ → ℤ → ℤ → Analysis
unfolding recent all_trends trend_less sort window_of
analyze previous current window threshold restart_growth =
    let documents = recent previous current window in
    let (trends, unknowns) = all_trends documents threshold restart_growth in
    record {
      samples = length documents;
      window = window_of window;
      flap_threshold = threshold;
      restart_growth = restart_growth;
      unknown_evaluations = unknowns;
      trends = sort trend_less trends;
    }

abbrev pub history_evidence : String → Evidence
history_evidence value = record { kind = "history"; key = ""; value = value }

module _ (digest : String → String) where
  -- The finding that a trend becomes.
  unfoldable pub trend_finding : Trend → Finding
  unfolding new_finding
  trend_finding t =
      new_finding digest warning t.code "履歴トレンド" t.resource t.type t.type t.message t.confidence
        (map history_evidence t.evidence)

  unfoldable pub add_trends : State → List Trend → State
  unfolding add trend_finding
  add_trends s [] = s
  add_trends s (t ∷ ts) = add_trends (add digest s (trend_finding t)) ts

  -- `AddFindings`
  unfoldable pub add_findings : State → Analysis → State
  unfolding add_trends set_root_causes
  add_findings s analysis = set_root_causes (add_trends s analysis.trends) s.root_causes
