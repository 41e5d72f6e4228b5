-- ===== src/History/Analysis/Trends.antt =====
-- What `Analyze` reports.
use k8s_diagnose.Prelude.{
  List, ◌⊎◌, inl, inr, ℤ, map, All, All-append, All-weaken, All-of_Memᴰ, All-Memᴰ,
}
use k8s_diagnose.Prelude.Sort.{Memᴰ-sort}
use k8s_diagnose.Report.Json.{Json}
use k8s_diagnose.History.Samples.{active_finding_map, restart_map, sample_keys}
use k8s_diagnose.History.Flaps.{Trend, flaps}
use k8s_diagnose.History.Flaps.Runs.{IsFlap, flaps-IsFlap}
use k8s_diagnose.History.Restarts.{restarts}
use k8s_diagnose.History.Restarts.Growing.{IsGrowth, restarts-IsGrowth}
use k8s_diagnose.History.Analysis.{analyze, all_trends, recent, sample_of, trend_less}

module _ (documents : List Json) (threshold growth : ℤ) where
  -- A flap of an active finding, or growth of the restarts of a container.
  abbrev pub IsTrend : Trend → Type 0
  IsTrend t =
      IsFlap threshold (map sample_of documents) t ⊎ IsGrowth growth (map restart_map documents) t

  all_trends-IsTrend : All IsTrend (all_trends documents threshold growth).0
  unfolding all_trends
  all_trends-IsTrend =
      let samples = map sample_of documents in
      let counters = map restart_map documents in
      let flapping =
        flaps-IsFlap threshold samples (sample_keys (map active_finding_map documents)) in
      let growing = restarts-IsGrowth growth counters (sample_keys counters) in
      All-append IsTrend
        (flaps threshold samples (sample_keys (map active_finding_map documents))).0
        (restarts growth counters (sample_keys counters))
        (All-weaken (IsFlap threshold samples) IsTrend _ (λ t h. inl h) flapping)
        (All-weaken (IsGrowth growth counters) IsTrend _ (λ t h. inr h) growing)

-- Each trend that `Analyze` reports is the flap of one key that is active in a sample of the
-- window, with both states among its own and the threshold reached by its transitions; or it is the
-- growth of one container, whose counts in three samples or more never fall, rise at least twice and
-- gain the threshold or more.
pub analyze-IsTrend :
    (previous : List Json) (current : Json) (window threshold growth : ℤ)
    → All
        (IsTrend (recent previous current window) threshold growth)
        (analyze previous current window threshold growth).trends
unfolding analyze
analyze-IsTrend previous current window threshold growth = All-of_Memᴰ _ _ (λ t m.
    All-Memᴰ _ _ (all_trends-IsTrend (recent previous current window) threshold growth)
      ((Memᴰ-sort trend_less t _).0 m))
