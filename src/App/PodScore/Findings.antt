-- ===== src/App/PodScore/Findings.antt =====
-- The dimensions that the findings of one area lower.
use k8s_diagnose.Prelude.{
  ℕ, String, Bool, List, [], ◌∷◌, ◌++◌, ◌+◌, ◌-◌, if◌then◌else◌, ◌==◌, ◌||◌, starts_with, concat,
  join, decimal, ltb,
}
use k8s_diagnose.Model.Types.{issue, warning, unavailable, candidate, Finding, ScoreDimension}

pub record DimensionWeights : Type 0 where
  pub issue_weight : ℕ
  pub warning_weight : ℕ
  pub candidate_weight : ℕ

abbrev pub weights : ℕ → ℕ → ℕ → DimensionWeights
weights i w c = record { issue_weight = i; warning_weight = w; candidate_weight = c }

pub record Tally : Type 0 where
  pub penalty : ℕ
  pub issues : ℕ
  pub warnings : ℕ
  pub candidates : ℕ
  pub unavailables : ℕ

abbrev empty_tally : Tally
empty_tally = record { penalty = 0; issues = 0; warnings = 0; candidates = 0; unavailables = 0 }

unfoldable pub count_finding : DimensionWeights → Finding → Tally → Tally
count_finding w f t = elim f.severity [
  | issue ↦ record t { penalty = t.penalty + w.issue_weight; issues = t.issues + 1 }
  | warning ↦ record t { penalty = t.penalty + w.warning_weight; warnings = t.warnings + 1 }
  | candidate ↦ record t { penalty = t.penalty + w.candidate_weight; candidates = t.candidates + 1 }
  | unavailable ↦ record t { unavailables = t.unavailables + 1 }
]

-- The loop over the findings.
unfoldable pub tally_from : (Finding → Bool) → DimensionWeights → List Finding → Tally → Tally
unfolding count_finding
tally_from matches w [] t = t
tally_from matches w (f ∷ fs) t =
    tally_from matches w fs (if matches f then count_finding w f t else t)

-- One part of a detail, if there is something to count.
abbrev pub part : String → ℕ → List String
part label n = if ltb 0 n then concat (label ∷ decimal n ∷ "件" ∷ []) ∷ [] else []

abbrev pub parts_or : String → List String → String
parts_or fallback [] = fallback
parts_or fallback (p ∷ ps) = join " / " (p ∷ ps)

unfoldable pub finding_dimension :
    String → String → ℕ → List Finding → (Finding → Bool) → DimensionWeights → ScoreDimension
unfolding tally_from
finding_dimension id label maximum findings matches w =
    let t = tally_from matches w findings empty_tally in
    record {
      id = id;
      label = label;
      score = maximum - t.penalty;
      maximum = maximum;
      detail = parts_or "異常所見なし" (
          part "確定異常 " t.issues
          ++ part "警告 " t.warnings
          ++ part "候補 " t.candidates
          ++ part "確認不能 " t.unavailables);
    }

unfoldable pub with_detail : ScoreDimension → String → ScoreDimension
with_detail d detail = if detail == "" then d else record d {
  detail = if d.detail == "" then detail else concat (d.detail ∷ " / " ∷ detail ∷ []);
}

unfoldable pub resource_finding : Finding → Bool
resource_finding f =
    (f.section == "構成リスク")
    || (f.section == "LimitRange")
    || (f.section == "メトリクス")
    || starts_with f.code "K8S.CONFIG."
    || starts_with f.code "K8S.LIMIT_RANGE."
    || starts_with f.code "K8S.METRICS."

unfoldable pub scheduling_finding : Finding → Bool
scheduling_finding f = (f.section == "Scheduling") || starts_with f.code "K8S.SCHEDULING."

unfoldable pub dependency_finding : Finding → Bool
dependency_finding f = (f.section == "関連リソース") || starts_with f.code "K8S.DEPENDENCY."

unfoldable pub storage_finding : Finding → Bool
storage_finding f =
    (f.section == "PVC")
    || (f.section == "PV")
    || starts_with f.code "K8S.PVC."
    || starts_with f.code "K8S.PV."

unfoldable pub probe_finding : Finding → Bool
probe_finding f =
    (f.section == "Probe")
    || (f.section == "Probe確認")
    || (f.section == "接続確認")
    || starts_with f.code "K8S.PROBE."
    || starts_with f.code "K8S.CONNECT."

unfoldable pub service_finding : Finding → Bool
service_finding f = (f.section == "Service") || starts_with f.code "K8S.SERVICE."

unfoldable pub network_policy_finding : Finding → Bool
network_policy_finding f =
    (f.section == "NetworkPolicy") || starts_with f.code "K8S.NETWORK_POLICY."

unfoldable pub ingress_tls_finding : Finding → Bool
ingress_tls_finding f =
    (f.section == "Ingress")
    || (f.section == "TLS")
    || starts_with f.code "K8S.INGRESS."
    || starts_with f.code "K8S.TLS."
