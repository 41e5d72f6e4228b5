-- ===== src/App/PodScore/Runtime.antt =====
-- The dimension of restarts and logs.
use k8s_diagnose.Prelude.{
  ℕ, ℤ, String, Bool, true, false, not, Option, none, some, List, [], ◌∷◌, ◌++◌, ◌+◌, ◌-◌, pos,
  if◌then◌else◌, ◌==◌, ◌&&◌, ◌||◌, starts_with, contains, keep, nat_eq, int_eq,
}
use k8s_diagnose.Model.Types.{warning, unavailable, candidate, severity_eq, Finding, ScoreDimension}
use k8s_diagnose.Kube.Types.{ContainerStatus, Container, Pod}
use k8s_diagnose.App.PodScore.Parts.{is_sidecar, is_starting}
use k8s_diagnose.App.PodScore.Findings.{part, parts_or}

unfoldable pub restartable_init : List Container → List String
restartable_init [] = []
restartable_init (c ∷ cs) =
    let rest = restartable_init cs in if is_sidecar c then c.name ∷ rest else rest

-- A nil `Terminated`, or an exit code other than 0.
abbrev pub not_completed : Option ℤ → Bool
not_completed none = true
not_completed (some code) = not (int_eq code (pos 0))

-- The containers' statuses, then those of the init containers that still tell of the Pod's health.
unfoldable pub runtime_statuses : Pod → List ContainerStatus
unfolding restartable_init
runtime_statuses pod =
    pod.container_statuses
    ++ keep
        (λ s.
          contains (restartable_init pod.init_containers) s.name
          || not_completed s.state.terminated)
        pod.init_container_statuses

abbrev is_stuck : Option String → Bool
is_stuck none = false
is_stuck (some reason) = not (is_starting reason)

abbrev is_failed : String → Option ℤ → Bool
is_failed phase none = false
is_failed phase (some code) = not ((phase == "Succeeded") && int_eq code (pos 0))

-- The two cases of the switch, which do the same.
unfoldable pub is_abnormal : Pod → ContainerStatus → Bool
is_abnormal pod s = is_stuck s.state.waiting || is_failed pod.phase s.state.terminated

pub record RuntimeTally : Type 0 where
  pub penalty : ℕ
  pub restarts : ℕ
  pub logs : ℕ
  pub runtime : ℕ
  pub unavailables : ℕ

abbrev no_runtime : RuntimeTally
no_runtime = record { penalty = 0; restarts = 0; logs = 0; runtime = 0; unavailables = 0 }

unfoldable pub runtime_from : Pod → List ContainerStatus → RuntimeTally → RuntimeTally
unfolding is_abnormal
runtime_from pod [] t = t
runtime_from pod (s ∷ ss) t = runtime_from pod ss (
    if is_abnormal pod s then record t { penalty = t.penalty + 10; runtime = t.runtime + 1 } else t)

unfoldable pub count_runtime : Finding → RuntimeTally → RuntimeTally
count_runtime f t =
    if severity_eq f.severity unavailable && (f.section == "ログ")
    then record t { unavailables = t.unavailables + 1 }
    else if (f.code == "K8S.POD.ABNORMAL_STATE") || (f.code == "K8S.POD.FAILED_PHASE")
    then (if nat_eq t.runtime 0
        then record t { penalty = t.penalty + 10; runtime = t.runtime + 1 }
        else t)
    else if f.code == "K8S.POD.PREVIOUS_OOM_KILLED"
    then record t { penalty = t.penalty + 6; restarts = t.restarts + 1 }
    else if f.code == "K8S.POD.RECENT_RESTARTS"
    then record t { penalty = t.penalty + 4; restarts = t.restarts + 1 }
    else if (f.code == "K8S.POD.NON_RUNNING_STATE") || (f.code == "K8S.POD.JOB_ATTEMPT_FAILED")
    then record t { penalty = t.penalty + 4; runtime = t.runtime + 1 }
    else if starts_with f.code "K8S.LOG." && severity_eq f.severity warning
    then record t { penalty = t.penalty + 4; logs = t.logs + 1 }
    else if starts_with f.code "K8S.LOG." && severity_eq f.severity candidate
    then record t { penalty = t.penalty + 2; logs = t.logs + 1 }
    else t

unfoldable pub runtime_findings : List Finding → RuntimeTally → RuntimeTally
unfolding count_runtime
runtime_findings [] t = t
runtime_findings (f ∷ fs) t = runtime_findings fs (count_runtime f t)

unfoldable pub restart_log_dimension : Pod → List Finding → ScoreDimension
unfolding runtime_statuses runtime_from runtime_findings
restart_log_dimension pod findings =
    let t = runtime_findings findings (runtime_from pod (runtime_statuses pod) no_runtime) in
    record {
      id = "restart-log";
      label = "再起動・ログ";
      score = 10 - t.penalty;
      maximum = 10;
      detail = parts_or "直近異常所見なし" (
          part "実行異常 " t.runtime
          ++ part "再起動・OOM " t.restarts
          ++ part "ログ署名 " t.logs
          ++ part "ログ確認不能 " t.unavailables);
    }
