-- ===== src/Tests/Samples.antt =====
-- A Secret that is missing, a Pod that crashes without it, and the Deployment behind the Pod.
use k8s_diagnose.Prelude.{ℕ, String, Bool, true, false, none, List, [], ◌∷◌, pos}
use k8s_diagnose.Model.Types.{
  Severity, issue, Evidence, Finding, Acknowledgement, State, ScopedScore,
}
use k8s_diagnose.Rules.Graph.{Edge, Graph}
use k8s_diagnose.Rules.Registry.{Rule}
use k8s_diagnose.Baseline.Scope
use k8s_diagnose.Kube.Types.{Container, FetchStatus, Pod, Snapshot}
use k8s_diagnose.Kube.Commands.{Config}

-- In place of the digest, the text itself.
abbrev pub digest : String → String
digest text = text

abbrev pub degraded : String → String
degraded resource = "degraded"

abbrev pub finding : String → String → Severity → String → ℕ → Finding
finding id code severity resource confidence = record {
  id = id;
  rule_id = "";
  code = code;
  severity = severity;
  section = "Pod";
  message = "message";
  resource = resource;
  reason = "reason";
  stable_key = "key";
  confidence = pos confidence;
  evidence = [];
  acknowledged = false;
  acknowledgement = none;
}

abbrev pub cause : Finding
cause = finding "f1" "K8S.DEPENDENCY.MISSING_OBJECT" issue "Secret/a/db" 95

abbrev pub symptom : Finding
symptom = finding "f2" "K8S.POD.ABNORMAL_STATE" issue "Pod/a/web" 90

abbrev pub state : State
state = record {
  findings = cause ∷ symptom ∷ [];
  root_causes = [];
  checks = [];
  observations = [];
  scoped_score = none;
  seen = "f1" ∷ "f2" ∷ [];
}

abbrev pub edge : String → Edge
edge to = record { to = to; relation = "uses"; key = "" }

abbrev pub graph : Graph
graph =
    ("Secret/a/db", edge "Pod/a/web" ∷ [])
    ∷ ("Pod/a/web", edge "Deployment/a/web" ∷ edge "Secret/a/db" ∷ [])
    ∷ []

abbrev pub acknowledgement : Acknowledgement
acknowledgement = record {
  rule_id = "r1";
  reason = "known";
  expires = "2030-01-01";
  source = "file";
  workload = "";
}

abbrev pub score : ScopedScore
score = record {
  kind = "Pod";
  resource = "Pod/a/web";
  score = pos 45;
  maximum = pos 90;
  dimensions = [];
}

abbrev pub checks_state : State
checks_state = record state {
  checks =
      record { id = "c1"; section = "Pod"; description = ""; available = true; reason = "" }
      ∷ record { id = "c2"; section = "Pod"; description = ""; available = false; reason = "" }
      ∷ [];
}

abbrev pub rule : String → String → Scope.Rule
rule id expires = record {
  id = id;
  code = "K8S.POD.*";
  namespace = "";
  workload = "";
  resource = "";
  reason = "known";
  expires = expires;
  source = "file";
}

abbrev pub baseline : String → Scope.Baseline
baseline expires = record { path = "baseline.yaml"; rules = rule "r1" expires ∷ [] }

abbrev pub evidence : Evidence
evidence = record { kind = "api"; key = "reason"; value = "timeout" }

abbrev pub config : Config
config = record {
  kubeconfig = "";
  context = "dev";
  request_timeout = pos 10;
  namespace = "a";
  page_size = pos 0;
  mode = "full";
}

abbrev pub status_of : Bool → FetchStatus
status_of available = record { available = available; status = "forbidden"; reason = "denied" }

abbrev pub web_container : Container
web_container = record {
  name = "web";
  restart_policy = none;
  memory_limit = pos 0;
  env_from = [];
  env = [];
  readiness_probe = true;
  liveness_probe = false;
  startup_probe = false;
}

abbrev pub pod : Pod
pod = record {
  namespace = "a";
  name = "web";
  uid = "u1";
  deleting = false;
  phase = "Running";
  conditions = record { kind = "Ready"; status = "True" } ∷ [];
  init_container_statuses = [];
  container_statuses =
      record {
        name = "web";
        ready = true;
        restart_count = 1;
        state = record { running = true; waiting = none; terminated = none };
      }
      ∷ [];
  ephemeral_container_statuses = [];
  init_containers = [];
  containers = web_container ∷ [];
  ephemeral_containers = [];
  image_pull_secrets = [];
  volumes = [];
  pod_memory_limit = none;
  node_name = "";
}

abbrev pub snapshot : Snapshot
snapshot = record {
  statuses = ("pods", status_of true) ∷ ("secrets", status_of false) ∷ [];
  pods = pod ∷ [];
  nodes = [];
  pod_metrics = [];
  persistent_volume_claims = [];
  persistent_volumes = [];
  services = [];
  endpoint_slices = [];
  network_policies = [];
  ingresses = [];
  secrets = [];
}

abbrev pub checker : String → List String → Rule
checker id required = record {
  metadata = record {
    id = id;
    section = "Pod";
    description = "Pods";
    required = required;
    unavailable_code = "";
    unavailable_resource = "";
    optional = [];
    modes = [];
  };
  evaluate = λ _ _. cause ∷ [];
}
