-- ===== src/Tests/Dependencies.antt =====
-- A Pod with a container that reads a key of a Secret.
use k8s_diagnose.Prelude.{
  String, Bool, true, false, none, some, List, [], ◌∷◌, ◌≡◌, ◌≢◌, ◌↔◌, Memᴰ, refl, ◌==◌, count_if,
  concat, pos,
}
use k8s_diagnose.Rules.Graph.{edges_of, descendants}
use k8s_diagnose.Rules.Dependency.Objects.{ContainerSpec, PodObject, Objects}
use k8s_diagnose.Rules.Dependency.References.{
  ObjectDependency, pod_dependencies, container_dependencies,
}
use k8s_diagnose.Rules.Registry.{ref}
use k8s_diagnose.Rules.Dependency.Build.{Link, build_dependency_graph}
use k8s_diagnose.Rules.Dependency.Edges.{edge_of}
use k8s_diagnose.Rules.Dependency.Exact.{build_dependency_graph_iff}
use k8s_diagnose.Rules.Dependency.Relations.{Asks}
use k8s_diagnose.Rules.Degraded.{WorkloadStatus, Statuses, degraded_object}
use k8s_diagnose.Rules.Degraded.Current.{Reported, deployment, degraded_object-Reported}
use k8s_diagnose.Rules.Dependency.Affected.{required-affects}

abbrev claim_name : String → String → String
claim_name pod volume = concat (pod ∷ "-" ∷ volume ∷ [])

abbrev matches : List (String × String) → List (String × String) → Bool
matches selector labels = false

abbrev app : ContainerSpec
app = record {
  name = "app";
  restarts_always = false;
  env_from = [];
  env =
      record {
        name = "PASSWORD";
        config_map_key = none;
        secret_key = some (record { name = "db"; key = "password"; optional = false });
      }
      ∷ [];
  readiness = true;
  liveness = false;
  startup = false;
}

abbrev web : PodObject
web = record {
  namespace = "a";
  name = "web";
  labels = [];
  owners = [];
  init_containers = [];
  containers = app ∷ [];
  ephemeral_containers = [];
  volumes = [];
  image_pull_secrets = [];
  service_account = "";
  priority_class = "";
  runtime_class = none;
  node_name = "n1";
}

abbrev cluster : Objects
cluster = record {
  pods = web ∷ [];
  replica_sets = [];
  jobs = [];
  claims = [];
  slices = [];
  services = [];
  ingresses = [];
  validating_webhooks = [];
  mutating_webhooks = [];
}

abbrev password : ObjectDependency
password = record {
  kind = "Secret";
  namespace = "a";
  name = "db";
  key = "password";
  source = "container/app.env.PASSWORD";
  optional = false;
}

needed : Memᴰ password (pod_dependencies web)
unfolding pod_dependencies container_dependencies concat
needed = Memᴰ.head refl

build_dependency_graph_iff_example :
    Memᴰ
      (record { to = "Pod/a/web"; relation = "required-by-pod"; key = "password" })
      (edges_of (build_dependency_graph claim_name matches cluster) "Secret/a/db")
    ↔ ((l : Link) × Asks claim_name matches cluster l
        × (l.from ≡ "Secret/a/db")
        × (record { to = "Pod/a/web"; relation = "required-by-pod"; key = "password" } ≡ edge_of l)
        × (l.from ≢ "")
        × (l.to ≢ "")
        × (l.from ≢ l.to))
build_dependency_graph_iff_example =
    build_dependency_graph_iff claim_name matches cluster "Secret/a/db"
      (record { to = "Pod/a/web"; relation = "required-by-pod"; key = "password" })

required-affects_example :
    count_if
      (λ q. q.resource == ref "Pod" "a" "web")
      (descendants
        (build_dependency_graph claim_name matches cluster)
        (ref "Secret" "a" "db")
        "password")
    ≡ 1
unfolding ref concat
required-affects_example =
    required-affects claim_name matches cluster web password (Memᴰ.head refl) needed refl refl refl

abbrev rollout : WorkloadStatus
rollout = record {
  namespace = "a";
  name = "web";
  generation = pos 3;
  observed_generation = pos 3;
  replicas = some (pos 2);
  ready_replicas = pos 1;
}

abbrev statuses : Statuses
statuses = record {
  fetched = [];
  pods = [];
  replica_sets = [];
  deployments = rollout ∷ [];
  stateful_sets = [];
  daemon_sets = [];
  slices = [];
  services = [];
  endpoints = [];
}

degraded_object-Reported_example :
    Reported "Deployment" "a" "web"
      (rollout ∷ [])
      (degraded_object matches statuses "Deployment" "a" "web")
degraded_object-Reported_example = degraded_object-Reported matches statuses deployment "a" "web"
