-- ===== src/Kube/Commands.antt =====
-- internal/kube/commands.go: the kubectl commands that fetch what a diagnosis has read.
pub mod Laws
use k8s_diagnose.Prelude.{
  ℕ, String, Bool, true, false, Option, none, some, List, [], ◌∷◌, ◌++◌, ℤ, pos, if◌then◌else◌,
  ◌==◌, concat, join, int_decimal, int_ltb, is_empty, is_some, contains, lookup, put,
}
use k8s_diagnose.Model.Types.{separator}
use k8s_diagnose.Kube.Types.{FetchStatus}
use k8s_diagnose.Kube.Escape.{path_escape}

-- The fields of `config.Config` that are read here and in the registry.
pub record Config : Type 0 where
  pub kubeconfig : String
  pub context : String
  pub request_timeout : ℤ
  pub namespace : String
  pub page_size : ℤ
  pub mode : String

-- What a spec asks for: a resource, of the cluster or namespaced with the namespace of the spec,
-- or a raw path.
pub data Request : Type 0 where
  cluster_wide : String → Request
  in_namespace : String → String → Request
  raw : (Config → String) → Request

pub record KubectlCommandSpec : Type 0 where
  pub key : String
  pub request : Request

abbrev Command : Type 0
Command = List String

abbrev flag : String → String → List String
flag name value = if value == "" then [] else name ∷ value ∷ []

unfoldable pub kubectl_command : Config → List String → Command
kubectl_command cfg args =
    ("kubectl" ∷ [])
    ++ flag "--kubeconfig" cfg.kubeconfig
    ++ flag "--context" cfg.context
    ++ (if int_ltb (pos 0) cfg.request_timeout
        then concat ("--request-timeout=" ∷ int_decimal cfg.request_timeout ∷ "s" ∷ []) ∷ []
        else [])
    ++ args

unfoldable pub pod_metrics_path : Config → String
unfolding path_escape
pod_metrics_path cfg =
    if cfg.namespace == ""
    then "/apis/metrics.k8s.io/v1beta1/pods"
    else concat
        ("/apis/metrics.k8s.io/v1beta1/namespaces/" ∷ path_escape cfg.namespace ∷ "/pods" ∷ [])

abbrev cluster_spec : String → String → KubectlCommandSpec
cluster_spec key resource = record { key = key; request = cluster_wide resource }

abbrev namespaced_spec : String → String → KubectlCommandSpec
namespaced_spec key resource = record { key = key; request = in_namespace resource "" }

abbrev raw_spec : String → (Config → String) → KubectlCommandSpec
raw_spec key path = record { key = key; request = raw path }

unfoldable pub specs : List KubectlCommandSpec
unfolding pod_metrics_path
specs =
    namespaced_spec "pods" "pods"
    ∷ record { key = "all_pods"; request = in_namespace "pods" "*" }
    ∷ cluster_spec "nodes" "nodes"
    ∷ record {
      key = "node_leases";
      request = in_namespace "leases.coordination.k8s.io" "kube-node-lease";
    }
    ∷ namespaced_spec "services" "services"
    ∷ namespaced_spec "endpoints" "endpoints"
    ∷ namespaced_spec "endpoint_slices" "endpointslices.discovery.k8s.io"
    ∷ namespaced_spec "pvcs" "persistentvolumeclaims"
    ∷ cluster_spec "pvs" "persistentvolumes"
    ∷ namespaced_spec "configmaps" "configmaps"
    ∷ namespaced_spec "secrets" "secrets"
    ∷ namespaced_spec "serviceaccounts" "serviceaccounts"
    ∷ cluster_spec "namespaces" "namespaces"
    ∷ namespaced_spec "events" "events"
    ∷ namespaced_spec "resourcequotas" "resourcequotas"
    ∷ namespaced_spec "limitranges" "limitranges"
    ∷ namespaced_spec "deployments" "deployments.apps"
    ∷ namespaced_spec "statefulsets" "statefulsets.apps"
    ∷ namespaced_spec "daemonsets" "daemonsets.apps"
    ∷ namespaced_spec "replicasets" "replicasets.apps"
    ∷ namespaced_spec "jobs" "jobs.batch"
    ∷ namespaced_spec "cronjobs" "cronjobs.batch"
    ∷ namespaced_spec "hpas" "horizontalpodautoscalers.autoscaling"
    ∷ namespaced_spec "ingresses" "ingresses.networking.k8s.io"
    ∷ cluster_spec "ingressclasses" "ingressclasses.networking.k8s.io"
    ∷ namespaced_spec "networkpolicies" "networkpolicies.networking.k8s.io"
    ∷ cluster_spec "validatingwebhooks"
        "validatingwebhookconfigurations.admissionregistration.k8s.io"
    ∷ cluster_spec "mutatingwebhooks" "mutatingwebhookconfigurations.admissionregistration.k8s.io"
    ∷ cluster_spec "storageclasses" "storageclasses.storage.k8s.io"
    ∷ namespaced_spec "pdbs" "poddisruptionbudgets.policy"
    ∷ cluster_spec "priorityclasses" "priorityclasses.scheduling.k8s.io"
    ∷ cluster_spec "runtimeclasses" "runtimeclasses.node.k8s.io"
    ∷ raw_spec "node_metrics" (λ _. "/apis/metrics.k8s.io/v1beta1/nodes")
    ∷ raw_spec "pod_metrics" pod_metrics_path
    ∷ cluster_spec "apiservices" "apiservices.apiregistration.k8s.io"
    ∷ cluster_spec "crds" "customresourcedefinitions.apiextensions.k8s.io"
    ∷ cluster_spec "gatewayclasses" "gatewayclasses.gateway.networking.k8s.io"
    ∷ namespaced_spec "gateways" "gateways.gateway.networking.k8s.io"
    ∷ namespaced_spec "httproutes" "httproutes.gateway.networking.k8s.io"
    ∷ raw_spec "readyz" (λ _. "/readyz?verbose")
    ∷ raw_spec "livez" (λ _. "/livez?verbose")
    ∷ []

unfoldable pub append_scope : List String → String → Bool → List String
append_scope args namespace namespaced =
    if namespaced
    then (if namespace == "" then args ++ "-A" ∷ [] else args ++ "-n" ∷ namespace ∷ [])
    else args

unfoldable pub resource_command : Config → String → String → Bool → Command
unfolding kubectl_command append_scope
resource_command cfg resource spec_namespace namespaced =
    let namespace =
      if spec_namespace == "*"
      then ""
      else if spec_namespace == ""
      then cfg.namespace
      else spec_namespace in
    kubectl_command cfg (
      append_scope ("get" ∷ resource ∷ []) namespace namespaced
      ++ (if int_ltb (pos 0) cfg.page_size
          then concat ("--chunk-size=" ∷ int_decimal cfg.page_size ∷ []) ∷ []
          else [])
      ++ "-o" ∷ "json" ∷ [])

unfoldable pub spec_command : Config → Request → Command
unfolding resource_command
spec_command cfg (cluster_wide resource) = resource_command cfg resource "" false
spec_command cfg (in_namespace resource namespace) = resource_command cfg resource namespace true
spec_command cfg (raw path) = kubectl_command cfg ("get" ∷ concat ("--raw=" ∷ path cfg ∷ []) ∷ [])

-- The loop over the specs.
unfoldable pub commands_from :
    Config → List (String × FetchStatus) → List KubectlCommandSpec → List Command
unfolding spec_command
commands_from cfg statuses [] = []
commands_from cfg statuses (s ∷ ss) =
    let rest = commands_from cfg statuses ss in
    if is_some (lookup s.key statuses) then spec_command cfg s.request ∷ rest else rest

-- `strings.Join(command, "\x00")`
abbrev pub command_key : Command → String
command_key command = join separator command

unfoldable pub unique_from : List String → List Command → List Command
unique_from seen [] = []
unique_from seen (c ∷ cs) =
    let again = unique_from seen cs in
    let fresh = unique_from (command_key c ∷ seen) cs in
    if contains seen (command_key c) then again else c ∷ fresh

unfoldable pub unique_commands : List Command → List Command
unfolding unique_from
unique_commands commands = unique_from [] commands

unfoldable pub kubectl_commands : Config → List (String × FetchStatus) → List Command
unfolding specs commands_from unique_commands
kubectl_commands cfg statuses =
    if is_empty statuses then [] else unique_commands (commands_from cfg statuses specs)

-- `if status, attempted := statuses[key]; attempted { selected[key] = status }`
unfoldable pub select_key :
    Option FetchStatus → String → List (String × FetchStatus) → List (String × FetchStatus)
unfolding put
select_key none k selected = selected
select_key (some s) k selected = put k s selected

unfoldable pub select_keys :
    List (String × FetchStatus)
    → List String
    → List (String × FetchStatus)
    → List (String × FetchStatus)
unfolding lookup select_key
select_keys statuses [] selected = selected
select_keys statuses (k ∷ ks) selected =
    select_keys statuses ks (select_key (lookup k statuses) k selected)

unfoldable pub kubectl_commands_for_keys :
    Config → List (String × FetchStatus) → List String → List Command
unfolding select_keys kubectl_commands
kubectl_commands_for_keys cfg statuses keys = kubectl_commands cfg (select_keys statuses keys [])
