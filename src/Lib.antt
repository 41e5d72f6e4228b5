-- ===== src/Lib.antt =====
-- A verification library of k8s-diagnose, a diagnostic tool for Kubernetes clusters.
--
-- A run collects a snapshot of the cluster, evaluates rules on it, and adds what they find to a
-- diagnostic state. The correlation then groups the findings into root causes along a graph of
-- dependencies, a baseline acknowledges known findings, and reports, scores and the exit code are
-- read off the state. The modules follow these parts.
--
-- Model: internal/model/model.go. `Model.Types` has its types with the source's fields,
--   `Model.Finding` NewFinding, compactEvidence and Fingerprint, `Model.RootCause` NewRootCause,
--   `Model.State` the methods of State from the state before to the state after, and
--   `Model.Health` CoverageCounts, Coverage, Health and ShouldFail.
-- Redact: internal/redact/redact.go; `Redact.Masking` is MaskSecrets and IsSensitiveKey.
-- Rules: internal/rules. `Rules.Graph` is the dependencyGraph of rootcause.go with `add` and
--   `descendants`; `Rules.RootCause` has the classification of causes and the advice;
--   `Rules.Correlate` is Correlate; `Rules.Workloads` is BaselineWorkloadResolver for a
--   given graph and without its cache; `Rules.Registry` is registry.go with NewRegistry, MetadataFor,
--   RequiredKeys and Run, which records the restarts of the containers first; `Rules.Dependency` is
--   buildDependencyGraph, with podDependencies of dependency.go and the helpers that it calls in
--   scheduling.go, probe.go and helpers.go; `Rules.Degraded` is degradedResourceMessage, with
--   serviceEndpointCounts of service.go.
-- Baseline: internal/baseline/baseline.go. `Baseline.Apply` is Apply, `Baseline.Scope` has
--   matchResourceScope and matchWorkload, and `Baseline.Pattern` is match.
-- Kube: the fields of a snapshot that the models read, internal/kube/commands.go, and
--   `Kube.Replay`, which is ValidateReplayScope of internal/kube/persist.go.
-- Report: internal/report/report.go and internal/jsonutil. `Report.Json` has the JSON values with the
--   accessors of jsonutil, `Report.Build` and `Report.Serialize` are Build, `Report.Sanitize` is
--   Sanitize, `Report.Findings` and `Report.Compare` are Compare with its maps, `Report.Bridge` is
--   CompareHistory, `Report.Graph` and `Report.Draw` are reportGraph, Mermaid and DOT, and
--   `Report.Junit` is JUnit.
-- History: internal/history/history.go. `History.Samples`, `History.Flaps`, `History.Restarts` and
--   `History.Analysis` are Analyze and AddFindings, and `History.Store` is Load and Append over the
--   rows of the table, the newest first, as the SQL statements of the source select them.
-- App: the score of one Pod of internal/app/pod_score.go, with selectedPodObjectReferences of
--   internal/app/select_scope.go.
-- Prelude: lists, texts, integers, maps as association lists, orders and sorting.
-- Tests: samples, and the theorems applied to them.
--
-- Arguments of the models. `digest` stands for the first twenty hexadecimal digits of SHA-256 of a
-- text, `today` for the date of the clock, `resolve` for the optional resolver of workloads of
-- `Apply`, the graph and `degraded` of `Correlate` for what buildDependencyGraph and
-- degradedResourceMessage compute from a snapshot, which `build_dependency_graph` and
-- `degraded_resource_message` give, and a rule of the registry is its metadata with a function for
-- Evaluate. `claim_name` and the `matches` of Rules.Dependency and Rules.Degraded stand for
-- VolumeClaimName and for the selectors of the Kubernetes libraries. `replace` and the other `matches` stand for the regular expressions of redact.go,
-- `marshal` for json.Marshal, `node_id` and `escape_html` for the hash and the escapes of a drawing;
-- the time and the version of a report are given. Nothing is assumed of any of them.
--
-- Choices. Counters and penalties are natural numbers without bound, and an `int` that can be
-- negative is an unbounded integer; the byte counts of the memory pressure wrap at 64 bits. A text
-- is valid UTF-8, and ToLower is read on ASCII. A map is a list of its entries in the order of
-- their first setting, and a set a list. `sort.Slice` and `sort.SliceStable` are a stable insertion
-- sort: the order that an unstable sort gives to ties is one of several. The mutex of State is left
-- out, since each method holds it throughout. The search of `descendants` runs on fuel: one round
-- for each edge of the graph, and one more. The memory of a metrics object is what metricQuantity
-- reads of it. A JSON number is its text, and an object the list of its entries in the order in
-- which it is written; a report that is stored is read back as it was.
--
-- Not modelled: the rules' Evaluate functions, the loading of baselines and of the configuration, requests to the API
-- server, files and the opening of the history database, SARIF, terminal and notification.
pub mod Prelude
pub mod Redact
pub mod Model
pub mod Rules
pub mod Baseline
pub mod History
pub mod Kube
pub mod App
pub mod Report
pub mod Tests
