-- ===== src/Rules/Registry.antt =====
-- internal/rules/registry.go: the rules that a run evaluates, and what it does where the input of a
-- rule is missing.
pub mod Accepted
pub mod Valid
pub mod Records
use k8s_diagnose.Prelude.{
  ℕ, String, Bool, true, false, not, Option, none, some, List, [], ◌∷◌, ◌++◌, ◌⊎◌, inl, inr, pos,
  if◌then◌else◌, ◌==◌, ◌&&◌, ◌||◌, concat, join, is_empty, length, nat_eq, contains, lookup, keep,
}
use k8s_diagnose.Model.Types.{unavailable, Finding, Check, Evidence, Scalar, text, number, State}
use k8s_diagnose.Model.Finding.{new_finding}
use k8s_diagnose.Model.State.{add, add_check, observe, sort_findings}
use k8s_diagnose.Kube.Types.{ContainerStatus, FetchStatus, Pod, Snapshot}
use k8s_diagnose.Kube.Commands.{Config}

-- `Permissions` is read for the RBAC manifests only and is left out.
pub record Metadata : Type 0 where
  pub id : String
  pub section : String
  pub description : String
  pub required : List String
  pub unavailable_code : String
  pub unavailable_resource : String
  pub optional : List String
  pub modes : List String

-- The interface `Rule`.
pub record Rule : Type 0 where
  pub metadata : Metadata
  pub evaluate : Snapshot → Config → List Finding

unfoldable pub check_ids : List Rule → List String → Option String
check_ids [] seen = none
check_ids (r ∷ rs) seen =
    let rest = check_ids rs (r.metadata.id ∷ seen) in
    if r.metadata.id == ""
    then some "rule ID must not be empty"
    else if contains seen r.metadata.id
    then some (concat ("duplicate rule ID: " ∷ r.metadata.id ∷ []))
    else rest

abbrev pub accept : Option String → List Rule → String ⊎ List Rule
accept none rules = inr rules
accept (some message) rules = inl message

-- The left side is the message of the panic.
unfoldable pub new_registry : List Rule → String ⊎ List Rule
unfolding check_ids
new_registry rules = accept (check_ids rules []) rules

unfoldable pub metadata_for : List Rule → String → Option Metadata
metadata_for [] id = none
metadata_for (r ∷ rs) id =
    let rest = metadata_for rs id in if r.metadata.id == id then some r.metadata else rest

-- A rule without modes is enabled in each.
unfoldable pub enabled : Metadata → String → Bool
enabled m mode = is_empty m.modes || contains m.modes mode

-- The set of the keys as a list.
unfoldable pub required_keys : List Rule → String → List String
unfolding enabled
required_keys [] mode = []
required_keys (r ∷ rs) mode =
    let rest = required_keys rs mode in
    if enabled r.metadata mode then r.metadata.required ++ r.metadata.optional ++ rest else rest

-- `s.Statuses[key]`, the zero value where the key is missing
unfoldable pub status : Snapshot → String → FetchStatus
unfolding lookup
status s key = elim (lookup key s.statuses) [
  | some st ↦ st
  | none ↦ record { available = false; status = ""; reason = "" }
]

unfoldable pub missing : Snapshot → List String → List String
unfolding status
missing s keys = keep (λ key. not (status s key).available) keys

unfoldable pub reasons : Snapshot → List String → List String
reasons s [] = []
reasons s (key ∷ keys) =
    let st = status s key in
    let rest = reasons s keys in
    if not st.available && not (st.reason == "")
    then concat (key ∷ "=" ∷ st.reason ∷ []) ∷ rest
    else rest

unfoldable pub fetch_status_label : FetchStatus → String
fetch_status_label st =
    if st.status == "notfound"
    then "対象のAPIが提供されていません（API未提供 / NotFound）"
    else if st.status == "unavailable"
    then "Kubernetes APIに到達できません"
    else if st.status == "forbidden"
    then "アクセス権限がありません（RBAC）"
    else if st.status == "unauthorized"
    then "認証が必要です"
    else if st.status == "timeout"
    then "API要求がタイムアウトしました"
    else if st.status == "invalid"
    then "API要求が不正です"
    else if st.reason == ""
    then "Kubernetes APIでエラーが発生しました"
    else st.reason

-- `state.Observe("pod_restarts", …)` for one container
unfoldable pub record_container : Pod → String → String → State → ContainerStatus → State
unfolding observe
record_container pod resource kind s c =
    let uid = if pod.uid == "" then "unknown" else pod.uid in
    observe s "pod_restarts" (join "|" (resource ∷ kind ∷ c.name ∷ uid ∷ [])) (
      ("resource", text resource)
      ∷ ("container", text c.name)
      ∷ ("container_type", text kind)
      ∷ ("pod_uid", text uid)
      ∷ ("restart_count", number c.restart_count)
      ∷ [])

unfoldable pub record_containers : Pod → String → String → List ContainerStatus → State → State
unfolding record_container
record_containers pod resource kind [] s = s
record_containers pod resource kind (c ∷ cs) s =
    record_containers pod resource kind cs (record_container pod resource kind s c)

unfoldable pub ref : String → String → String → String
ref kind namespace name =
    if namespace == ""
    then concat (kind ∷ "/" ∷ name ∷ [])
    else concat (kind ∷ "/" ∷ namespace ∷ "/" ∷ name ∷ [])

unfoldable pub record_pods : List Pod → State → State
unfolding record_containers ref
record_pods [] s = s
record_pods (p ∷ ps) s =
    let resource = ref "Pod" p.namespace p.name in
    record_pods ps (
      record_containers p resource "ephemeral" p.ephemeral_container_statuses (
        record_containers p resource "app" p.container_statuses
          (record_containers p resource "init" p.init_container_statuses s)))

abbrev check_of : String → Metadata → String → Bool → String → Check
check_of id m description available reason = record {
  id = id;
  section = m.section;
  description = description;
  available = available;
  reason = reason;
}

-- `fetchStatusLabel(snapshot.Status(missing[0]))`
abbrev cause_of : Snapshot → List String → String
unfolding fetch_status_label status
cause_of snapshot [] = ""
cause_of snapshot (k ∷ ks) = fetch_status_label (status snapshot k)

abbrev pub tagged : String → Finding → Finding
tagged id f = if f.rule_id == "" then record f { rule_id = id } else f

module _ (digest : String → String) where
  unfoldable pub unavailable_finding : Snapshot → Metadata → List String → String → Finding
  unfolding cause_of
  unavailable_finding snapshot m keys reason =
      let own = not (m.unavailable_code == "") && nat_eq (length keys) 1 in
      let code = if own then m.unavailable_code else "K8S.API.RULE_UNAVAILABLE" in
      let resource = if own then m.unavailable_resource else concat ("Rule/" ∷ m.id ∷ []) in
      let cause = cause_of snapshot keys in
      let message =
        if own
        then concat ("「" ∷ m.description ∷ "」を取得できません。原因: " ∷ cause ∷ [])
        else concat (
            "「"
            ∷ m.description
            ∷ "」の診断を実施できません。必要なKubernetes API情報を取得できませんでした（対象: "
            ∷ join "、" keys
            ∷ "）"
            ∷ []) in
      record (new_finding digest unavailable code m.section resource "FetchUnavailable" m.id message
        (pos 100) (record { kind = "api"; key = "reason"; value = reason } ∷ [])) { rule_id = m.id }

  -- `%q` is read for keys without a quote or a backslash.
  unfoldable pub partial_finding : Metadata → String → String → Finding
  partial_finding m key reason =
      record (new_finding digest unavailable "K8S.API.PARTIAL_UNAVAILABLE" m.section
        (concat ("Rule/" ∷ m.id ∷ [])) "OptionalFetchUnavailable" (concat ("optional/" ∷ key ∷ []))
        (concat (
          "「" ∷ m.description ∷ "」の一部を評価できません。追加確認に必要なKubernetes API情報 \"" ∷ key ∷ "\" を取得できませんでした"
          ∷ []))
        (pos 100) (record { kind = "api"; key = key; value = reason } ∷ [])) { rule_id = m.id }

  -- The loop over the optional inputs.
  unfoldable pub run_optional : Snapshot → Metadata → List String → State → State
  unfolding status partial_finding
  run_optional snapshot m [] s = s
  run_optional snapshot m (key ∷ keys) s =
      let st = status snapshot key in
      let id = concat (m.id ∷ "/optional/" ∷ key ∷ []) in
      let description = concat (m.description ∷ "（任意取得: " ∷ key ∷ "）" ∷ []) in
      run_optional snapshot m keys (
        if st.available
        then add_check s (check_of id m description true "")
        else add digest (add_check s (check_of id m description false st.reason))
            (partial_finding m key st.reason))

  -- The findings of a rule, which carry its ID unless they have their own.
  unfoldable pub add_findings : String → List Finding → State → State
  unfolding add
  add_findings id [] s = s
  add_findings id (f ∷ fs) s = add_findings id fs (add digest s (tagged id f))

  unfoldable pub run_rule : Snapshot → Config → Rule → State → State
  unfolding enabled missing reasons unavailable_finding run_optional add_findings
  run_rule snapshot cfg rule s =
      let m = rule.metadata in
      let lacking = missing snapshot m.required in
      let reason = join "; " (reasons snapshot m.required) in
      let checked =
        if not (is_empty m.required) || is_empty m.optional
        then add_check s (check_of m.id m m.description true "")
        else s in
      if enabled m cfg.mode
      then (if is_empty lacking
          then add_findings m.id (rule.evaluate snapshot cfg)
              (run_optional snapshot m m.optional checked)
          else add digest (add_check s (check_of m.id m m.description false reason))
              (unavailable_finding snapshot m lacking reason))
      else s

  unfoldable pub run_rules : Snapshot → Config → List Rule → State → State
  unfolding run_rule
  run_rules snapshot cfg [] s = s
  run_rules snapshot cfg (r ∷ rs) s = run_rules snapshot cfg rs (run_rule snapshot cfg r s)

  unfoldable pub run : List Rule → Snapshot → Config → State → State
  unfolding record_pods run_rules sort_findings
  run rules snapshot cfg s =
      sort_findings (run_rules snapshot cfg rules (record_pods snapshot.pods s))
