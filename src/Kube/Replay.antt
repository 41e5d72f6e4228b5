-- ===== src/Kube/Replay.antt =====
-- `ValidateReplayScope` of internal/kube/persist.go, whose nil error is none. A missing file and a
-- missing scope are both none.
pub mod Agreement
use k8s_diagnose.Prelude.{
  String, Bool, true, false, not, Option, none, some, [], ◌∷◌, ◌==◌, if◌then◌else◌, concat,
}

pub record SnapshotScope : Type 0 where
  pub namespace : String
  pub mode : String
  pub unused : Bool

unfoldable pub scope_namespace : String → String
scope_namespace namespace = if namespace == "" then "全namespace" else namespace

abbrev pub same_bool : Bool → Bool → Bool
same_bool true b = b
same_bool false b = not b

abbrev show_bool : Bool → String
show_bool b = if b then "true" else "false"

unfoldable pub validate_replay_scope : Option SnapshotScope → String → String → Bool → Option String
unfolding scope_namespace concat
validate_replay_scope none namespace mode unused = some "クラスタ状態に取得範囲の情報がありません。現在のバージョンで保存し直してください"
validate_replay_scope (some s) namespace mode unused =
    if s.mode == ""
    then some "クラスタ状態に診断モードが記録されていません。現在のバージョンで保存し直してください"
    else if not (s.namespace == namespace)
    then some (
        concat (
          "クラスタ状態のnamespace範囲が一致しません（保存時: "
          ∷ scope_namespace s.namespace
          ∷ "、再生時: "
          ∷ scope_namespace namespace
          ∷ "）。保存時と同じ -n/--namespace を指定してください"
          ∷ []))
    else if not (s.mode == mode)
    then some (
        concat
          ("クラスタ状態の診断モードが一致しません（保存時: " ∷ s.mode ∷ "、再生時: " ∷ mode ∷ "）。保存時と同じモードを指定してください" ∷ []))
    else if not (same_bool s.unused unused)
    then some (
        concat (
          "クラスタ状態の未使用リソース診断設定が一致しません（保存時: --unused="
          ∷ show_bool s.unused
          ∷ "、再生時: --unused="
          ∷ show_bool unused
          ∷ "）。保存時と同じ指定にしてください"
          ∷ []))
    else none
