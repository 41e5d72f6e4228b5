-- ===== src/Tests/Replaying.antt =====
-- A snapshot of one namespace, replayed with its own scope.
use k8s_diagnose.Prelude.{false, none, some, ◌≡◌, ◌↔◌}
use k8s_diagnose.Kube.Replay.{SnapshotScope, validate_replay_scope}
use k8s_diagnose.Kube.Replay.Agreement.{Agrees, validate_replay_scope_iff}

abbrev saved : SnapshotScope
saved = record { namespace = "a"; mode = "all"; unused = false }

validate_replay_scope_iff_example :
    (validate_replay_scope (some saved) "a" "all" false ≡ none)
    ↔ Agrees (some saved) "a" "all" false
validate_replay_scope_iff_example = validate_replay_scope_iff (some saved) "a" "all" false
