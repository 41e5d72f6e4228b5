-- ===== src/Kube.antt =====
-- The part of internal/kube that the diagnosis reads: the objects of a snapshot, the kubectl
-- commands shown beside the result, and the scope of a saved snapshot.
pub mod Types
pub mod Escape
pub mod Commands
pub mod Replay
