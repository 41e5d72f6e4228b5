-- ===== src/Model.antt =====
-- internal/model/model.go: findings, root causes and the diagnostic state.
pub mod Types
pub mod Finding
pub mod RootCause
pub mod State
pub mod Health
