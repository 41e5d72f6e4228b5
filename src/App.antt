-- ===== src/App.antt =====
-- The score of one Pod, of internal/app.
pub mod References
pub mod PodScore
