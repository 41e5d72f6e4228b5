-- ===== src/History.antt =====
-- internal/history/history.go, from the stored reports on: the trends over the samples. The
-- database stands as the list of its rows.
pub mod Samples
pub mod Flaps
pub mod Restarts
pub mod Analysis
pub mod Store
