-- ===== src/Tests.antt =====
-- Concrete runs of the theorems: a small cluster, its findings and its state.
mod Samples
mod State
mod Causes
mod Acknowledging
mod Running
mod Reports
mod Trends
mod Dependencies
mod Replaying
