-- ===== src/Rules.antt =====
-- internal/rules: the dependency graph, root-cause correlation and the rule registry.
pub mod Graph
pub mod RootCause
pub mod Registry
pub mod Correlate
pub mod Workloads
pub mod Dependency
pub mod Degraded
