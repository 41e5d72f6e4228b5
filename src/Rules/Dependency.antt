-- ===== src/Rules/Dependency.antt =====
-- buildDependencyGraph of internal/rules/rootcause.go, with the references of Pods of dependency.go.
pub mod Objects
pub mod References
pub mod Build
pub mod Relations
pub mod Asked
pub mod Routed
pub mod Made
pub mod Listed
pub mod Edges
pub mod Exact
pub mod Affected
