-- ===== src/Baseline.antt =====
-- internal/baseline/baseline.go: acknowledgement rules with an expiry date. `Load`, which reads and
-- checks a file, is not modelled.
pub mod Pattern
pub mod Scope
pub mod Apply
pub mod Glob
pub mod Effect
pub mod Expired
