-- ===== src/Prelude/Order.antt =====
-- Total orders by Boolean tests, as the comparison functions of `sort.Slice` combine them: on the
-- native numbers, the integers and the texts, and lexicographically over several keys.
mod Keys
pub use Keys.*
