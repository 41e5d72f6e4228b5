-- ===== src/Prelude/Sort.antt =====
-- `sort.SliceStable`, `sort.Slice` and `sort.Strings`. The result of a stable sort by a strict weak
-- order is determined, and an insertion sort computes it. The unstable `sort.Slice` leaves the
-- order of ties open; it is read as the stable sort, which is what Go's does up to 12 elements.
mod Laws
pub use Laws.*
mod Ordered
pub use Ordered.*
mod Insertion
unfoldable pub use Insertion.*
