-- ===== src/HashTable.antt =====
-- testcase/performance/sctphashtable/client.c: it opens a square of associations, then measures how long
-- one more association takes to send its messages.
mod Address
mod Assocs
mod Program
unfoldable pub use Address.*
unfoldable pub use Assocs.*
unfoldable pub use Program.*
pub mod Decode
pub mod Bounds
pub mod Table
pub mod Books
pub mod Closings
pub mod Messages
pub mod Tests
