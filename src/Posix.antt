-- ===== src/Posix.antt =====
-- The system calls and library calls of the C programs, the kernel that answers them, and the
-- actions that make them.
mod Calls
mod Exec
mod Checked
mod Threads
pub mod Triple
pub mod Counted
pub mod Scheduled
pub mod Started
pub mod Rules
pub mod Issues
pub mod Volume
pub mod Dropping
pub mod Tells
pub use Calls.*
unfoldable pub use Exec.*
unfoldable pub use Checked.*
unfoldable pub use Threads.*
