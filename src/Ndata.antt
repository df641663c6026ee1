-- ===== src/Ndata.antt =====
-- testcase/conformance/ndatasched/sctp_ndata.c: conformance, performance and fuzz tests of the SCTP
-- stream schedulers.
mod Cases
mod Setup
mod Traffic
mod Checks
mod Program
pub mod Scheduler
pub mod Lengths
pub mod Verdict
pub mod Stable
pub mod Exits
pub mod Volume
pub mod Corked
pub mod Throughput
pub mod Firewall
mod Tests
unfoldable pub use Cases.*
unfoldable pub use Setup.*
unfoldable pub use Traffic.*
unfoldable pub use Checks.*
unfoldable pub use Program.*
