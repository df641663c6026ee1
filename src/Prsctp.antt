-- ===== src/Prsctp.antt =====
-- testcase/conformance/prsctp/sctp_pr.c: conformance tests of the PR-SCTP policies.
mod Shared
mod Cases
mod Traffic
mod Checks
mod Program
pub mod Score
mod Stable
pub mod Exits
pub mod Unlisted
pub mod Firewall
pub mod Verdict
pub mod Policy
mod Tests
unfoldable pub use Shared.*
unfoldable pub use Cases.*
unfoldable pub use Traffic.*
unfoldable pub use Checks.*
unfoldable pub use Program.*
