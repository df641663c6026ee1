-- ===== src/Strreset.antt =====
-- testcase/conformance/strreset/strreset.c: conformance tests of stream and association resets.
mod Shared
mod Cases
mod Traffic
mod Checks
mod Program
mod Stable
pub mod Exits
pub mod Unlisted
pub mod Firewall
pub mod Verdict
pub mod Volume
mod Tests
unfoldable pub use Shared.*
unfoldable pub use Cases.*
unfoldable pub use Traffic.*
unfoldable pub use Checks.*
unfoldable pub use Program.*
