-- ===== src/PeelOff.antt =====
-- testcase/regression/peeloffbusy/client.c: one thread sends on a socket until it is broken, while another
-- peels the association off.
mod Program
unfoldable pub use Program.*
pub mod Verdict
pub mod Firewall
pub mod Tests
