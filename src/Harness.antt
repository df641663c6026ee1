-- ===== src/Harness.antt =====
-- What the three conformance programs share word for word: struct sn_context, the commands, the
-- functions that open, configure and close a socket, the exchange of commands, the receiving loop
-- of do_server() and main(). Taken from testcase/conformance/ndatasched/sctp_ndata.c; the copies in
-- prsctp/sctp_pr.c and strreset/strreset.c differ where a parameter here says so.
mod State
mod Socket
mod Command
mod Serve
mod Args
pub mod Peer
pub mod Script
pub mod Loop
pub mod Stable
pub mod Quiet
pub mod Exits
pub mod Unlisted
pub mod Dropping
unfoldable pub use State.*
unfoldable pub use Socket.*
unfoldable pub use Command.*
unfoldable pub use Serve.*
unfoldable pub use Args.*
