-- ===== src/Ndata/Throughput.antt =====
-- When the receiver of a performance test of sctp_ndata.c prints the throughput: what is measured, and
-- what the check of one message does.
mod Counting
mod Check
pub mod Server
pub mod Once
pub use Counting.*
pub use Check.*
