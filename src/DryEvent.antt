-- ===== src/DryEvent.antt =====
-- testcase/regression/dryevents/sctp-dry-event.c: a server that answers each message, with or without
-- notifications of a dry sender, and a client that sends one message and waits for the answer.
mod Setup
mod Transfer
mod Program
unfoldable pub use Setup.*
unfoldable pub use Transfer.*
unfoldable pub use Program.*
pub mod Counts
pub mod Responses
pub mod Descriptors
pub mod Arrivals
pub mod Client
pub mod Service
pub mod Reply
pub mod Tests
