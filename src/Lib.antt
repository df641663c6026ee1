-- ===== src/Lib.antt =====
-- sctp-tests: the programs that test the SCTP stack of the kernel.
--
-- A test of testcase/conformance runs one program twice, as a receiver (`-l`) and as a client
-- (`-s`), with an address, a port and the number of a case. The client connects, configures the
-- association, sends the messages of the case, some behind an iptables rule that holds them back,
-- and then a command to close. A command is a message whose length is 11 or 12. The receiver takes
-- one message after another, answers the commands, gives each other message to the check of the case,
-- and exits with the verdict.
--
-- Prelude: numbers, lists and Boolean tests. C's int where it may be negative is ℤ, a count or a
--   length is ℕ.
-- Posix: the calls of the kernel and the C library that the programs make (Posix/Calls), the actions
--   that make them (Posix/Exec, Posix/Checked), and rules for what holds before and after an action
--   (Posix/Triple, Rules, Issues, Volume, Dropping, Tells).
--   Posix/Dropping tells the rule handed to iptables last (dropping) from what iptables has accepted
--   (blocked). Kernel is a parameter of everything: it answers
--   each call from the list of all calls before. An action returns, exits with a status, faults (an
--   index out of bounds, a call through a null pointer), or is still running when its fuel is used up.
-- Harness: what testcase/conformance/ndatasched/sctp_ndata.c, prsctp/sctp_pr.c and
--   strreset/strreset.c share word for word: struct sn_context (Context), the socket functions
--   (Harness/Socket), the commands (Harness/Command), the loop of do_server() (Harness/Serve: handle,
--   serve), atoi() and main() (Harness/Args). Harness/Peer states that no call of a kernel fails and
--   that it delivers a list of messages; Harness/Script says which of them count as data;
--   Harness/Loop is the invariant rule of the receiving loop.
-- Ndata: testcase/conformance/ndatasched/sctp_ndata.c. Cases is the table sn_cases, Setup the
--   functions sn_do_*setup_sched*, Traffic the sn_do_*sched_tests*, Checks the sn_do_*assert_tests,
--   Program do_client() and do_server(). Ndata/Throughput counts what a performance case measures
--   in the list of calls, apart from the program's own counters; Ndata/Corked says which calls
--   were made while a rule dropped packets.
-- Prsctp: testcase/conformance/prsctp/sctp_pr.c, in the same way. The two threads of the cxx and cxxx
--   tests run by a schedule, a list of Booleans that is any interleaving of their calls. Where
--   pthread_create() fails, the first thread goes on alone, and the pthread_join() that follows, with a
--   handle that has no value, is a fault (Posix/Threads; Posix/Started has what follows from that).
-- Strreset: testcase/conformance/strreset/strreset.c, in the same way.
-- Ndata/Scheduler is a specification of the stream schedulers, apart from the program's lists: which
--   waiting message goes next, by the values that setsockopt() has given to the streams.
-- Prsctp/Policy is a specification of the PR-SCTP policies: which of the messages that wait while the
--   path is blocked are delivered, by the time they have waited, the timeouts in it, and the room in the
--   send buffer. Only data counts in that buffer, so the two tests that fill it with messages of one byte
--   are outside of it.
--
-- DryEvent: testcase/regression/dryevents/sctp-dry-event.c, a server that answers each message and a client
--   that waits for one answer. Setup has the functions that create and configure a socket, Transfer
--   read_data() and send_data(), Program server_mainloop() and main(); DryEvent/Arrivals states that a
--   kernel delivers a list of messages and notifications.
-- HashTable: testcase/performance/sctphashtable/client.c, a client that opens a square of associations and
--   then measures one more. Address has the text that sprintf() writes, Assocs the table fds and
--   create_assocs(), Program main().
-- PeelOff: testcase/regression/peeloffbusy/client.c, whose two threads run by a schedule (Posix/Threads),
--   like those of sctp_pr.c.
--
-- A function `sn_do_x` is named `do_x` here, and `sn_x` is `x`. A pointer of a table of cases is a
-- data type that names the functions it may point to, and `run_x` is the call through it.
--
-- Fuel: do_server loops until a command to close, so its model takes a bound on the messages handled:
-- as many as are delivered, up to that command, are enough. In sctp-dry-event.c server_mainloop() takes a
-- bound on the connections and one on the rounds of each, and the client's wait one on the messages; the
-- theorems say how much is enough, or hold for any. All other loops count.
--
-- What is left out of the model: the peer's address (serv) and the contents of messages, which the
-- programs never look at; the overflow of int in atoi(); the overflow of long in the counters of
-- sctp_ndata.c and strreset.c, which are exact numbers here. printf() of a quotient gets its two parts.
-- In sctp_pr.c `snc->cb[4]` is past the end of `long cb[4]`: it is modelled as the eight bytes behind, that is
-- asoc_id and its padding on a 64-bit little-endian machine, and its sums wrap at 2 ^ 64. Constants are
-- those of linux/sctp.h.
--
-- In sctp-dry-event.c the text of a message is left out, and main() ends without a `return`, which is a return
-- of 0. The address that bind() and connect() of the other programs take is that of the getaddrinfo() before,
-- and is not repeated. An assertion that fails ends a program with status 134, as the shell sees SIGABRT.
-- time_spent of the client of sctphashtable is an exact number of seconds. A step of a thread of peeloffbusy
-- is one call of the kernel with the output that follows it; main() is given an address and a port.
--
-- Not modelled: the shell scripts that start the programs and set up the network (sctp-tests, libst, topos).
pub mod Prelude
pub mod Posix
pub mod Harness
pub mod Ndata
pub mod Prsctp
pub mod Strreset
pub mod DryEvent
pub mod HashTable
pub mod PeelOff
