-- ===== src/Ndata/Program.antt =====
-- do_client(), do_server() and main() of sctp_ndata.c, with the closing of its streams.
use sctp_tests.Prelude.{ℕ, String, ℤ, pos, is_zero, List, [], ◌==◌, if◌then◌else◌}
use sctp_tests.Posix.{
  M, SockOpt, setsockopt, system, drop_input, flush, sleep, call, gets, modify, pure, emit, die,
  print, ◌>>=◌, ◌>>◌,
}
use sctp_tests.Harness
use sctp_tests.Harness.{
  Context, zeroed, cmd_close_asoc, cmd_set_strreset, create_asoc_sk, create_listen_sk,
  enable_asoc_strreset, enable_peer_strreset, enable_sk_recvinfo, close_asoc_sk, serve,
}
use sctp_tests.Ndata.Cases.{current_case}
use sctp_tests.Ndata.Setup.{run_setup_sched, run_setup_schedvalue}
use sctp_tests.Ndata.Traffic.{run_sched_tests}
use sctp_tests.Ndata.Checks.{run_assert_tests}

-- SCTP_ENABLE_RESET_STREAM_REQ
abbrev pub enable_reset_stream_req : ℕ
enable_reset_stream_req = 1

-- SCTP_STREAM_RESET_OUTGOING
abbrev pub stream_reset_outgoing : ℕ
stream_reset_outgoing = 2

-- sn_close_asoc_streams(), where the case corks its messages: the peer's packets are dropped, so that
-- the answer to the reset, and with it every message, waits
unfoldable pub cork : M Context (Unit {0})
cork = do
  emit (system drop_input)
  s ← gets (λ s. s)
  r ← call (setsockopt s.fd (SockOpt.reset_streams s.asoc_id stream_reset_outgoing 0))
  if is_zero r then print "all stream are closed\n" [] else do emit (system flush); die "setsockopt"

-- sn_close_asoc_streams()
unfoldable pub close_asoc_streams : M Context (Unit {0})
close_asoc_streams = do c ← current_case; if c.sched_cork == 0 then pure tt else cork

-- sn_reopen_asoc_streams()
unfoldable pub reopen_asoc_streams : M Context (Unit {0})
reopen_asoc_streams = do
  c ← current_case
  if c.sched_cork == 0
      then pure tt
      else do emit (system flush); print "all stream are reopened\n" []; emit (sleep 10)

-- do_client()
unfoldable pub do_client : String → String → ℤ → M Context ℤ
do_client ip port number = do
  emit (sleep 3)
  modify (λ _. record zeroed { case_no = number })
  create_asoc_sk ip port
  c ← current_case
  run_setup_sched c.do_setup_sched
  d ← current_case
  run_setup_schedvalue d.do_setup_schedvalue
  enable_asoc_strreset enable_reset_stream_req
  enable_peer_strreset cmd_set_strreset
  close_asoc_streams
  e ← current_case
  run_sched_tests e.do_sched_tests
  reopen_asoc_streams
  close_asoc_sk cmd_close_asoc
  pure (pos 0)

-- what the receiver does with a data message
unfoldable pub check : M Context (Unit {0})
check = do c ← current_case; run_assert_tests c.do_assert_tests

-- do_server(), for at most so many messages
unfoldable pub do_server : ℕ → String → String → ℤ → M Context ℤ
do_server fuel ip port number = do
  modify (λ _. record zeroed { case_no = number })
  create_listen_sk ip port
  enable_sk_recvinfo
  serve enable_reset_stream_req check fuel
  gets (λ s. pos s.cb1)

-- main()
unfoldable pub main : ℕ → List String → M Context ℤ
main fuel = Harness.main (do_server fuel) do_client
