-- ===== src/Strreset/Traffic.antt =====
-- The resets and the messages that each test of strreset.c sends, and the blocking of its packets.
use sctp_tests.Prelude.{ℕ, [], ◌==◌, is_negative, if◌then◌else◌}
use sctp_tests.Posix.{
  M, SockOpt, setsockopt, system, drop_output, drop_output_data, flush, sleep, perror, call, gets,
  pure, emit, fault, print, for_range, ◌>>=◌, ◌>>◌,
}
use sctp_tests.Harness.{Context}
use sctp_tests.Strreset.Shared.{send_asoc_msg}
use sctp_tests.Strreset.Cases.{
  SetupReset, setup_pr, TestReset, test_pr, test_pr_asoc, test_pr_x, test_pr_asoc_x,
  test_pr_asoc_xx, current_case,
}

-- SCTP_STREAM_RESET_OUTGOING
abbrev pub stream_reset_outgoing : ℕ
stream_reset_outgoing = 2

-- sctp_set_strreset_inoutreq_1(): a refusal is reported, and not fatal
unfoldable pub set_strreset_inoutreq_1 : M Context (Unit {0})
set_strreset_inoutreq_1 = do
  s ← gets (λ s. s)
  result ← call (setsockopt s.fd (SockOpt.reset_streams s.asoc_id stream_reset_outgoing 0))
  if is_negative result then emit (perror "    *** setsockopt ***") else pure tt
  emit (sleep 3)

-- sctp_set_strreset_assoc(): a refusal is reported, and not fatal
unfoldable pub set_strreset_assoc : M Context (Unit {0})
set_strreset_assoc = do
  s ← gets (λ s. s)
  result ← call (setsockopt s.fd (SockOpt.reset_assoc s.asoc_id))
  if is_negative result then emit (perror "    *** setsockopt ***") else pure tt
  emit (sleep 3)

-- sn_close_asoc_streams()
unfoldable pub close_asoc_streams : M Context (Unit {0})
close_asoc_streams = do
  c ← current_case
  if c.drop == 0
      then pure tt
      else if c.drop == 1
      then (do emit (system drop_output_data); print "all stream data will be drop in INPUT\n" [])
      else if c.drop == 2
      then (do emit (system drop_output); print "all chunks will be drop in INPUT\n" [])
      else pure tt

-- sn_reopen_asoc_streams()
unfoldable pub reopen_asoc_streams : M Context (Unit {0})
reopen_asoc_streams = do
  c ← current_case
  if c.drop == 0 then pure tt else do
    emit (system flush)
    print "all stream data can be transmitted now\n" []
    emit (sleep 10)

-- `sn_send_asoc_msg(snc, sn_cases[snc->c].values[0], 1, sn_cases[snc->c].flags, 0)`
unfoldable pub send_value : M Context (Unit {0})
send_value = do c ← current_case; send_asoc_msg c.value 1 c.flags 0

-- the loops of the tests, of so many messages
unfoldable pub send_values : ℕ → M Context (Unit {0})
send_values n = for_range n 0 (λ _. send_value)

-- sn_do_setup_pr()
unfoldable pub do_setup_pr : M Context (Unit {0})
do_setup_pr = pure tt

-- sn_do_test_pr()
unfoldable pub do_test_pr : M Context (Unit {0})
do_test_pr = do
  send_values 70000
  emit (sleep 5)
  set_strreset_inoutreq_1
  emit (sleep 5)
  send_value

-- sn_do_test_pr_asoc()
unfoldable pub do_test_pr_asoc : M Context (Unit {0})
do_test_pr_asoc = do
  send_values 70000
  emit (sleep 5)
  set_strreset_assoc
  emit (sleep 5)
  send_value

-- sn_do_test_pr_x()
unfoldable pub do_test_pr_x : M Context (Unit {0})
do_test_pr_x = do
  close_asoc_streams
  send_values 10
  set_strreset_inoutreq_1
  emit (sleep 10)
  set_strreset_inoutreq_1
  send_value
  reopen_asoc_streams

-- sn_do_test_pr_asoc_x()
unfoldable pub do_test_pr_asoc_x : M Context (Unit {0})
do_test_pr_asoc_x = do
  close_asoc_streams
  send_values 10
  set_strreset_assoc
  emit (sleep 10)
  set_strreset_assoc
  reopen_asoc_streams
  emit (sleep 10)
  set_strreset_assoc
  send_value

-- sn_do_test_pr_asoc_xx()
unfoldable pub do_test_pr_asoc_xx : M Context (Unit {0})
do_test_pr_asoc_xx = do
  send_values 10
  emit (sleep 5)
  close_asoc_streams
  set_strreset_assoc
  send_value
  send_value
  send_value
  send_value
  emit (sleep 5)
  reopen_asoc_streams

-- the calls through the table's pointers
unfoldable pub run_setup_pr : SetupReset → M Context (Unit {0})
run_setup_pr SetupReset.null = fault
run_setup_pr setup_pr = do_setup_pr

unfoldable pub run_test_pr : TestReset → M Context (Unit {0})
run_test_pr TestReset.null = fault
run_test_pr test_pr = do_test_pr
run_test_pr test_pr_asoc = do_test_pr_asoc
run_test_pr test_pr_x = do_test_pr_x
run_test_pr test_pr_asoc_x = do_test_pr_asoc_x
run_test_pr test_pr_asoc_xx = do_test_pr_asoc_xx
