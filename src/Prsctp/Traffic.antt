-- ===== src/Prsctp/Traffic.antt =====
-- The messages that each test of sctp_pr.c sends, and the blocking of its packets.
use Prim.Native.Nat.{bit_or}
use sctp_tests.Prelude.{◌-◌, Bool, List, [], ◌∷◌, ◌==◌, if◌then◌else◌}
use sctp_tests.Posix.{
  M, SockOpt, setsockopt, system, drop_output_data, flush, sleep, gets, pure, emit, must, fault,
  print, sequence, with_thread, ◌>>=◌, ◌>>◌,
}
use sctp_tests.Harness.{Context}
use sctp_tests.Prsctp.Shared.{send_asoc_msg}
use sctp_tests.Prsctp.Cases.{
  SetupPr, setup_pr, TestPr, test_pr, test_pr_b, test_pr_c, test_pr_x, test_pr_bx, test_pr_cx,
  test_pr_cxx, test_pr_cxxx, current_case,
}

-- sn_close_asoc_streams()
unfoldable pub close_asoc_streams : M Context (Unit {0})
close_asoc_streams = do
  c ← current_case
  if c.drop == 0
      then pure tt
      else do emit (system drop_output_data); print "all stream data will be drop in INPUT\n" []

-- sn_reopen_asoc_streams(), its calls one by one
unfoldable pub reopen_steps : List (M Context (Unit {0}))
reopen_steps =
    emit (system flush) ∷ print "all stream data can be transmitted now\n" [] ∷ emit (sleep 10) ∷ []

-- a step of sn_reopen_asoc_streams(), which does nothing where the case drops nothing
unfoldable pub if_dropped : M Context (Unit {0}) → M Context (Unit {0})
if_dropped m = do c ← current_case; if c.drop == 0 then pure tt else m

-- sn_reopen_asoc_streams()
unfoldable pub reopen_asoc_streams : M Context (Unit {0})
reopen_asoc_streams = if_dropped (sequence reopen_steps)

-- sn_do_setup_so_sndbuf()
unfoldable pub do_setup_so_sndbuf : M Context (Unit {0})
do_setup_so_sndbuf = do
  s ← gets (λ s. s)
  must (setsockopt s.fd (SockOpt.so_sndbuf 2500)) "setsockopt"

-- sn_do_setup_pr()
unfoldable pub do_setup_pr : M Context (Unit {0})
do_setup_pr = pure tt

-- sn_do_test_pr()
unfoldable pub do_test_pr : M Context (Unit {0})
do_test_pr = do
  close_asoc_streams
  c ← current_case
  send_asoc_msg c.length 1 c.flags c.value
  emit (sleep 10)
  send_asoc_msg 1000 1 0 0
  reopen_asoc_streams

-- sn_do_test_pr_b()
unfoldable pub do_test_pr_b : M Context (Unit {0})
do_test_pr_b = do
  close_asoc_streams
  c ← current_case
  send_asoc_msg c.length 1 (bit_or c.flags 0x1) c.value
  emit (sleep 10)
  send_asoc_msg 1000 1 0x1 0
  reopen_asoc_streams

-- sn_do_test_pr_c()
unfoldable pub do_test_pr_c : M Context (Unit {0})
do_test_pr_c = do
  close_asoc_streams
  c ← current_case
  send_asoc_msg 100 1 (bit_or c.flags 0x1) c.value
  emit (sleep 10)
  send_asoc_msg 100 1 0x1 0
  send_asoc_msg 100 1 0 0
  reopen_asoc_streams

-- sn_do_test_pr_x()
unfoldable pub do_test_pr_x : M Context (Unit {0})
do_test_pr_x = do
  do_setup_so_sndbuf
  close_asoc_streams
  c ← current_case
  send_asoc_msg c.length 1 c.flags c.value
  send_asoc_msg 1000 1 c.flags (c.value - 1)
  reopen_asoc_streams

-- sn_do_test_pr_bx()
unfoldable pub do_test_pr_bx : M Context (Unit {0})
do_test_pr_bx = do
  do_setup_so_sndbuf
  close_asoc_streams
  c ← current_case
  send_asoc_msg c.length 1 (bit_or c.flags 0x1) c.value
  send_asoc_msg 1000 1 (bit_or c.flags 0x1) (c.value - 1)
  reopen_asoc_streams

-- sn_do_test_pr_cx()
unfoldable pub do_test_pr_cx : M Context (Unit {0})
do_test_pr_cx = do
  do_setup_so_sndbuf
  close_asoc_streams
  c ← current_case
  send_asoc_msg c.length 1 (bit_or c.flags 0x1) c.value
  send_asoc_msg 1000 1 (bit_or c.flags 0x1) (c.value - 1)
  send_asoc_msg 1000 1 c.flags (c.value - 1)
  reopen_asoc_streams

-- cleanup_sctp(), the second thread, its calls one by one
unfoldable pub cleanup_steps : List (M Context (Unit {0}))
cleanup_steps =
    emit (sleep 3)
    ∷ if_dropped (emit (system flush))
    ∷ if_dropped (print "all stream data can be transmitted now\n" [])
    ∷ if_dropped (emit (sleep 10))
    ∷ []

-- sn_do_test_pr_cxx(), on a schedule of its two threads
unfoldable pub do_test_pr_cxx : List Bool → M Context (Unit {0})
do_test_pr_cxx schedule = do
  do_setup_so_sndbuf
  close_asoc_streams
  c ← current_case
  send_asoc_msg 1 1 (bit_or c.flags 0x1) c.value
  send_asoc_msg 1 1 (bit_or c.flags 0x1) (c.value - 1)
  send_asoc_msg 1 1 (bit_or c.flags 0x1) c.value
  send_asoc_msg 1 1 (bit_or c.flags 0x1) c.value
  send_asoc_msg 1 1 (bit_or c.flags 0x1) (c.value - 1)
  emit (sleep 10)
  with_thread schedule
      (send_asoc_msg 1000 1 (bit_or c.flags 0x1) (c.value - 1)
        ∷ send_asoc_msg 1000 1 c.flags (c.value - 1)
        ∷ [])
      cleanup_steps
  emit (sleep 3)

-- sn_do_test_pr_cxxx()
unfoldable pub do_test_pr_cxxx : List Bool → M Context (Unit {0})
do_test_pr_cxxx schedule = do
  do_setup_so_sndbuf
  close_asoc_streams
  c ← current_case
  send_asoc_msg 1 0 (bit_or c.flags 0x1) c.value
  send_asoc_msg 1 1 (bit_or c.flags 0x1) (c.value - 1)
  send_asoc_msg 1 2 (bit_or c.flags 0x1) c.value
  send_asoc_msg 1 3 (bit_or c.flags 0x1) c.value
  send_asoc_msg 1 4 (bit_or c.flags 0x1) (c.value - 1)
  emit (sleep 10)
  with_thread schedule
      (send_asoc_msg 1000 2 (bit_or c.flags 0x1) (c.value - 1)
        ∷ send_asoc_msg 1000 3 c.flags (c.value - 1)
        ∷ [])
      cleanup_steps
  emit (sleep 3)

-- the calls through the table's pointers
unfoldable pub run_setup_pr : SetupPr → M Context (Unit {0})
run_setup_pr SetupPr.null = fault
run_setup_pr setup_pr = do_setup_pr

unfoldable pub run_test_pr : List Bool → TestPr → M Context (Unit {0})
run_test_pr schedule TestPr.null = fault
run_test_pr schedule test_pr = do_test_pr
run_test_pr schedule test_pr_b = do_test_pr_b
run_test_pr schedule test_pr_c = do_test_pr_c
run_test_pr schedule test_pr_x = do_test_pr_x
run_test_pr schedule test_pr_bx = do_test_pr_bx
run_test_pr schedule test_pr_cx = do_test_pr_cx
run_test_pr schedule test_pr_cxx = do_test_pr_cxx schedule
run_test_pr schedule test_pr_cxxx = do_test_pr_cxxx schedule
