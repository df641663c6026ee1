-- ===== src/Ndata/Traffic.antt =====
-- The messages that each test of sctp_ndata.c sends.
use sctp_tests.Prelude.{ℕ, ◌+◌, ◌%◌, pos}
use sctp_tests.Posix.{M, srand, sleep, now, draw, modify, emit, for_range, ◌>>=◌, ◌>>◌}
use sctp_tests.Harness.{Context, send_asoc_msg}
use sctp_tests.Ndata.Cases.{
  SchedTests, sched_tests, prio_sched_tests, prio_sched_tests_x, prio_sched_tests_y,
  prio_stress_sched_tests, prio_small_sched_tests, prio_fuzz_sched_tests, prio_fuzzb_sched_tests,
  sn_case_max, current_case,
}
use sctp_tests.Ndata.Setup.{run_setup_sched, run_setup_schedvalue}

-- the loops that the tests share: `repeats` times, on each stream 0 to 9, `counts` times the body
unfoldable pub on_streams : ℕ → ℕ → (ℕ → M Context (Unit {0})) → M Context (Unit {0})
on_streams repeats counts body =
    for_range repeats 0 (λ _. for_range 10 0 (λ stream. for_range counts 0 (λ _. body stream)))

-- sn_do_sched_tests()
unfoldable pub do_sched_tests : M Context (Unit {0})
do_sched_tests = for_range 3 1 (λ stream. for_range 3 0 (λ _. send_asoc_msg 1024 stream 0 0))

-- sn_do_prio_sched_tests()
unfoldable pub do_prio_sched_tests : M Context (Unit {0})
do_prio_sched_tests = do
  on_streams 10000 10 (λ stream. send_asoc_msg 1024 stream 0 0)
  emit (sleep 10)

-- sn_do_prio_sched_tests_x()
unfoldable pub do_prio_sched_tests_x : M Context (Unit {0})
do_prio_sched_tests_x = do
  on_streams 10000 10 (λ stream. send_asoc_msg 1024 stream 1 0)
  emit (sleep 10)

-- sn_do_prio_sched_tests_y()
unfoldable pub do_prio_sched_tests_y : M Context (Unit {0})
do_prio_sched_tests_y = do
  on_streams 10000 5 (λ stream. do send_asoc_msg 1024 stream 0 0; send_asoc_msg 1024 stream 1 0)
  emit (sleep 10)

-- sn_do_prio_stress_sched_tests()
unfoldable pub do_prio_stress_sched_tests : M Context (Unit {0})
do_prio_stress_sched_tests = do
  on_streams 1000 10 (λ stream. send_asoc_msg 10240 stream 0 0)
  emit (sleep 10)

-- sn_do_prio_small_sched_tests()
unfoldable pub do_prio_small_sched_tests : M Context (Unit {0})
do_prio_small_sched_tests = do
  on_streams 1000 10 (λ stream. send_asoc_msg 64 stream 0 0)
  emit (sleep 10)

-- `int msg_len = rand() % range + 20; sn_send_asoc_msg(snc, msg_len, stream, 0);`
unfoldable pub send_random : ℕ → ℕ → M Context (Unit {0})
send_random range stream = do r ← draw; send_asoc_msg (r % range + 20) stream 0 0

-- `srand((unsigned int)time(NULL))`
unfoldable pub seed : M Context (Unit {0})
seed = do t ← now; emit (srand t)

-- sn_do_prio_fuzz_sched_tests()
unfoldable pub do_prio_fuzz_sched_tests : M Context (Unit {0})
do_prio_fuzz_sched_tests = do seed; on_streams 10000 10 (send_random 1500); emit (sleep 10)

-- a round of sn_do_prio_fuzzb_sched_tests(): another case's settings, then the messages
unfoldable pub fuzzb_round : M Context (Unit {0})
fuzzb_round = do
  r ← draw
  modify (λ s. record s { case_no = pos (r % sn_case_max) })
  c ← current_case
  run_setup_sched c.do_setup_sched
  d ← current_case
  run_setup_schedvalue d.do_setup_schedvalue
  for_range 10 0 (λ stream. for_range 10 0 (λ _. send_random 3000 stream))

-- sn_do_prio_fuzzb_sched_tests()
unfoldable pub do_prio_fuzzb_sched_tests : M Context (Unit {0})
do_prio_fuzzb_sched_tests = do seed; for_range 10000 0 (λ _. fuzzb_round); emit (sleep 10)

-- the call through the table's pointer
unfoldable pub run_sched_tests : SchedTests → M Context (Unit {0})
run_sched_tests sched_tests = do_sched_tests
run_sched_tests prio_sched_tests = do_prio_sched_tests
run_sched_tests prio_sched_tests_x = do_prio_sched_tests_x
run_sched_tests prio_sched_tests_y = do_prio_sched_tests_y
run_sched_tests prio_stress_sched_tests = do_prio_stress_sched_tests
run_sched_tests prio_small_sched_tests = do_prio_small_sched_tests
run_sched_tests prio_fuzz_sched_tests = do_prio_fuzz_sched_tests
run_sched_tests prio_fuzzb_sched_tests = do_prio_fuzzb_sched_tests
