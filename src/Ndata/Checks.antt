-- ===== src/Ndata/Checks.antt =====
-- What the receiver of sctp_ndata.c does with each data message.
use sctp_tests.Prelude.{ℕ, ◌+◌, pos, sub_ℕ, [], ◌∷◌, ◌==◌, if◌then◌else◌}
use sctp_tests.Posix.{M, now, gets, modify, pure, index, print, ◌>>=◌, ◌>>◌}
use sctp_tests.Harness.{Context}
use sctp_tests.Ndata.Cases.{
  AssertTests, assert_tests, prio_assert_tests, prio_stress_assert_tests, prio_small_assert_tests,
  prio_fuzz_assert_tests, current_case,
}

-- the first test of sn_do_assert_tests()
unfoldable pub note_sid : ℕ → ℕ → M Context (Unit {0})
note_sid stream expected =
    if stream == expected
    then pure tt
    else do modify (λ s. record s { cb1 = 1 }); print "unexpected sid packet !!!\n" []

-- sn_do_assert_tests()
unfoldable pub do_assert_tests : M Context (Unit {0})
do_assert_tests = do
  c ← current_case
  s ← gets (λ s. s)
  expected ← index c.sched_sids s.cb0
  note_sid s.sri_stream expected
  print "sid: %d, expected: %d\n" (pos s.sri_stream ∷ pos expected ∷ [])
  modify (λ s. record s { cb0 = s.cb0 + 1 })

-- `printf("PERF: %lf mb/s\n", megabits / (end - snc->cb[3]))`, with the quotient's two parts
unfoldable pub print_perf : ℕ → M Context (Unit {0})
print_perf megabits = do
  end ← now
  s ← gets (λ s. s)
  print "PERF: %lf mb/s\n" (pos megabits ∷ sub_ℕ end s.cb3 ∷ [])

-- `time(&snc->cb[3])`
unfoldable pub start_clock : M Context (Unit {0})
start_clock = do t ← now; modify (λ s. record s { cb3 = t })

-- sn_do_prio_assert_tests()
unfoldable pub do_prio_assert_tests : M Context (Unit {0})
do_prio_assert_tests = do
  modify (λ s. record s { cb0 = s.cb0 + 1 })
  s ← gets (λ s. s)
  if s.cb0 == 1 then start_clock else if s.cb0 == 1000000 then print_perf 8000 else pure tt

-- `snc->cb[0] += snc->cb[2]`
unfoldable pub add_length : M Context (Unit {0})
add_length = modify (λ s. record s { cb0 = s.cb0 + s.cb2 })

-- sn_do_prio_stress_assert_tests()
unfoldable pub do_prio_stress_assert_tests : M Context (Unit {0})
do_prio_stress_assert_tests = do
  add_length
  s ← gets (λ s. s)
  if s.cb3 == 0 then start_clock else if s.cb0 == 1024000000 then print_perf 8000 else pure tt

-- sn_do_prio_small_assert_tests()
unfoldable pub do_prio_small_assert_tests : M Context (Unit {0})
do_prio_small_assert_tests = do
  add_length
  s ← gets (λ s. s)
  if s.cb3 == 0 then start_clock else if s.cb0 == 6400000 then print_perf 50 else pure tt

-- sn_do_prio_fuzz_assert_tests()
unfoldable pub do_prio_fuzz_assert_tests : M Context (Unit {0})
do_prio_fuzz_assert_tests = do
  add_length
  s ← gets (λ s. s)
  print "sid: %d, len: %d, total_len: %d\n" (pos s.sri_stream ∷ pos s.cb2 ∷ pos s.cb0 ∷ [])

-- the call through the table's pointer
unfoldable pub run_assert_tests : AssertTests → M Context (Unit {0})
run_assert_tests assert_tests = do_assert_tests
run_assert_tests prio_assert_tests = do_prio_assert_tests
run_assert_tests prio_stress_assert_tests = do_prio_stress_assert_tests
run_assert_tests prio_small_assert_tests = do_prio_small_assert_tests
run_assert_tests prio_fuzz_assert_tests = do_prio_fuzz_assert_tests
