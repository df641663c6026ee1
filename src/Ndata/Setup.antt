-- ===== src/Ndata/Setup.antt =====
-- The scheduler settings of sctp_ndata.c.
use sctp_tests.Prelude.{ℕ, ◌+◌, ◌-◌, ◌/◌, pos, [], ◌∷◌}
use sctp_tests.Posix.{
  M, SockOpt, GetOpt, setsockopt, getsockopt, gets, pure, must, fetch, print, for_range, ◌>>=◌,
  ◌>>◌,
}
use sctp_tests.Harness.{Context}
use sctp_tests.Ndata.Cases.{
  SetupSched, setup_sched, SetupSchedvalue, setup_schedvalue, prio_setup_schedvalue,
  prio_stress_setup_schedvalue, rr_setup_schedvalue, current_case,
}

-- sn_do_setup_sched()
unfoldable pub do_setup_sched : M Context (Unit {0})
do_setup_sched = do
  c ← current_case
  s ← gets (λ s. s)
  must (setsockopt s.fd (SockOpt.stream_scheduler s.asoc_id c.sched)) "setsockopt"
  set ← fetch (getsockopt s.fd (GetOpt.stream_scheduler s.asoc_id)) "getsockopt"
  print "ss sched: %d, expected: %d\n" (pos set ∷ pos c.sched ∷ [])

-- the body of the loops below: one stream's value is set, read back and printed
unfoldable pub set_stream_value : ℕ → ℕ → M Context (Unit {0})
set_stream_value stream value = do
  s ← gets (λ s. s)
  must (setsockopt s.fd (SockOpt.stream_scheduler_value s.asoc_id stream value)) "setsockopt"
  set ← fetch (getsockopt s.fd (GetOpt.stream_scheduler_value s.asoc_id stream)) "getsockopt"
  print "ss schedvalue: %d, expected: %d\n" (pos set ∷ pos value ∷ [])

-- sn_do_setup_schedvalue()
unfoldable pub do_setup_schedvalue : M Context (Unit {0})
do_setup_schedvalue = for_range 3 1 (λ stream. set_stream_value stream (10 - stream))

-- sn_do_prio_setup_schedvalue()
unfoldable pub do_prio_setup_schedvalue : M Context (Unit {0})
do_prio_setup_schedvalue = for_range 3 1 (λ stream. set_stream_value stream ((10 - stream) / 8 + 8))

-- sn_do_prio_stress_setup_schedvalue()
unfoldable pub do_prio_stress_setup_schedvalue : M Context (Unit {0})
do_prio_stress_setup_schedvalue = for_range 10 0 (λ stream. set_stream_value stream (10 - stream))

-- sn_do_rr_setup_schedvalue()
unfoldable pub do_rr_setup_schedvalue : M Context (Unit {0})
do_rr_setup_schedvalue = pure tt

-- the calls through the table's pointers
unfoldable pub run_setup_sched : SetupSched → M Context (Unit {0})
run_setup_sched setup_sched = do_setup_sched

unfoldable pub run_setup_schedvalue : SetupSchedvalue → M Context (Unit {0})
run_setup_schedvalue setup_schedvalue = do_setup_schedvalue
run_setup_schedvalue prio_setup_schedvalue = do_prio_setup_schedvalue
run_setup_schedvalue prio_stress_setup_schedvalue = do_prio_stress_setup_schedvalue
run_setup_schedvalue rr_setup_schedvalue = do_rr_setup_schedvalue
