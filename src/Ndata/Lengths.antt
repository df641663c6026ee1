-- ===== src/Ndata/Lengths.antt =====
-- The lengths of the messages that the tests of sctp_ndata.c send: none is a command's, and none is
-- longer than the buffer that it is sent from.
use sctp_tests.Prelude.{ℕ, ◌+◌, ◌%◌, ◌≤◌, ◌<◌, ◌≢◌, ℤ, pos, negsuc, [], All, arith}
use sctp_tests.Posix.{Call, Kernel, sendmsg, trace_of, M}
use sctp_tests.Posix.Issues.{Issues, issued, issues_rules}
use sctp_tests.Harness.{Context, cmd_set_strreset, cmd_close_asoc, send_asoc_msg}
use sctp_tests.Ndata.Cases.{
  SchedTests, sched_tests, SetupSched, setup_sched, SetupSchedvalue, setup_schedvalue, current_case,
  case_at,
}
use sctp_tests.Ndata.Setup.{
  run_setup_sched, run_setup_schedvalue, do_setup_sched, set_stream_value, do_setup_schedvalue,
  do_prio_setup_schedvalue, do_prio_stress_setup_schedvalue, do_rr_setup_schedvalue,
}
use sctp_tests.Ndata.Traffic.{
  do_sched_tests, do_prio_sched_tests, do_prio_sched_tests_x, do_prio_sched_tests_y,
  do_prio_stress_sched_tests, do_prio_small_sched_tests, do_prio_fuzz_sched_tests,
  do_prio_fuzzb_sched_tests, fuzzb_round, run_sched_tests, on_streams, send_random, seed,
}

-- A length that the receiver counts as data, and that fits `char buf[10240]`.
abbrev pub IsDataLength : ℕ → Type 0
IsDataLength len = (len ≢ cmd_set_strreset) × (len ≢ cmd_close_asoc) × (len ≤ 10240)

-- No command is among the messages sent.
abbrev pub IsData : Call → Type 0
IsData (sendmsg fd len flags sid value) = IsDataLength len
IsData _ = Unit

-- `rand() % range + 20`
random_length : (range r : ℕ) → 0 < range → range ≤ 3000 → IsDataLength (r % range + 20)
random_length range r p h = grind arith

constant_lengths : IsDataLength 1024 × IsDataLength 10240 × IsDataLength 64
constant_lengths = omega arith

module _ {k : Kernel} where
  send_asoc_msg-IsData :
      (len sid flags value : ℕ)
      → IsDataLength len
      → Issues k IsData (send_asoc_msg len sid flags value)
  unfolding send_asoc_msg
  send_asoc_msg-IsData len sid flags value h = search (issues_rules, h, tt) depth 10

  case_at-IsData : (i : ℤ) → Issues k IsData (case_at i)
  unfolding case_at
  case_at-IsData (pos i) = search issues_rules depth 8
  case_at-IsData (negsuc i) = search issues_rules depth 8

  current_case-IsData : Issues k IsData current_case
  unfolding current_case
  current_case-IsData = search (issues_rules, case_at-IsData) depth 10

  ruleset step_rules = (issues_rules, send_asoc_msg-IsData, current_case-IsData, tt)

  set_stream_value-IsData : (stream value : ℕ) → Issues k IsData (set_stream_value stream value)
  unfolding set_stream_value
  set_stream_value-IsData stream value = search step_rules depth 8

  run_setup_sched-IsData : (f : SetupSched) → Issues k IsData (run_setup_sched f)
  unfolding run_setup_sched do_setup_sched
  run_setup_sched-IsData setup_sched = search step_rules depth 8

  run_setup_schedvalue-IsData : (f : SetupSchedvalue) → Issues k IsData (run_setup_schedvalue f)
  unfolding run_setup_schedvalue do_setup_schedvalue do_prio_setup_schedvalue
      do_prio_stress_setup_schedvalue do_rr_setup_schedvalue
  run_setup_schedvalue-IsData setup_schedvalue =
      search (step_rules, set_stream_value-IsData) depth 10
  run_setup_schedvalue-IsData _ = search (step_rules, set_stream_value-IsData) depth 10

  on_streams-IsData :
      (repeats counts : ℕ) (body : ℕ → M Context (Unit {0}))
      → ((stream : ℕ) → Issues k IsData (body stream))
      → Issues k IsData (on_streams repeats counts body)
  unfolding on_streams
  on_streams-IsData repeats counts body h = search (step_rules, h) depth 10

  send_random-IsData :
      (range stream : ℕ) → 0 < range → range ≤ 3000 → Issues k IsData (send_random range stream)
  unfolding send_random
  send_random-IsData range stream p h =
      search (step_rules, λ (r : ℕ). random_length range r p h) depth 10

  seed-IsData : Issues k IsData seed
  unfolding seed
  seed-IsData = search step_rules depth 8

  fuzzb_round-IsData : Issues k IsData fuzzb_round
  unfolding fuzzb_round
  fuzzb_round-IsData =
      search
        (
          step_rules,
          run_setup_sched-IsData,
          run_setup_schedvalue-IsData,
          λ (stream : ℕ). send_random-IsData 3000 stream (omega arith) (omega arith),
        )
        depth 12

  run_sched_tests-IsData : (t : SchedTests) → Issues k IsData (run_sched_tests t)
  unfolding run_sched_tests do_sched_tests do_prio_sched_tests do_prio_sched_tests_x
      do_prio_sched_tests_y do_prio_stress_sched_tests do_prio_small_sched_tests
      do_prio_fuzz_sched_tests do_prio_fuzzb_sched_tests
  run_sched_tests-IsData sched_tests = search (step_rules, constant_lengths.0) depth 10
  run_sched_tests-IsData _ =
      search
        (
          step_rules,
          on_streams-IsData,
          seed-IsData,
          fuzzb_round-IsData,
          constant_lengths.0,
          constant_lengths.1,
          constant_lengths.2,
          λ (stream : ℕ). send_random-IsData 1500 stream (omega arith) (omega arith),
        )
        depth 10

-- Whatever a test draws at random and however it ends, no message that it sends has the length of a
-- command, so the receiver counts each as data, and none is longer than the buffer it comes from.
pub run_sched_tests-All :
    (t : SchedTests) (k : Kernel) (s : Context) → All IsData (trace_of (run_sched_tests t k s []))
run_sched_tests-All t k s = issued k IsData (run_sched_tests t) s (run_sched_tests-IsData t)
