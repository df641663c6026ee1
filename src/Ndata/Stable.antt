-- ===== src/Ndata/Stable.antt =====
-- Invariants of the settings and the traffic of sctp_ndata.c.
use sctp_tests.Prelude.{ℕ, ◌%◌, ℤ, pos, List}
use sctp_tests.Posix.{Call, Kernel, M, modify}
use sctp_tests.Posix.Rules.{call_rules}
use sctp_tests.Posix.Triple.{Keeps}
use sctp_tests.Harness.{Context}
use sctp_tests.Harness.Stable.{Stable, send_asoc_msg-Keeps}
use sctp_tests.Ndata.Cases.{
  SetupSched, setup_sched, SetupSchedvalue, setup_schedvalue, SchedTests, sched_tests, sn_case_max,
  current_case,
}
use sctp_tests.Ndata.Setup.{
  run_setup_sched, run_setup_schedvalue, do_setup_sched, set_stream_value, do_setup_schedvalue,
  do_prio_setup_schedvalue, do_prio_stress_setup_schedvalue, do_rr_setup_schedvalue,
}
use sctp_tests.Ndata.Traffic.{
  do_sched_tests, do_prio_sched_tests, do_prio_sched_tests_x, do_prio_sched_tests_y,
  do_prio_stress_sched_tests, do_prio_small_sched_tests, do_prio_fuzz_sched_tests,
  do_prio_fuzzb_sched_tests, fuzzb_round, run_sched_tests, on_streams, send_random, seed,
}

-- `sn_cases[snc->sched]` keeps the invariant too.
module _ (P : Context → List Call → Type 0) (E : ℤ → List Call → Type 0) (F : List Call → Type 0)
    (k : Kernel) (st : Stable P E) (cur : Keeps k P E F current_case) where
  set_stream_value-Keeps : (stream value : ℕ) → Keeps k P E F (set_stream_value stream value)
  unfolding set_stream_value
  set_stream_value-Keeps stream value = search (call_rules, st.adds, st.dies, tt) depth 8

  pub run_setup_sched-Keeps : (f : SetupSched) → Keeps k P E F (run_setup_sched f)
  unfolding run_setup_sched do_setup_sched
  run_setup_sched-Keeps setup_sched = search (call_rules, st.adds, st.dies, tt) depth 8

  pub run_setup_schedvalue-Keeps : (f : SetupSchedvalue) → Keeps k P E F (run_setup_schedvalue f)
  unfolding run_setup_schedvalue do_setup_schedvalue do_prio_setup_schedvalue
      do_prio_stress_setup_schedvalue do_rr_setup_schedvalue
  run_setup_schedvalue-Keeps setup_schedvalue = search (call_rules, set_stream_value-Keeps)
  run_setup_schedvalue-Keeps _ = search (call_rules, set_stream_value-Keeps)

  pub do_sched_tests-Keeps : Keeps k P E F do_sched_tests
  unfolding do_sched_tests
  do_sched_tests-Keeps = search (call_rules, send_asoc_msg-Keeps P E F k st)

  on_streams-Keeps :
      (repeats counts : ℕ) (body : ℕ → M Context (Unit {0}))
      → ((stream : ℕ) → Keeps k P E F (body stream))
      → Keeps k P E F (on_streams repeats counts body)
  unfolding on_streams
  on_streams-Keeps repeats counts body h = search (call_rules, h)

  send_random-Keeps : (range stream : ℕ) → Keeps k P E F (send_random range stream)
  unfolding send_random
  send_random-Keeps range stream =
      search (call_rules, st.adds, tt, send_asoc_msg-Keeps P E F k st) depth 8

  seed-Keeps : Keeps k P E F seed
  unfolding seed
  seed-Keeps = search (call_rules, st.adds, tt) depth 8

  -- and so does the choice of another case
  module _
      (other : (r : ℕ) (s : Context) (log : List Call)
        → P s log
        → P (record s { case_no = pos (r % sn_case_max) }) log) where
    current_case-Keeps : Keeps k P E F current_case
    current_case-Keeps = cur

    choose_case-Keeps :
        (r : ℕ) → Keeps k P E F (modify (λ s. record s { case_no = pos (r % sn_case_max) }))
    unfolding modify
    choose_case-Keeps r = record { at = other r }

    fuzzb_round-Keeps : Keeps k P E F fuzzb_round
    unfolding fuzzb_round
    fuzzb_round-Keeps =
        search
          (
            call_rules, st.adds, tt, current_case-Keeps, choose_case-Keeps, run_setup_sched-Keeps,
            run_setup_schedvalue-Keeps, send_random-Keeps,
          )
          depth 14

    ruleset traffic_rules = (
      call_rules, on_streams-Keeps, send_random-Keeps, seed-Keeps, fuzzb_round-Keeps,
      do_sched_tests-Keeps,
    )

    pub run_sched_tests-Keeps : (t : SchedTests) → Keeps k P E F (run_sched_tests t)
    unfolding run_sched_tests do_prio_sched_tests do_prio_sched_tests_x do_prio_sched_tests_y
        do_prio_stress_sched_tests do_prio_small_sched_tests do_prio_fuzz_sched_tests
        do_prio_fuzzb_sched_tests
    run_sched_tests-Keeps sched_tests = search traffic_rules
    run_sched_tests-Keeps _ =
        search (traffic_rules, send_asoc_msg-Keeps P E F k st, st.adds, tt) depth 10
