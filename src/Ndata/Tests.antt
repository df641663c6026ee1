-- ===== src/Ndata/Tests.antt =====
-- Runs of the model of sctp_ndata.c, and its theorems at concrete inputs.
use sctp_tests.Prelude.{◌<◌, ◌≡◌, ℕ, refl, pos, some, false, List, [], ◌∷◌, All, get_elem?, arith}
use sctp_tests.Posix.{
  Kernel, Received, got, Call, Outcome, trace_of, emit, must, must_send, fetch, index, or_fault,
  for_range, ◌>>=◌,
}
use sctp_tests.Posix.Triple.{Ends, Never}
use sctp_tests.Posix.Volume.{volume}
use sctp_tests.Ndata.Checks.{
  add_length, print_perf, run_assert_tests, do_prio_small_assert_tests, start_clock,
}
use sctp_tests.Harness.{
  zeroed, create_listen_sk, do_setup_frag_interleave, do_setup_strm_interleave, enable_sk_recvinfo,
  serve, get_peer_cmd, command_read, handle, send_asoc_msg,
}
use sctp_tests.Harness.Peer.{Message, scripted, scripted-Delivers}
use sctp_tests.Ndata.Cases.{
  SnCase, sn_case, ss_prio, no_sids, prio_stress_setup_schedvalue, prio_small_sched_tests,
  prio_small_assert_tests, setup_schedvalue, prio_fuzzb_sched_tests, sched_tests, assert_tests,
  sn_cases, case_at, current_case,
}
use sctp_tests.Ndata.Setup.{
  run_setup_sched, do_setup_sched, run_setup_schedvalue, do_setup_schedvalue, set_stream_value,
}
use sctp_tests.Ndata.Traffic.{run_sched_tests, do_sched_tests}
use sctp_tests.Posix.Dropping.{dropping, AnyExit}
use sctp_tests.Ndata.Firewall.{do_client-Opens}
use sctp_tests.Ndata.Scheduler.{events, delivered}
use sctp_tests.Ndata.Scheduler.Client.{expected_order}
use sctp_tests.Ndata.Scheduler.Expected.{scheduled, schedule_delivery}
use sctp_tests.Ndata.Program.{check, do_server, do_client}
use sctp_tests.Ndata.Lengths.{IsData, run_sched_tests-All}
use sctp_tests.Harness.Script.{data_of, has_close, streams}
use sctp_tests.Ndata.Verdict.{agrees, server_verdict}
use sctp_tests.Posix.Rules.{IsReported}
use sctp_tests.Ndata.Exits.{do_client-Ends}
use sctp_tests.Ndata.Volume.{bytes, weight, performance_volume}
use sctp_tests.Ndata.Corked.{HeldBack, do_client-HeldBack}
use sctp_tests.Ndata.Throughput.{perf_lines, hits}
use sctp_tests.Ndata.Throughput.Once.{PrintsOnce, performance_once}
use sctp_tests.Ndata.Throughput.Server.{do_server-Agreed}

-- The messages of the first case in their order, behind the command to allow resets.
abbrev good_order : List Message
good_order =
    (11, 0)
    ∷ (1024, 3)
    ∷ (1024, 3)
    ∷ (1024, 3)
    ∷ (1024, 2)
    ∷ (1024, 2)
    ∷ (1024, 2)
    ∷ (1024, 1)
    ∷ (1024, 1)
    ∷ (1024, 1)
    ∷ (12, 0)
    ∷ []

abbrev first_case : SnCase
first_case =
    sn_case ss_prio 1 (3 ∷ 3 ∷ 3 ∷ 2 ∷ 2 ∷ 2 ∷ 1 ∷ 1 ∷ 1 ∷ []) setup_schedvalue sched_tests
      assert_tests

first_case_at : get_elem? sn_cases 0 ≡ some first_case
unfolding sn_cases
first_case_at = refl

server_verdict_example :
    Ends
      (λ status _ _. status ≡ pos 0)
      (λ _. Never)
      Never
      (do_server 20 "10.0.0.1" "8888" (pos 0) (scripted good_order) zeroed [])
unfolding data_of has_close agrees
server_verdict_example =
    server_verdict 0 first_case first_case_at refl (scripted good_order) good_order
      (scripted-Delivers good_order) 20 "10.0.0.1" "8888" refl (omega arith) (omega arith)

run_sched_tests-All_example :
    All IsData (trace_of (run_sched_tests prio_fuzzb_sched_tests (scripted []) zeroed []))
run_sched_tests-All_example = run_sched_tests-All prio_fuzzb_sched_tests (scripted []) zeroed

do_client-Ends_example :
    Ends
      (λ status _ _. status ≡ pos 0)
      IsReported
      Never
      (do_client "10.0.0.1" "8888" (pos 12) (scripted []) zeroed [])
do_client-Ends_example = do_client-Ends (scripted []) "10.0.0.1" "8888" 12 zeroed [] (omega arith)

abbrev small_case : SnCase
small_case =
    sn_case 0 0 no_sids prio_stress_setup_schedvalue prio_small_sched_tests prio_small_assert_tests

small_case_at : get_elem? sn_cases 16 ≡ some small_case
unfolding sn_cases
small_case_at = refl

performance_volume_example :
    Ends
      (λ _ _ log. volume (weight bytes) log ≡ 6400000)
      IsReported
      Never
      (run_sched_tests prio_small_sched_tests (scripted []) zeroed [])
performance_volume_example =
    performance_volume (scripted []) zeroed 16 small_case bytes 6400000 small_case_at refl

expected_order_example :
    Ends
      (λ _ _ log. delivered (events log) ≡ 3 ∷ 3 ∷ 3 ∷ 2 ∷ 2 ∷ 2 ∷ 1 ∷ 1 ∷ 1 ∷ [])
      IsReported
      Never
      (do_client "10.0.0.1" "8888" (pos 0) (scripted []) zeroed [])
expected_order_example =
    expected_order (scripted []) 0 first_case first_case_at refl "10.0.0.1" "8888" zeroed

abbrev sent_log : List Call
sent_log = trace_of (scheduled first_case (scripted []) zeroed [])

client_returns : scheduled first_case (scripted []) zeroed [] ≡ Outcome.returned tt zeroed sent_log
unfolding run_setup_sched do_setup_sched run_setup_schedvalue do_setup_schedvalue set_stream_value
    run_sched_tests do_sched_tests current_case case_at sn_cases index or_fault send_asoc_msg emit
    must must_send fetch for_range ◌>>=◌
client_returns = refl

in_order : streams (data_of good_order) ≡ delivered (events sent_log)
unfolding run_setup_sched do_setup_sched run_setup_schedvalue do_setup_schedvalue set_stream_value
    run_sched_tests do_sched_tests current_case case_at sn_cases index or_fault send_asoc_msg emit
    must must_send fetch for_range ◌>>=◌ data_of delivered
in_order = refl

schedule_delivery_example :
    Ends
      (λ status _ _. status ≡ pos 0)
      (λ _. Never)
      Never
      (do_server 11 "10.0.0.1" "8888" (pos 0) (scripted good_order) zeroed [])
unfolding has_close
schedule_delivery_example =
    schedule_delivery 0 first_case first_case_at refl (scripted []) zeroed zeroed sent_log
      (scripted good_order) good_order 11 "10.0.0.1" "8888" refl client_returns
      (scripted-Delivers good_order) refl in_order (omega arith)

do_client-Opens_example :
    Ends
      (λ status _ log. (status ≡ pos 0) × (dropping log ≡ false))
      AnyExit
      (λ _. Unit)
      (do_client "10.0.0.1" "8888" (pos 0) (scripted []) zeroed [])
do_client-Opens_example =
    do_client-Opens (scripted []) 0 first_case first_case_at "10.0.0.1" "8888" zeroed [] refl

-- A kernel that delivers messages of 20000 bytes on and on.
abbrev flooded : Kernel
flooded = record (scripted []) { received = λ log. got 20000 0 }

flooded-fits : (len sid : ℕ) → Path Received (got 20000 0) (got len sid) → len < 20481
flooded-fits len sid e = let same : 20000 ≡ len = cc in omega arith

flooded_positive : (len sid : ℕ) → Path Received (got 20000 0) (got len sid) → 0 < len
flooded_positive len sid e = let same : 20000 ≡ len = cc in omega arith

performance_once_example :
    Ends
      (λ _ _ log. PrintsOnce flooded bytes 6400000 log)
      (λ _ log. PrintsOnce flooded bytes 6400000 log)
      (PrintsOnce flooded bytes 6400000)
      (do_server 330 "10.0.0.1" "8888" (pos 16) flooded zeroed [])
performance_once_example =
    performance_once flooded 330 16 small_case bytes 6400000 "10.0.0.1" "8888" zeroed
      (λ log. omega arith) (λ log len sid e. (flooded_positive len sid e, flooded-fits len sid e))
      small_case_at refl

do_server-Agreed_example :
    Ends
      (λ _ _ log. perf_lines log ≡ hits flooded bytes 6400000 log)
      (λ _ log. perf_lines log ≡ hits flooded bytes 6400000 log)
      (λ log. perf_lines log ≡ hits flooded bytes 6400000 log)
      (do_server 330 "10.0.0.1" "8888" (pos 16) flooded zeroed [])
do_server-Agreed_example =
    do_server-Agreed flooded (λ log. omega arith) (λ log. flooded-fits) 16 small_case bytes 6400000
      small_case_at refl 330 "10.0.0.1" "8888" zeroed

-- The sum of 320 such messages is the total: one line is printed.
throughput_printed :
    perf_lines (trace_of (do_server 330 "10.0.0.1" "8888" (pos 16) flooded zeroed [])) ≡ 1
unfolding do_server ◌>>=◌ create_listen_sk must do_setup_frag_interleave do_setup_strm_interleave
    enable_sk_recvinfo serve get_peer_cmd command_read handle check current_case case_at index
    or_fault sn_cases add_length print_perf run_assert_tests do_prio_small_assert_tests start_clock
    emit
throughput_printed = refl

abbrev opened : Kernel
opened = scripted ((11, 0) ∷ (12, 0) ∷ [])

do_client-HeldBack_example :
    Ends
      (λ _ _ log. HeldBack opened log)
      (λ _ log. HeldBack opened log)
      (HeldBack opened)
      (do_client "10.0.0.1" "8888" (pos 0) opened zeroed [])
do_client-HeldBack_example =
    do_client-HeldBack opened 0 first_case first_case_at refl "10.0.0.1" "8888" zeroed
      (λ log rule. refl)
