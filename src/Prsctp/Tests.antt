-- ===== src/Prsctp/Tests.antt =====
-- Runs of the model of sctp_pr.c, and its theorems at concrete inputs.
use sctp_tests.Prelude.{◌≡◌, refl, pos, some, true, false, List, [], ◌∷◌, get_elem?, arith}
use sctp_tests.Posix.Triple.{Ends, Never}
use sctp_tests.Harness.{zeroed}
use sctp_tests.Harness.Peer.{Message, scripted, scripted-Delivers}
use sctp_tests.Harness.Script.{data_of, has_close, has_reset}
use sctp_tests.Posix.{Call, Outcome, trace_of, emit, must, must_send, index, or_fault, ◌>>=◌}
use sctp_tests.Posix.Tells.{collect}
use sctp_tests.Harness.{Context, send_asoc_msg}
use sctp_tests.Harness.Script.{lengths}
use sctp_tests.Prsctp.Cases.{case_at, current_case}
use sctp_tests.Posix.{sequence}
use sctp_tests.Prsctp.Traffic.{
  do_setup_so_sndbuf, close_asoc_streams, if_dropped, reopen_steps, reopen_asoc_streams,
  do_test_pr_cx, run_test_pr,
}
use sctp_tests.Prsctp.Policy.{noted, queue, kept}
use sctp_tests.Prsctp.Policy.Expected.{policy_expected, policy_delivery}
use sctp_tests.Prsctp.Cases.{
  PrCase, pr_case, pr_sctp_prio, TestPr, check_pr_cx, check_pr_cxx, sn_cases,
}
use sctp_tests.Prsctp.Program.{do_server, do_client}
use sctp_tests.Posix.Started.{Unstarted}
use sctp_tests.Posix.Dropping.{dropping, AnyExit}
use sctp_tests.Posix.Rules.{IsReported}
use sctp_tests.Harness.Unlisted.{NoReturn}
use sctp_tests.Prsctp.Unlisted.{policy_client-NoReturn}
use sctp_tests.Prsctp.Exits.{policy_client-Ends}
use sctp_tests.Prsctp.Firewall.{policy_client-Opens}
use sctp_tests.Prsctp.Score.{passes}
use sctp_tests.Prsctp.Verdict.{policy_verdict}

abbrev cxx_case : PrCase
cxx_case = pr_case pr_sctp_prio 2 500 TestPr.test_pr_cxx check_pr_cxx

cxx_case_at : get_elem? sn_cases 9 ≡ some cxx_case
unfolding sn_cases
cxx_case_at = refl

-- The two small messages that are kept_messages, then the two large ones, and the command to close.
abbrev kept_messages : List Message
kept_messages = (1, 1) ∷ (1, 1) ∷ (1000, 1) ∷ (1000, 1) ∷ (12, 0) ∷ []

policy_verdict_example :
    Ends
      (λ status _ _. status ≡ pos 0)
      (λ _. Never)
      Never
      (do_server 5 "10.0.0.1" "8888" (pos 9) (scripted kept_messages) zeroed [])
unfolding data_of has_close has_reset passes
policy_verdict_example =
    policy_verdict 9 cxx_case cxx_case_at (λ e. cc e) (scripted kept_messages) kept_messages
      (scripted-Delivers kept_messages) 5 "10.0.0.1" "8888" refl refl (omega arith) (omega arith)

policy_client-Ends_example :
    Ends
      (λ status _ _. status ≡ pos 0)
      IsReported
      (Unstarted (scripted []))
      (do_client (true ∷ false ∷ []) "10.0.0.1" "8888" (pos 9) (scripted []) zeroed [])
policy_client-Ends_example =
    policy_client-Ends (scripted []) (true ∷ false ∷ []) "10.0.0.1" "8888" 9 zeroed [] (omega arith)

policy_client-Opens_example :
    Ends
      (λ status _ log. (status ≡ pos 0) × (dropping log ≡ false))
      AnyExit
      (λ _. Unit)
      (do_client (true ∷ true ∷ false ∷ []) "10.0.0.1" "8888" (pos 9) (scripted []) zeroed [])
policy_client-Opens_example =
    policy_client-Opens (scripted []) 9 cxx_case cxx_case_at (λ log. refl) refl
      (true ∷ true ∷ false ∷ []) "10.0.0.1" "8888" zeroed [] refl

abbrev cx_case : PrCase
cx_case = pr_case pr_sctp_prio 2 4500 TestPr.test_pr_cx check_pr_cx

cx_case_at : get_elem? sn_cases 8 ≡ some cx_case
unfolding sn_cases
cx_case_at = refl

abbrev begun : Context
begun = record zeroed { case_no = pos 8 }

policy_expected_example :
    Ends
      (λ _ _ log. kept (collect noted log) ≡ 1000 ∷ 1000 ∷ [])
      IsReported
      Never
      (run_test_pr [] TestPr.test_pr_cx (scripted []) begun [])
    × (passes check_pr_cx (1000 ∷ 1000 ∷ []) ≡ true)
policy_expected_example = policy_expected 8 cx_case cx_case_at tt (scripted []) [] begun refl

abbrev sent_log : List Call
sent_log = trace_of (run_test_pr [] TestPr.test_pr_cx (scripted []) begun [])

test_returns :
    run_test_pr [] TestPr.test_pr_cx (scripted []) begun [] ≡ Outcome.returned tt begun sent_log
unfolding run_test_pr do_test_pr_cx do_setup_so_sndbuf close_asoc_streams reopen_asoc_streams
    reopen_steps if_dropped sequence current_case case_at sn_cases index or_fault send_asoc_msg emit
    must must_send ◌>>=◌
test_returns = refl

-- The two messages of a high priority, and the command to close.
abbrev high_messages : List Message
high_messages = (1000, 1) ∷ (1000, 1) ∷ (12, 0) ∷ []

same_lengths : lengths (data_of high_messages) ≡ kept (collect noted sent_log)
unfolding run_test_pr do_test_pr_cx do_setup_so_sndbuf close_asoc_streams reopen_asoc_streams
    reopen_steps if_dropped sequence current_case case_at sn_cases index or_fault send_asoc_msg emit
    must must_send ◌>>=◌ data_of kept queue
same_lengths = refl

policy_delivery_example :
    (lengths (data_of high_messages) ≡ 1000 ∷ 1000 ∷ [])
    × Ends
        (λ status _ _. status ≡ pos 0)
        (λ _. Never)
        Never
        (do_server 5 "10.0.0.1" "8888" (pos 8) (scripted high_messages) zeroed [])
unfolding data_of has_close has_reset
policy_delivery_example =
    policy_delivery 8 cx_case cx_case_at tt (scripted []) [] begun begun sent_log
      (scripted high_messages) high_messages 5 "10.0.0.1" "8888" (λ e. cc e) refl test_returns
      (scripted-Delivers high_messages) refl refl (omega arith) same_lengths (omega arith)

-- a case between those listed and SN_CASE_MAX
policy_client-NoReturn_example :
    Ends NoReturn IsReported
      (λ _. Unit {0})
      (do_client (true ∷ []) "10.0.0.1" "8888" (pos 12) (scripted []) zeroed [])
policy_client-NoReturn_example =
    policy_client-NoReturn (scripted []) (pos 12) (omega arith) (true ∷ []) "10.0.0.1" "8888" zeroed
      []
