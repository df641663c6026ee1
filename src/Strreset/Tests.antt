-- ===== src/Strreset/Tests.antt =====
-- Runs of the model of strreset.c, and its theorems at concrete inputs.
use sctp_tests.Prelude.{false, ◌*◌, ◌≡◌, refl, pos, some, List, [], ◌∷◌, get_elem?, arith}
use sctp_tests.Posix.{Outcome, trace_of, Call, emit, must_send, index, or_fault, for_range, ◌>>=◌}
use sctp_tests.Posix.Rules.{IsReported}
use sctp_tests.Posix.Triple.{Ends, Never}
use sctp_tests.Posix.Volume.{volume}
use sctp_tests.Harness.{Context, zeroed, send_asoc_msg}
use sctp_tests.Harness.Peer.{Message, scripted, scripted-Delivers}
use sctp_tests.Harness.Script.{data_of, has_close}
use sctp_tests.Strreset.Cases.{
  ResetCase, reset_case, test_pr_x, check_pr_x, sn_cases, case_at, current_case,
}
use sctp_tests.Strreset.Traffic.{
  run_test_pr, do_test_pr_x, close_asoc_streams, reopen_asoc_streams, send_values, send_value,
  set_strreset_inoutreq_1,
}
use sctp_tests.Strreset.Program.{do_server, do_client}
use sctp_tests.Posix.Dropping.{dropping, AnyExit}
use sctp_tests.Strreset.Firewall.{reset_client-Opens}
use sctp_tests.Harness.Unlisted.{NoReturn}
use sctp_tests.Strreset.Unlisted.{reset_client-NoReturn}
use sctp_tests.Strreset.Exits.{reset_client-Ends}
use sctp_tests.Strreset.Verdict.{reaches, reset_verdict}
use sctp_tests.Strreset.Volume.{bytes, reset_volume, reset_delivery}

abbrev stream_case : ResetCase
stream_case = reset_case 1 100 test_pr_x check_pr_x

stream_case_at : get_elem? sn_cases 4 ≡ some stream_case
unfolding sn_cases
stream_case_at = refl

-- Eleven hundred bytes in three pieces, behind the command to allow resets.
abbrev pieces : List Message
pieces = (11, 0) ∷ (100, 1) ∷ (900, 1) ∷ (100, 1) ∷ (12, 0) ∷ []

-- One message is lost.
abbrev lost : List Message
lost = (11, 0) ∷ (100, 1) ∷ (900, 1) ∷ (12, 0) ∷ []

reset_verdict_example :
    Ends
      (λ status _ _. status ≡ pos 1)
      (λ _. Never)
      Never
      (do_server 4 "10.0.0.1" "8888" (pos 4) (scripted lost) zeroed [])
unfolding data_of has_close reaches
reset_verdict_example =
    reset_verdict 4 stream_case stream_case_at (λ e. cc e) (scripted lost) lost
      (scripted-Delivers lost) 4 "10.0.0.1" "8888" refl (omega arith)

reset_volume_example :
    Ends
      (λ _ _ log. volume bytes log ≡ 11 * 100)
      IsReported
      Never
      (run_test_pr test_pr_x (scripted []) (record zeroed { case_no = pos 4 }) [])
reset_volume_example =
    reset_volume 4 stream_case stream_case_at (scripted []) (record zeroed { case_no = pos 4 })
      (λ e. cc e) refl

abbrev start : Context
start = record zeroed { case_no = pos 4 }

abbrev sent_log : List Call
sent_log = trace_of (run_test_pr test_pr_x (scripted []) start [])

test_returns : run_test_pr test_pr_x (scripted []) start [] ≡ Outcome.returned tt start sent_log
unfolding run_test_pr do_test_pr_x close_asoc_streams reopen_asoc_streams send_values send_value
    set_strreset_inoutreq_1 current_case case_at sn_cases index or_fault send_asoc_msg emit
    must_send for_range ◌>>=◌
test_returns = refl

as_many_bytes : 1100 ≡ volume bytes sent_log
unfolding run_test_pr do_test_pr_x close_asoc_streams reopen_asoc_streams send_values send_value
    set_strreset_inoutreq_1 current_case case_at sn_cases index or_fault send_asoc_msg emit
    must_send for_range ◌>>=◌
as_many_bytes = refl

reset_delivery_example :
    Ends
      (λ status _ _. status ≡ pos 0)
      (λ _. Never)
      Never
      (do_server 5 "10.0.0.1" "8888" (pos 4) (scripted pieces) zeroed [])
unfolding data_of has_close
reset_delivery_example =
    reset_delivery 4 stream_case stream_case_at (λ e. cc e) (λ e. cc e) (omega arith) (scripted [])
      start start sent_log (scripted pieces) pieces 5 "10.0.0.1" "8888" refl test_returns
      (scripted-Delivers pieces) refl as_many_bytes (omega arith)

reset_client-Ends_example :
    Ends
      (λ status _ _. status ≡ pos 0)
      IsReported
      Never
      (do_client "10.0.0.1" "8888" (pos 4) (scripted []) zeroed [])
reset_client-Ends_example =
    reset_client-Ends (scripted []) "10.0.0.1" "8888" 4 zeroed [] (omega arith)

reset_client-Opens_example :
    Ends
      (λ status _ log. (status ≡ pos 0) × (dropping log ≡ false))
      AnyExit
      (λ _. Unit)
      (do_client "10.0.0.1" "8888" (pos 4) (scripted []) zeroed [])
reset_client-Opens_example =
    reset_client-Opens (scripted []) 4 stream_case stream_case_at "10.0.0.1" "8888" zeroed [] refl

-- a case between those listed and SN_CASE_MAX
reset_client-NoReturn_example :
    Ends NoReturn IsReported
      (λ _. Unit {0})
      (do_client "10.0.0.1" "8888" (pos 12) (scripted []) zeroed [])
reset_client-NoReturn_example =
    reset_client-NoReturn (scripted []) (pos 12) (omega arith) "10.0.0.1" "8888" zeroed []
