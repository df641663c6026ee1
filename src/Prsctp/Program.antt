-- ===== src/Prsctp/Program.antt =====
-- do_client(), do_server() and main() of sctp_pr.c.
use sctp_tests.Prelude.{ℕ, String, ℤ, pos, Bool, List}
use sctp_tests.Posix.{M, SockOpt, setsockopt, sleep, gets, modify, pure, emit, must, ◌>>=◌, ◌>>◌}
use sctp_tests.Harness
use sctp_tests.Harness.{Context, zeroed, serve}
use sctp_tests.Prsctp.Shared.{create_asoc_sk, create_listen_sk, enable_sk_recvinfo, close_asoc_sk}
use sctp_tests.Prsctp.Cases.{current_case}
use sctp_tests.Prsctp.Traffic.{run_setup_pr, run_test_pr}
use sctp_tests.Prsctp.Checks.{run_check_pr}

-- sn_enable_asoc_prsctp_support()
unfoldable pub enable_asoc_prsctp_support : M Context (Unit {0})
enable_asoc_prsctp_support = do
  s ← gets (λ s. s)
  must (setsockopt s.fd (SockOpt.pr_supported s.asoc_id 1)) "setsockopt"

-- do_client(), on a schedule of the threads of its test
unfoldable pub do_client : List Bool → String → String → ℤ → M Context ℤ
do_client schedule ip port number = do
  emit (sleep 3)
  modify (λ _. record zeroed { case_no = number })
  create_asoc_sk ip port
  c ← current_case
  run_setup_pr c.do_setup_pr
  enable_asoc_prsctp_support
  d ← current_case
  run_test_pr schedule d.do_test_pr
  emit (sleep 5)
  close_asoc_sk
  pure (pos 0)

-- what the receiver does with a data message
unfoldable pub check : M Context (Unit {0})
check = do c ← current_case; run_check_pr c.do_check_pr

-- do_server(), for at most so many messages; SCTP_ENABLE_RESET_STREAM_REQ is 1
unfoldable pub do_server : ℕ → String → String → ℤ → M Context ℤ
do_server fuel ip port number = do
  modify (λ _. record zeroed { case_no = number; cb1 = 1 })
  create_listen_sk ip port
  enable_sk_recvinfo
  serve 1 check fuel
  gets (λ s. pos s.cb1)

-- main()
unfoldable pub main : ℕ → List Bool → List String → M Context ℤ
main fuel schedule = Harness.main (do_server fuel) (do_client schedule)
