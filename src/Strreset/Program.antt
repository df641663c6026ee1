-- ===== src/Strreset/Program.antt =====
-- do_client(), do_server() and main() of strreset.c.
use sctp_tests.Prelude.{ℕ, String, ℤ, pos, List}
use sctp_tests.Posix.{M, sleep, gets, modify, pure, emit, ◌>>=◌, ◌>>◌}
use sctp_tests.Harness
use sctp_tests.Harness.{Context, zeroed, serve}
use sctp_tests.Strreset.Shared.{
  create_asoc_sk, create_listen_sk, enable_asoc_strreset, enable_peer_strreset, enable_sk_recvinfo,
  close_asoc_sk, enable_strreset_mask,
}
use sctp_tests.Strreset.Cases.{current_case}
use sctp_tests.Strreset.Traffic.{run_setup_pr, run_test_pr}
use sctp_tests.Strreset.Checks.{run_check_pr}

-- do_client()
unfoldable pub do_client : String → String → ℤ → M Context ℤ
do_client ip port number = do
  emit (sleep 3)
  modify (λ _. record zeroed { case_no = number })
  create_asoc_sk ip port
  c ← current_case
  run_setup_pr c.do_setup_pr
  enable_asoc_strreset
  enable_peer_strreset
  d ← current_case
  run_test_pr d.do_test_pr
  close_asoc_sk
  pure (pos 0)

-- what the receiver does with a data message
unfoldable pub check : M Context (Unit {0})
check = do c ← current_case; run_check_pr c.do_check_pr

-- do_server(), for at most so many messages
unfoldable pub do_server : ℕ → String → String → ℤ → M Context ℤ
do_server fuel ip port number = do
  modify (λ _. record zeroed { case_no = number; cb1 = 1 })
  create_listen_sk ip port
  enable_sk_recvinfo
  serve enable_strreset_mask check fuel
  gets (λ s. pos s.cb1)

-- main()
unfoldable pub main : ℕ → List String → M Context ℤ
main fuel = Harness.main (do_server fuel) do_client
