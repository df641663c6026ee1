-- ===== src/Strreset/Firewall.antt =====
-- The rules that the client of strreset.c hands to iptables.
mod Traffic
use sctp_tests.Prelude.{ℕ, ◌≡◌, refl, String, ℤ, pos, false, some, List, get_elem?}
use sctp_tests.Posix.{Call, Kernel, M, sleep, modify, emit, pure, ◌>>=◌}
use sctp_tests.Posix.Rules.{Keeps-fault}
use sctp_tests.Posix.Triple.{Ends, Keeps, Triple, Triple-then, Keeps-bind, Keeps-pure}
use sctp_tests.Posix.Dropping.{dropping, AnyExit}
use sctp_tests.Harness.{Context, zeroed, cmd_ack}
use sctp_tests.Harness.Stable.{
  create_asoc_sk-Keeps, enable_asoc_strreset-Keeps, enable_peer_strreset-Keeps, close_asoc_sk-Keeps,
}
use sctp_tests.Strreset.Cases.{SetupReset, setup_pr, ResetCase, sn_cases}
use sctp_tests.Strreset.Traffic.{run_setup_pr, do_setup_pr}
use sctp_tests.Strreset.Shared.{enable_strreset_mask}
use sctp_tests.Strreset.Program.{do_client}
use Traffic.{Opened, Stable-Opened, o_cur, run_test_pr-Open}

module _ (k : Kernel) (i : ℕ) (c : ResetCase) (at_i : get_elem? sn_cases i ≡ some c) where
  abbrev Here : Context → List Call → Type 0
  Here = Opened k i c at_i

  abbrev Open : Context → List Call → Type 0
  Open s log = dropping log ≡ false

  abbrev Succeeds : ℤ → Context → List Call → Type 0
  Succeeds status s log = (status ≡ pos 0) × (dropping log ≡ false)

  waits : Keeps k Open AnyExit (λ _. Unit) (emit (sleep 3))
  unfolding emit ◌>>=◌
  waits = record { at = λ s log p. p }

  begins :
      Triple k Open
        (λ _. Here)
        AnyExit
        (λ _. Unit)
        (modify (λ _. record zeroed { case_no = pos i }))
  unfolding modify
  begins = record { at = λ s log p. (p, refl) }

  success : Triple k Here Succeeds AnyExit (λ _. Unit) (pure (pos 0))
  unfolding pure
  success = record { at = λ s log (p, q). (refl, p) }

  setup : (f : SetupReset) → Keeps k Here AnyExit (λ _. Unit) (run_setup_pr f)
  unfolding run_setup_pr do_setup_pr
  setup SetupReset.null = Keeps-fault
  setup setup_pr = Keeps-pure tt

  do_client-Open :
      (ip port : String) → Triple k Open Succeeds AnyExit (λ _. Unit) (do_client ip port (pos i))
  unfolding do_client
  do_client-Open ip port =
      let stable = Stable-Opened k i c at_i in
      let cur = o_cur k i c at_i in
      Keeps-bind _ _ waits λ _. Triple-then _ _ begins λ _.
        Keeps-bind _ _ (create_asoc_sk-Keeps Here AnyExit (λ _. Unit) k stable ip port) λ _.
          Keeps-bind _ _ cur λ c1. Keeps-bind _ _ (setup c1.do_setup_pr) λ _.
            Keeps-bind _ _
              (enable_asoc_strreset-Keeps Here AnyExit (λ _. Unit) k stable enable_strreset_mask)
              λ _.
                Keeps-bind _ _
                  (enable_peer_strreset-Keeps Here AnyExit (λ _. Unit) k stable cmd_ack)
                  λ _. Keeps-bind _ _ cur λ c2.
                    Keeps-bind _ _ (run_test_pr-Open k i c at_i c2.do_test_pr) λ _.
                      Keeps-bind _ _ (close_asoc_sk-Keeps Here AnyExit (λ _. Unit) k stable cmd_ack)
                        λ _. success

  -- From a start at which no packets are dropped, the client of a case of the table returns only 0,
  -- and only with no rule left that drops packets; what it leaves when it exits early is not said.
  pub reset_client-Opens :
      (ip port : String) (s : Context) (log : List Call)
      → dropping log ≡ false
      → Ends
          (λ status _ log'. (status ≡ pos 0) × (dropping log' ≡ false))
          AnyExit
          (λ _. Unit)
          (do_client ip port (pos i) k s log)
  reset_client-Opens ip port s log h = (do_client-Open ip port).at s log h
