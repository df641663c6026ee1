-- ===== src/Ndata/Firewall.antt =====
-- The rules that the client of sctp_ndata.c hands to iptables.
pub mod Traffic
use sctp_tests.Prelude.{ℕ, ◌≡◌, refl, String, ℤ, pos, true, false, some, List, get_elem?}
use sctp_tests.Posix.{Call, Kernel, M, sleep, modify, emit, pure, ◌>>=◌}
use sctp_tests.Posix.Rules.{call_rules}
use sctp_tests.Posix.Triple.{Ends, Keeps, Triple, Triple-then, Keeps-bind}
use sctp_tests.Posix.Dropping.{dropping, AnyExit}
use sctp_tests.Harness.{
  Context, zeroed, cmd_set_strreset, cmd_close_asoc, create_asoc_sk, enable_asoc_strreset,
  enable_peer_strreset, close_asoc_sk,
}
use sctp_tests.Harness.Stable.{
  Stable, create_asoc_sk-Keeps, enable_asoc_strreset-Keeps, enable_peer_strreset-Keeps,
  close_asoc_sk-Keeps,
}
use sctp_tests.Ndata.Cases.{SetupSched, SetupSchedvalue, SnCase, sn_cases, current_case}
use sctp_tests.Ndata.Stable.{run_setup_sched-Keeps, run_setup_schedvalue-Keeps}
use sctp_tests.Ndata.Setup.{run_setup_sched, run_setup_schedvalue}
use sctp_tests.Ndata.Program.{do_client}
use Traffic.{IsAny, Stable-At, current_case-Keeps, AtCase, AtAny, then_case, traffic_Opens}

module _ (k : Kernel) (i : ℕ) (c : SnCase) (at_i : get_elem? sn_cases i ≡ some c) where
  abbrev Before : Context → List Call → Type 0
  Before = AtCase k i c at_i false

  abbrev After : Context → List Call → Type 0
  After = AtAny k i c at_i false

  abbrev Open : Context → List Call → Type 0
  Open s log = dropping log ≡ false

  abbrev Succeeds : ℤ → Context → List Call → Type 0
  Succeeds status s log = (status ≡ pos 0) × (dropping log ≡ false)

  cur : Keeps k Before AnyExit (λ _. Unit) current_case
  cur = current_case-Keeps k (λ n. n ≡ pos i) false

  stable : Stable Before AnyExit
  stable = Stable-At k (λ n. n ≡ pos i) false

  waits : Keeps k Open AnyExit (λ _. Unit) (emit (sleep 3))
  unfolding emit ◌>>=◌
  waits = record { at = λ s log p. p }

  begins :
      Triple k Open
        (λ _. Before)
        AnyExit
        (λ _. Unit)
        (modify (λ _. record zeroed { case_no = pos i }))
  unfolding modify
  begins = record { at = λ s log p. (p, refl) }

  success : Triple k After Succeeds AnyExit (λ _. Unit) (pure (pos 0))
  unfolding pure
  success = record { at = λ s log (p, q). (refl, p) }

  closing :
      Triple k After Succeeds AnyExit
        (λ _. Unit)
        (close_asoc_sk cmd_close_asoc >>= λ _. pure (pos 0))
  closing =
      Keeps-bind _ _
        (close_asoc_sk-Keeps After AnyExit (λ _. Unit) k (Stable-At k IsAny false) cmd_close_asoc)
        (λ _. success)

  do_client-Open :
      (ip port : String) → Triple k Open Succeeds AnyExit (λ _. Unit) (do_client ip port (pos i))
  unfolding do_client
  do_client-Open ip port = Keeps-bind _ _ waits λ _. Triple-then _ _ begins λ _.
      Keeps-bind _ _ (create_asoc_sk-Keeps Before AnyExit (λ _. Unit) k stable ip port) λ _.
        Keeps-bind _ _ cur λ c1.
          Keeps-bind _ _
            (run_setup_sched-Keeps Before AnyExit (λ _. Unit) k stable cur c1.do_setup_sched)
            λ _. Keeps-bind _ _ cur λ c2.
              Keeps-bind _ _
                (run_setup_schedvalue-Keeps Before AnyExit (λ _. Unit) k stable cur
                  c2.do_setup_schedvalue)
                λ _.
                  Keeps-bind _ _ (enable_asoc_strreset-Keeps Before AnyExit (λ _. Unit) k stable 1)
                    λ _.
                      Keeps-bind _ _
                        (enable_peer_strreset-Keeps Before AnyExit (λ _. Unit) k stable
                          cmd_set_strreset)
                        λ _. traffic_Opens k i c at_i Succeeds _ closing

  -- From a start at which no packets are dropped, the client of a case of the table returns only 0,
  -- and only when the last rule that it handed to iptables, if any, has been removed; what it leaves
  -- when it exits early is not said.
  pub do_client-Opens :
      (ip port : String) (s : Context) (log : List Call)
      → dropping log ≡ false
      → Ends
          (λ status _ log'. (status ≡ pos 0) × (dropping log' ≡ false))
          AnyExit
          (λ _. Unit)
          (do_client ip port (pos i) k s log)
  do_client-Opens ip port s log h = (do_client-Open ip port).at s log h
