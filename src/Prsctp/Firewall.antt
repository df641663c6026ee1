-- ===== src/Prsctp/Firewall.antt =====
-- The rules that the client of sctp_pr.c hands to iptables.
mod Steps
use sctp_tests.Prelude.{
  ℕ, ◌+◌, ◌<◌, ◌≤◌, ◌≡◌, refl, String, ℤ, pos, some, Bool, true, false, List, [], ◌∷◌, length, take,
  get_elem?, All, ◌==◌,
}
use sctp_tests.Posix.{Call, Kernel, M, emit, sleep, modify, pure, ◌>>=◌}
use sctp_tests.Posix.Rules.{Keeps-fault, call_rules}
use sctp_tests.Posix.Triple.{Ends, Keeps, Triple, Triple-then, Keeps-bind, Keeps-pure}
use sctp_tests.Posix.Dropping.{dropping, AnyExit}
use sctp_tests.Harness.{Context, zeroed, send_asoc_msg, create_asoc_sk, close_asoc_sk}
use sctp_tests.Harness.Stable.{create_asoc_sk-Keeps, close_asoc_sk-Keeps}
use sctp_tests.Prsctp.Cases.{SetupPr, TestPr, setup_pr, test_pr, PrCase, sn_cases, current_case}
use sctp_tests.Posix.{with_thread}
use sctp_tests.Posix.Started.{Starts}
use sctp_tests.Prsctp.Traffic.{
  close_asoc_streams, reopen_asoc_streams, do_setup_so_sndbuf, cleanup_steps, run_setup_pr,
  do_setup_pr, run_test_pr, do_test_pr, do_test_pr_b, do_test_pr_c, do_test_pr_x, do_test_pr_bx,
  do_test_pr_cx, do_test_pr_cxx, do_test_pr_cxxx,
}
use sctp_tests.Prsctp.Program.{enable_asoc_prsctp_support, do_client}
use Steps.{
  AtCase, Stable-AtCase, harmless_AtCase, perror_AtCase, send_AtCase, Acts, then_case,
  close_asoc_streams-Acts, reopen_asoc_streams-Acts, threads-Acts,
}

module _ (k : Kernel) (i : ℕ) (c : PrCase) (at_i : get_elem? sn_cases i ≡ some c) where
  -- What a part of the client does to the rules, and that is all that is said of it.
  abbrev From : Bool → Bool → M Context (Unit {0}) → Type 0
  From a b m = Triple k (AtCase k i a) (λ _. AtCase k i b) AnyExit (λ _. Unit) m

  sndbuf : From false false do_setup_so_sndbuf
  unfolding do_setup_so_sndbuf
  sndbuf = search (call_rules, harmless_AtCase k i false, perror_AtCase k i false, tt) depth 8

  module _ (starts : Starts k) (corked : (c.drop == 0) ≡ false) where
    cork_then :
        (f : Unit {0} → M Context (Unit {0}))
        → ((u : Unit {0}) → From true false (f u))
        → From false false (close_asoc_streams >>= f)
    cork_then f h = Triple-then _ f (close_asoc_streams-Acts k i c at_i corked false) h

    case_then :
        (f : PrCase → M Context (Unit {0}))
        → From true false (f c)
        → From true false (current_case >>= f)
    case_then f h = then_case k i c at_i _ true f h

    reopen : From true false reopen_asoc_streams
    reopen = reopen_asoc_streams-Acts k i c at_i corked true

    threads_then :
        (schedule : List Bool) (l1 s1 f1 v1 l2 s2 f2 v2 : ℕ) (f : Unit {0} → M Context (Unit {0}))
        → ((u : Unit {0}) → From false false (f u))
        → From true false (
            with_thread schedule
              (send_asoc_msg l1 s1 f1 v1 ∷ send_asoc_msg l2 s2 f2 v2 ∷ [])
              cleanup_steps
            >>= f)
    threads_then schedule l1 s1 f1 v1 l2 s2 f2 v2 f h =
        Triple-then _ f
          (threads-Acts k i c at_i corked starts schedule _ _ (λ b. send_AtCase k i b l1 s1 f1 v1)
            (λ b. send_AtCase k i b l2 s2 f2 v2) true)
          h

    run_test_pr-Opens :
        (schedule : List Bool) (t : TestPr) → From false false (run_test_pr schedule t)
    unfolding run_test_pr do_test_pr do_test_pr_b do_test_pr_c do_test_pr_x do_test_pr_bx
        do_test_pr_cx do_test_pr_cxx do_test_pr_cxxx
    run_test_pr-Opens schedule TestPr.null = Keeps-fault
    run_test_pr-Opens schedule _ =
        search
          (
            cork_then,
            case_then,
            reopen,
            threads_then,
            sndbuf,
            send_AtCase k i true,
            harmless_AtCase k i true,
            harmless_AtCase k i false,
            call_rules,
            tt,
          )
          depth 24

    run_setup_pr-Keeps : (f : SetupPr) → From false false (run_setup_pr f)
    unfolding run_setup_pr do_setup_pr
    run_setup_pr-Keeps SetupPr.null = Keeps-fault
    run_setup_pr-Keeps setup_pr = Keeps-pure tt

    support : From false false enable_asoc_prsctp_support
    unfolding enable_asoc_prsctp_support
    support = search (call_rules, harmless_AtCase k i false, perror_AtCase k i false, tt) depth 8

    connection : (ip port : String) → From false false (create_asoc_sk ip port)
    connection =
        create_asoc_sk-Keeps (AtCase k i false) AnyExit (λ _. Unit) k (Stable-AtCase k i false)

    closing : (expected : ℕ) → From false false (close_asoc_sk expected)
    closing = close_asoc_sk-Keeps (AtCase k i false) AnyExit (λ _. Unit) k (Stable-AtCase k i false)

    success :
        Triple k
          (AtCase k i false)
          (λ status _ log. (status ≡ pos 0) × (dropping log ≡ false))
          AnyExit
          (λ _. Unit)
          (pure (pos 0))
    unfolding pure
    success = record { at = λ s log (p, q). (refl, p) }

    abbrev Open : Context → List Call → Type 0
    Open s log = dropping log ≡ false

    waits : Keeps k Open AnyExit (λ _. Unit) (emit (sleep 3))
    unfolding emit ◌>>=◌
    waits = record { at = λ s log p. p }

    begins :
        Triple k Open
          (λ _. AtCase k i false)
          AnyExit
          (λ _. Unit)
          (modify (λ _. record zeroed { case_no = pos i }))
    unfolding modify
    begins = record { at = λ s log p. (p, refl) }

    do_client-Opens :
        (schedule : List Bool) (ip port : String)
        → Triple k Open
            (λ status _ log. (status ≡ pos 0) × (dropping log ≡ false))
            AnyExit
            (λ _. Unit)
            (do_client schedule ip port (pos i))
    unfolding do_client
    do_client-Opens schedule ip port = Keeps-bind _ _ waits λ _. Triple-then _ _ begins λ _.
        Keeps-bind _ _ (connection ip port) λ _. then_case k i c at_i _ false _ (
          Keeps-bind _ _ (run_setup_pr-Keeps c.do_setup_pr) λ _. Keeps-bind _ _ support λ _.
            then_case k i c at_i _ false _ (
              Keeps-bind _ _ (run_test_pr-Opens schedule c.do_test_pr)
                λ _. search (call_rules, harmless_AtCase k i false, tt, closing, success) depth 10))

    -- From a log whose last rule for iptables, if any, was a removal, on a kernel that does not fail to
    -- create a thread, and in whatever order the threads of its test run, the client of a case that
    -- drops packets returns only 0, and only when the last rule that it handed to iptables was the
    -- removal; what it leaves when it exits early is not said.
    pub policy_client-Opens :
        (schedule : List Bool) (ip port : String) (s : Context) (log : List Call)
        → dropping log ≡ false
        → Ends
            (λ status _ log'. (status ≡ pos 0) × (dropping log' ≡ false))
            AnyExit
            (λ _. Unit)
            (do_client schedule ip port (pos i) k s log)
    policy_client-Opens schedule ip port s log h = (do_client-Opens schedule ip port).at s log h
