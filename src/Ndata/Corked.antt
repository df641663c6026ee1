-- ===== src/Ndata/Corked.antt =====
-- When the client of a case of sctp_ndata.c that corks its messages sends them.
mod Calm
use sctp_tests.Prelude.{
  ◌||◌, ℕ, ◌≡◌, refl, String, ℤ, pos, Bool, true, false, ◌||◌, some, List, [], ◌∷◌, get_elem?, ◌==◌,
  is_zero, All-get_elem?,
}
use sctp_tests.Posix.{
  sendmsg, Call, Kernel, Received, failed, got, M, sendmsg, system, drop_input, flush, sleep, call,
  gets, modify, pure, emit, die, exit, ◌>>=◌, ◌>>◌,
}
use sctp_tests.Posix.Rules.{Adds, Dies, call_rules}
use sctp_tests.Posix.Triple.{
  weaken, Ends, Keeps, Triple, Triple-then, Triple-if, Keeps-bind, Keeps-pure, Keeps-gets,
}
use sctp_tests.Posix.Dropping.{dropping}
use sctp_tests.Harness.Dropping.{harmless}
use sctp_tests.Harness.{
  Context, zeroed, cmd_set_strreset, cmd_close_asoc, get_asoc_id, do_setup_frag_interleave,
  do_setup_strm_interleave, create_asoc_sk, enable_asoc_strreset, enable_peer_strreset,
  close_asoc_sk, send_asoc_cmd, reply_read,
}
use sctp_tests.Harness.Stable.{Stable, IsHarmless}
use sctp_tests.Ndata.Cases.{
  SetupSched, setup_sched, SetupSchedvalue, setup_schedvalue, SchedTests, sched_tests, SnCase,
  sn_cases, current_case,
}
use sctp_tests.Ndata.Setup.{
  run_setup_sched, run_setup_schedvalue, do_setup_sched, set_stream_value, do_setup_schedvalue,
  do_prio_setup_schedvalue, do_prio_stress_setup_schedvalue, do_rr_setup_schedvalue,
}
use sctp_tests.Ndata.Stable.{do_sched_tests-Keeps}
use sctp_tests.Ndata.Traffic.{run_sched_tests}
use sctp_tests.Ndata.Program.{
  cork, close_asoc_streams, reopen_asoc_streams, do_client, enable_reset_stream_req,
}
use sctp_tests.Ndata.Verdict.Check.{current_case_lem}
use sctp_tests.Posix.Dropping.{blocked, Obeys, blocked-dropping}
use sctp_tests.Ndata.Throughput.{is_command}
use sctp_tests.Ndata.Throughput.{is_command}
use sctp_tests.Ndata.Firewall.Traffic.{StaysIfCorked, sn_cases-StaysIfCorked}
use Calm.{
  Covered, IsCalm, Free, Blocked, adds, add_silent, Blocked-Stable, create_asoc_sk-Calm,
  enable_asoc_strreset-Calm, enable_peer_strreset-Calm, close_asoc_sk-Calm, current_case-Calm,
  run_setup_sched-Calm, run_setup_schedvalue-Calm,
}

-- Each message but a command was sent while packets were dropped, by what iptables had answered.
abbrev pub HeldBack : Kernel → List Call → Type 0
HeldBack k [] = Unit
HeldBack k (sendmsg fd len flags sid value ∷ log) =
    ((is_command len || blocked k log) ≡ true) × HeldBack k log
HeldBack k (_ ∷ log) = HeldBack k log

Covered-HeldBack : (k : Kernel) → Obeys k → (log : List Call) → Covered log → HeldBack k log
Covered-HeldBack k obeys [] h = tt
Covered-HeldBack k obeys (Call.sendmsg fd len flags sid value ∷ log) (p, q) =
    (rw (blocked-dropping k obeys log) p, Covered-HeldBack k obeys log q)
Covered-HeldBack k obeys (_ ∷ log) h = Covered-HeldBack k obeys log h

module _ (k : Kernel) (i : ℕ) (c : SnCase) (at_i : get_elem? sn_cases i ≡ some c) where
  -- no data is sent yet, or any more
  abbrev Before : Context → List Call → Type 0
  Before = Free k i c at_i

  -- packets are dropped
  abbrev During : Context → List Call → Type 0
  During = Blocked k i c at_i

  calm_added : (call : Call) → IsCalm call → Adds Before call
  calm_added = adds k i c at_i

  added : (call : Call) → IsHarmless call → Adds During call
  added = add_silent k i c at_i

  waits :
      Triple {S = Context} k (λ _. Covered) (λ _ _. Covered) (λ _. Covered) Covered (emit (sleep 3))
  unfolding emit ◌>>=◌
  waits = record { at = λ s log p. p }

  begins :
      Triple k
        (λ _. Covered)
        (λ _. Before)
        (λ _. Covered)
        Covered
        (modify (λ _. record zeroed { case_no = pos i }))
  unfolding modify
  begins = record { at = λ s log p. (p, refl) }

  success : Triple k Before (λ _ _. Covered) (λ _. Covered) Covered (pure (pos 0))
  unfolding pure
  success = record { at = λ s log (p, q). p }

  flushes : Triple k During (λ _. Before) (λ _. Covered) Covered (emit (system flush))
  unfolding emit ◌>>=◌
  flushes = record { at = λ s log (p, q, r). (p, q) }

  blocks : Triple k Before (λ _. During) (λ _. Covered) Covered (emit (system drop_input))
  unfolding emit ◌>>=◌
  blocks = record { at = λ s log (p, q). (p, q, refl) }

  fails : Triple {A = Unit {0}} k Before (λ _. During) (λ _. Covered) Covered (die "setsockopt")
  unfolding die emit exit ◌>>=◌
  fails = record { at = λ s log (p, q). p }

  cork-Blocked : Triple k Before (λ _. During) (λ _. Covered) Covered cork
  unfolding cork
  cork-Blocked = Triple-then _ _ blocks λ _. Keeps-bind _ _ (Keeps-gets _) λ s.
      Keeps-bind _ _ (search (call_rules, added, tt)) λ r.
        Triple-if (is_zero r) _ _ (search (call_rules, added, tt))
          (Triple-then _ _ flushes λ _. fails)

  -- what is done with the entry of the case
  with_case :
      {A : Type 0} (P : Context → List Call → Type 0) (Q : A → Context → List Call → Type 0)
      (f : SnCase → M Context A)
      → ((s : Context) (log : List Call) → P s log → s.case_no ≡ pos i)
      → Triple k P Q (λ _. Covered) Covered (f c)
      → Triple k P Q (λ _. Covered) Covered (current_case >>= f)
  unfolding ◌>>=◌
  with_case P Q f e h = record {
    at = λ s log p. rw (current_case_lem i c at_i k s log (e s log p)) (h.at s log p);
  }

  module _ (corked : (c.sched_cork == 0) ≡ false) where
    close_asoc_streams-Blocked :
        Triple k Before (λ _. During) (λ _. Covered) Covered close_asoc_streams
    unfolding close_asoc_streams
    close_asoc_streams-Blocked = with_case _ _ _ (λ s log p. p.1) (rw corked cork-Blocked)

    reopen_asoc_streams-Free :
        Triple k During (λ _. Before) (λ _. Covered) Covered reopen_asoc_streams
    unfolding reopen_asoc_streams
    reopen_asoc_streams-Free =
        with_case _ _ _ (λ s log (p, q, r). q)
          (rw corked (Triple-then _ _ flushes λ _. search (call_rules, calm_added, tt) depth 8))

    is_sched_tests :
        (t : SchedTests)
        → StaysIfCorked t c.sched_cork
        → Keeps k During (λ _. Covered) Covered (run_sched_tests t)
    unfolding run_sched_tests
    is_sched_tests sched_tests h =
        do_sched_tests-Keeps During (λ _. Covered) Covered k (Blocked-Stable k i c at_i)
          (record { at = λ s log (p, q, r). rw (current_case_lem i c at_i k s log q) (p, q, r) })
    is_sched_tests _ h = absurd (cc (corked, h))

    tests-Blocked : Keeps k During (λ _. Covered) Covered (run_sched_tests c.do_sched_tests)
    tests-Blocked = is_sched_tests c.do_sched_tests (
        All-get_elem? (λ c. StaysIfCorked c.do_sched_tests c.sched_cork) sn_cases i c
          sn_cases-StaysIfCorked at_i)

    do_client-Triple :
        (ip port : String)
        → Triple k
            (λ _. Covered)
            (λ _ _. Covered)
            (λ _. Covered)
            Covered
            (do_client ip port (pos i))
    unfolding do_client
    do_client-Triple ip port = Triple-then _ _ waits λ _. Triple-then _ _ begins λ _.
        Keeps-bind _ _ (create_asoc_sk-Calm k i c at_i ip port) λ _.
          Keeps-bind _ _ (current_case-Calm k i c at_i) λ c1.
            Keeps-bind _ _ (run_setup_sched-Calm k i c at_i c1.do_setup_sched) λ _.
              Keeps-bind _ _ (current_case-Calm k i c at_i) λ c2.
                Keeps-bind _ _ (run_setup_schedvalue-Calm k i c at_i c2.do_setup_schedvalue) λ _.
                  Keeps-bind _ _ (enable_asoc_strreset-Calm k i c at_i enable_reset_stream_req) λ _.
                    Keeps-bind _ _ (enable_peer_strreset-Calm k i c at_i) λ _.
                      Triple-then _ _ close_asoc_streams-Blocked λ _.
                        with_case _ _ _ (λ s log (p, q, r). q)
                          (Keeps-bind _ _ tests-Blocked λ _.
                            Triple-then _ _ reopen_asoc_streams-Free
                              λ _. Keeps-bind _ _ (close_asoc_sk-Calm k i c at_i) λ _. success)

    -- On a kernel on which iptables does not fail, and that answers in any way else, the client of a case
    -- that corks its messages has sent each message but the commands while packets were dropped,
    -- whether it returns or exits.
    pub do_client-HeldBack :
        (ip port : String) (s : Context)
        → Obeys k
        → Ends
            (λ _ _ log. HeldBack k log)
            (λ _ log. HeldBack k log)
            (HeldBack k)
            (do_client ip port (pos i) k s [])
    do_client-HeldBack ip port s obeys =
        weaken Covered (HeldBack k) (do_client ip port (pos i) k s []) (Covered-HeldBack k obeys)
          ((do_client-Triple ip port).at s [] tt)
