-- ===== src/Ndata/Scheduler/Client.antt =====
-- What the whole client of a conformance case of sctp_ndata.c tells its scheduler.
use sctp_tests.Prelude.{
  ℕ, ◌≡◌, refl, sym, ap, ◌∙◌, String, ℤ, pos, some, List, [], ◌∷◌, ◌++◌, get_elem?,
}
use sctp_tests.Posix.{Call, Kernel, Received, failed, got, M, sleep, modify, pure, emit, ◌>>=◌}
use sctp_tests.Posix.Rules.{IsReported, Adds, Dies, call_rules}
use sctp_tests.Posix.Triple.{Ends, Never, Keeps, Triple, Triple-then, Keeps-bind}
use sctp_tests.Posix.Tells.{collect, append_assoc, Told}
use sctp_tests.Harness.{
  Context, zeroed, cmd_set_strreset, cmd_close_asoc, get_asoc_id, do_setup_frag_interleave,
  do_setup_strm_interleave, create_asoc_sk, enable_asoc_strreset, enable_peer_strreset,
  close_asoc_sk, send_asoc_cmd, reply_read,
}
use sctp_tests.Ndata.Cases.{SnCase, sn_cases, assert_tests, current_case}
use sctp_tests.Ndata.Traffic.{run_sched_tests}
use sctp_tests.Ndata.Program.{
  cork, close_asoc_streams, reopen_asoc_streams, do_client, enable_reset_stream_req,
}
use sctp_tests.Ndata.Verdict.Check.{current_case_lem}
use sctp_tests.Ndata.Scheduler.{Event, noted, chosen, events, delivered}
use sctp_tests.Ndata.Scheduler.Noted.{
  values_of, do_sched_tests-Tells, run_setup_sched-Tells, run_setup_schedvalue-Tells,
}
use sctp_tests.Ndata.Scheduler.Expected.{messages, known}

module _ (k : Kernel) (i : ℕ) (c : SnCase) (at_i : get_elem? sn_cases i ≡ some c) where
  -- These events, and the case is `i`.
  abbrev Heard : List Event → Context → List Call → Type 0
  Heard = Told noted k (λ s. s.case_no ≡ pos i)

  module _ (es : List Event) where
    abbrev Calm : {A : Type 0} → M Context A → Type 0
    Calm action = Keeps k (Heard es) IsReported Never action

    adds : (call : Call) → noted call ≡ [] → Adds (Heard es) call
    adds call h = record { at = λ s log (p, q). (ap (λ l. l ++ collect noted log) h ∙ p, q) }

    dies : (what : String) → Dies (Heard es) IsReported what
    dies what = record { at = λ s log p. refl }

    store_fd : (fd : ℤ) → Calm (modify (λ s. record s { fd = fd }))
    unfolding modify
    store_fd fd = record { at = λ s log p. p }

    store_asoc_id : (id : ℕ) → Calm (modify (λ s. record s { asoc_id = id }))
    unfolding modify
    store_asoc_id id = record { at = λ s log p. p }

    get_asoc_id-Calm : Calm get_asoc_id
    unfolding get_asoc_id
    get_asoc_id-Calm = search (call_rules, adds, dies, refl) depth 8

    enable_asoc_strreset-Calm : (allowed : ℕ) → Calm (enable_asoc_strreset allowed)
    unfolding enable_asoc_strreset
    enable_asoc_strreset-Calm allowed =
        search (call_rules, adds, dies, refl, get_asoc_id-Calm, store_asoc_id) depth 9

    create_asoc_sk-Calm : (ip port : String) → Calm (create_asoc_sk ip port)
    unfolding create_asoc_sk do_setup_frag_interleave do_setup_strm_interleave
    create_asoc_sk-Calm ip port =
        search (call_rules, adds, dies, refl, get_asoc_id-Calm, store_asoc_id, store_fd) depth 14

    reply_read-Calm : (expected : ℕ) (answer : Received) → Calm (reply_read expected answer)
    unfolding reply_read
    reply_read-Calm expected failed = search (call_rules, dies)
    reply_read-Calm expected (got len sid) = search (call_rules, adds, refl)

    enable_peer_strreset-Calm : Calm (enable_peer_strreset cmd_set_strreset)
    unfolding enable_peer_strreset send_asoc_cmd
    enable_peer_strreset-Calm = search (call_rules, adds, dies, refl, reply_read-Calm) depth 9

    close_cmd-Calm : Calm (send_asoc_cmd cmd_close_asoc cmd_close_asoc)
    unfolding send_asoc_cmd
    close_cmd-Calm = search (call_rules, adds, dies, refl, reply_read-Calm) depth 9

    close_asoc_sk-Calm : Calm (close_asoc_sk cmd_close_asoc)
    unfolding close_asoc_sk
    close_asoc_sk-Calm = search (call_rules, adds, refl, close_cmd-Calm) depth 10

    current_case-Calm : Calm current_case
    current_case-Calm = record {
      at = λ s log (p, q). rw (current_case_lem i c at_i k s log q) (p, q);
    }

    cork-Calm : Calm cork
    unfolding cork
    cork-Calm = search (call_rules, adds, dies, refl) depth 12

    close_asoc_streams-Calm : Calm close_asoc_streams
    unfolding close_asoc_streams
    close_asoc_streams-Calm = search (call_rules, current_case-Calm, cork-Calm)

    reopen_asoc_streams-Calm : Calm reopen_asoc_streams
    unfolding reopen_asoc_streams
    reopen_asoc_streams-Calm = search (call_rules, adds, refl, current_case-Calm) depth 10

  with_case :
      {A : Type 0} (es : List Event) (Q : A → Context → List Call → Type 0)
      (f : SnCase → M Context A)
      → Triple k (Heard es) Q IsReported Never (f c)
      → Triple k (Heard es) Q IsReported Never (current_case >>= f)
  unfolding ◌>>=◌
  with_case es Q f h = record {
    at = λ s log (p, q). rw (current_case_lem i c at_i k s log q) (h.at s log (p, q));
  }

  -- nothing yet
  abbrev Silent : Context → List Call → Type 0
  Silent s log = events log ≡ []

  waits : Keeps k Silent IsReported Never (emit (sleep 3))
  unfolding emit ◌>>=◌
  waits = record { at = λ s log p. p }

  begins :
      Triple k Silent
        (λ _. Heard [])
        IsReported
        Never
        (modify (λ _. record zeroed { case_no = pos i }))
  unfolding modify
  begins = record { at = λ s log p. (p, refl) }

  module _ (asserts : c.do_assert_tests ≡ assert_tests) where
    abbrev chosen_only : List Event
    chosen_only = chosen c.sched ∷ []

    abbrev before : List Event
    before = values_of c.do_setup_schedvalue ++ chosen_only

    abbrev InOrder : ℤ → Context → List Call → Type 0
    InOrder status s log = delivered (events log) ≡ c.sched_sids

    success : Triple k (Heard (messages ++ before)) InOrder IsReported Never (pure (pos 0))
    unfolding pure
    success = record {
      at = λ s log (p, q).
          rw (p, sym (append_assoc messages (values_of c.do_setup_schedvalue) chosen_only))
            (known i c at_i asserts).1;
    }

    tests :
        Triple k
          (Heard before)
          (λ _. Heard (messages ++ before))
          IsReported
          Never
          (run_sched_tests c.do_sched_tests)
    unfolding run_sched_tests
    tests = rw (known i c at_i asserts).0 (do_sched_tests-Tells k (λ s. s.case_no ≡ pos i) before)

    do_client-Triple :
        (ip port : String) → Triple k Silent InOrder IsReported Never (do_client ip port (pos i))
    unfolding do_client
    do_client-Triple ip port = Triple-then _ _ waits λ _. Triple-then _ _ begins λ _.
        Keeps-bind _ _ (create_asoc_sk-Calm [] ip port) λ _. with_case [] _ _ (
          Triple-then _ _ (run_setup_sched-Tells k i c at_i c.do_setup_sched []) λ _.
            with_case chosen_only _ _ (
              Triple-then _ _
                (run_setup_schedvalue-Tells k i c at_i c.do_setup_schedvalue chosen_only)
                λ _. Keeps-bind _ _ (enable_asoc_strreset-Calm before enable_reset_stream_req) λ _.
                  Keeps-bind _ _ (enable_peer_strreset-Calm before) λ _.
                    Keeps-bind _ _ (close_asoc_streams-Calm before) λ _. with_case before _ _ (
                      Triple-then _ _ tests λ _.
                        Keeps-bind _ _ (reopen_asoc_streams-Calm (messages ++ before)) λ _.
                          Keeps-bind _ _ (close_asoc_sk-Calm (messages ++ before)) λ _. success)))

    -- Whatever the kernel answers, the client of a conformance case, when it returns, has chosen a
    -- scheduler, given it values and sent messages for which the specified scheduler has just the order
    -- that the table expects; or it exits with status -1 right after it has printed which call failed.
    pub expected_order :
        (ip port : String) (s : Context)
        → Ends
            (λ _ _ log. delivered (events log) ≡ c.sched_sids)
            IsReported
            Never
            (do_client ip port (pos i) k s [])
    expected_order ip port s = (do_client-Triple ip port).at s [] refl
