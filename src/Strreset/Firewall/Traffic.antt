-- ===== src/Strreset/Firewall/Traffic.antt =====
-- What the tests of strreset.c do to the rules of iptables.
use sctp_tests.Prelude.{
  ℕ, ◌≡◌, ◌∙◌, refl, pos, true, false, some, List, inl, inr, get_elem?, Bool-cases, ◌==◌,
}
use sctp_tests.Posix.{Call, Kernel, Outcome, M, system, flush, emit, pure, index, or_fault, ◌>>=◌}
use sctp_tests.Posix.Rules.{Adds, Keeps-fault, call_rules}
use sctp_tests.Posix.Triple.{Ends-map, Keeps, Keeps-for, Triple, Triple-then, Keeps-bind}
use sctp_tests.Posix.Dropping.{dropping, AnyExit}
use sctp_tests.Harness.{Context}
use sctp_tests.Harness.Stable.{Stable, send_asoc_msg-Keeps}
use sctp_tests.Harness.Dropping.{harmless}
use sctp_tests.Strreset.Cases.{TestReset, ResetCase, sn_cases, case_at, current_case}
use sctp_tests.Strreset.Traffic.{
  set_strreset_inoutreq_1, set_strreset_assoc, close_asoc_streams, reopen_asoc_streams, send_value,
  send_values, do_test_pr, do_test_pr_asoc, do_test_pr_x, do_test_pr_asoc_x, do_test_pr_asoc_xx,
  run_test_pr,
}

module _ (k : Kernel) (i : ℕ) (c : ResetCase) (at_i : get_elem? sn_cases i ≡ some c) where
  -- No packets are dropped.
  abbrev pub Opened : Context → List Call → Type 0
  Opened s log = (dropping log ≡ false) × (s.case_no ≡ pos i)

  -- None are, unless the case drops packets.
  abbrev Closed : Context → List Call → Type 0
  Closed s log = ((c.drop == 0) ≡ true → dropping log ≡ false) × (s.case_no ≡ pos i)

  pub Stable-Opened : Stable Opened AnyExit
  Stable-Opened = record {
    adds = λ c h. record { at = λ s log (p, q). (harmless c log h ∙ p, q) };
    dies = λ what. record { at = λ s log p. tt };
    fd = λ fd s log p. p;
    asoc_id = λ id s log p. p;
    sri_stream = λ sid s log p. p;
  }

  Stable-Closed : Stable Closed AnyExit
  Stable-Closed = record {
    adds = λ c h. record { at = λ s log (p, q). (λ e. harmless c log h ∙ p e, q) };
    dies = λ what. record { at = λ s log p. tt };
    fd = λ fd s log p. p;
    asoc_id = λ id s log p. p;
    sri_stream = λ sid s log p. p;
  }

  current_case_lem :
      (s : Context) (log : List Call)
      → s.case_no ≡ pos i
      → current_case k s log ≡ Outcome.returned c s log
  unfolding current_case case_at index or_fault ◌>>=◌
  current_case_lem s log e = rw (e, at_i)

  pub o_case :
      {A : Type 0} (Q : A → Context → List Call → Type 0) (f : ResetCase → M Context A)
      → Triple k Opened Q AnyExit (λ _. Unit) (f c)
      → Triple k Opened Q AnyExit (λ _. Unit) (current_case >>= f)
  unfolding ◌>>=◌
  o_case Q f h = record { at = λ s log (p, q). rw (current_case_lem s log q) (h.at s log (p, q)) }

  c_case :
      {A : Type 0} (Q : A → Context → List Call → Type 0) (f : ResetCase → M Context A)
      → Triple k Closed Q AnyExit (λ _. Unit) (f c)
      → Triple k Closed Q AnyExit (λ _. Unit) (current_case >>= f)
  unfolding ◌>>=◌
  c_case Q f h = record { at = λ s log (p, q). rw (current_case_lem s log q) (h.at s log (p, q)) }

  -- where the case drops packets, nothing is asked
  abbrev AtCase : Context → List Call → Type 0
  AtCase s log = s.case_no ≡ pos i

  Adds-any : (call : Call) → Adds AtCase call
  Adds-any call = record { at = λ s log p. p }

  to_any :
      (m : M Context (Unit {0}))
      → (c.drop == 0) ≡ false
      → Keeps k AtCase AnyExit (λ _. Unit) m
      → Triple k Opened (λ _. Closed) AnyExit (λ _. Unit) m
  to_any m e h = record {
    at = λ s log (p, q).
        Ends-map (λ _. AtCase) (λ _. Closed) AnyExit (λ _. Unit) (m k s log) (h.at s log q)
          (λ _ s' log' r. (λ f. cc (e, f), r));
  }

  nothing_done : Triple k Opened (λ _. Closed) AnyExit (λ _. Unit) (pure tt)
  unfolding pure
  nothing_done = record { at = λ s log (p, q). (λ _. p, q) }

  nothing_reopened :
      (c.drop == 0) ≡ true → Triple k Closed (λ _. Opened) AnyExit (λ _. Unit) (pure tt)
  unfolding pure
  nothing_reopened e = record { at = λ s log (p, q). (p e, q) }

  close : Triple k Opened (λ _. Closed) AnyExit (λ _. Unit) close_asoc_streams
  unfolding close_asoc_streams
  close = o_case _ _ (elim (Bool-cases (c.drop == 0)) [
    | inl p ↦ rw p nothing_done
    | inr p ↦ rw p (to_any _ p (search (call_rules, Adds-any) depth 8))
  ])

  flushes : Triple k Closed (λ _. Opened) AnyExit (λ _. Unit) (emit (system flush))
  unfolding emit ◌>>=◌
  flushes = record { at = λ s log (p, q). (refl, q) }

  reopen : Triple k Closed (λ _. Opened) AnyExit (λ _. Unit) reopen_asoc_streams
  unfolding reopen_asoc_streams
  reopen = c_case _ _ (elim (Bool-cases (c.drop == 0)) [
    | inl p ↦ rw p (nothing_reopened p)
    | inr p ↦
        rw p (Triple-then _ _ flushes (λ _. search (call_rules, Stable-Opened.adds, tt) depth 8))
  ])

  -- what sends messages and asks for resets touches no rules
  module _ (P : Context → List Call → Type 0) (st : Stable P AnyExit)
      (cur : Keeps k P AnyExit (λ _. Unit) current_case) where
    send : Keeps k P AnyExit (λ _. Unit) send_value
    unfolding send_value
    send =
        Keeps-bind _ _ cur (λ c. send_asoc_msg-Keeps P AnyExit (λ _. Unit) k st c.value 1 c.flags 0)

    sends : (n : ℕ) → Keeps k P AnyExit (λ _. Unit) (send_values n)
    unfolding send_values
    sends n = Keeps-for n 0 _ (λ _. send)

    streams : Keeps k P AnyExit (λ _. Unit) set_strreset_inoutreq_1
    unfolding set_strreset_inoutreq_1
    streams = search (call_rules, st.adds, tt) depth 10

    association : Keeps k P AnyExit (λ _. Unit) set_strreset_assoc
    unfolding set_strreset_assoc
    association = search (call_rules, st.adds, tt) depth 10

  pub o_cur : Keeps k Opened AnyExit (λ _. Unit) current_case
  o_cur = record { at = λ s log (p, q). rw (current_case_lem s log q) (p, q) }

  c_cur : Keeps k Closed AnyExit (λ _. Unit) current_case
  c_cur = record { at = λ s log (p, q). rw (current_case_lem s log q) (p, q) }

  close_then :
      (m : M Context (Unit {0}))
      → Triple k Closed (λ _. Opened) AnyExit (λ _. Unit) m
      → Triple k Opened (λ _. Opened) AnyExit (λ _. Unit) (close_asoc_streams >>= λ _. m)
  close_then m h = Triple-then _ _ close (λ _. h)

  reopen_then :
      (m : M Context (Unit {0}))
      → Keeps k Opened AnyExit (λ _. Unit) m
      → Triple k Closed (λ _. Opened) AnyExit (λ _. Unit) (reopen_asoc_streams >>= λ _. m)
  reopen_then m h = Triple-then _ _ reopen (λ _. h)

  o_send : Keeps k Opened AnyExit (λ _. Unit) send_value
  o_send = send Opened Stable-Opened o_cur

  o_streams : Keeps k Opened AnyExit (λ _. Unit) set_strreset_inoutreq_1
  o_streams = streams Opened Stable-Opened o_cur

  o_association : Keeps k Opened AnyExit (λ _. Unit) set_strreset_assoc
  o_association = association Opened Stable-Opened o_cur

  o_sends : (n : ℕ) → Keeps k Opened AnyExit (λ _. Unit) (send_values n)
  o_sends = sends Opened Stable-Opened o_cur

  c_send : Keeps k Closed AnyExit (λ _. Unit) send_value
  c_send = send Closed Stable-Closed c_cur

  c_streams : Keeps k Closed AnyExit (λ _. Unit) set_strreset_inoutreq_1
  c_streams = streams Closed Stable-Closed c_cur

  c_association : Keeps k Closed AnyExit (λ _. Unit) set_strreset_assoc
  c_association = association Closed Stable-Closed c_cur

  c_sends : (n : ℕ) → Keeps k Closed AnyExit (λ _. Unit) (send_values n)
  c_sends = sends Closed Stable-Closed c_cur

  pub run_test_pr-Open : (t : TestReset) → Keeps k Opened AnyExit (λ _. Unit) (run_test_pr t)
  unfolding run_test_pr do_test_pr do_test_pr_asoc do_test_pr_x do_test_pr_asoc_x do_test_pr_asoc_xx
  run_test_pr-Open TestReset.null = Keeps-fault
  run_test_pr-Open _ =
      search
        (
          close_then, reopen_then, reopen, o_send, o_streams, o_association, o_sends, c_send,
          c_streams, c_association, c_sends, call_rules, Stable-Opened.adds, Stable-Closed.adds, tt,
        )
        depth 24
