-- ===== src/Strreset/Stable.antt =====
-- Invariants of the tests of strreset.c.
use sctp_tests.Prelude.{ℕ, ℤ, List}
use sctp_tests.Posix.{Call, Kernel, Firewall, system}
use sctp_tests.Posix.Rules.{Adds, call_rules}
use sctp_tests.Posix.Triple.{Keeps}
use sctp_tests.Harness.{Context}
use sctp_tests.Harness.Stable.{Stable, send_asoc_msg-Keeps}
use sctp_tests.Strreset.Cases.{TestReset, current_case}
use sctp_tests.Strreset.Traffic.{
  set_strreset_inoutreq_1, set_strreset_assoc, close_asoc_streams, reopen_asoc_streams, send_value,
  send_values, do_test_pr, do_test_pr_asoc, do_test_pr_x, do_test_pr_asoc_x, do_test_pr_asoc_xx,
  run_test_pr,
}

-- A pointer that may be called.
abbrev pub IsTest : TestReset → Type 0
IsTest TestReset.null = ⊥
IsTest _ = Unit

module _ (P : Context → List Call → Type 0) (E : ℤ → List Call → Type 0) (F : List Call → Type 0)
    (k : Kernel) (st : Stable P E) (cur : Keeps k P E F current_case)
    (rules : (rule : Firewall) → Adds P (system rule)) where
  current_case-Keeps : Keeps k P E F current_case
  current_case-Keeps = cur

  close_asoc_streams-Keeps : Keeps k P E F close_asoc_streams
  unfolding close_asoc_streams
  close_asoc_streams-Keeps = search (call_rules, rules, st.adds, tt, current_case-Keeps) depth 12

  reopen_asoc_streams-Keeps : Keeps k P E F reopen_asoc_streams
  unfolding reopen_asoc_streams
  reopen_asoc_streams-Keeps = search (call_rules, rules, st.adds, tt, current_case-Keeps) depth 12

  set_strreset_inoutreq_1-Keeps : Keeps k P E F set_strreset_inoutreq_1
  unfolding set_strreset_inoutreq_1
  set_strreset_inoutreq_1-Keeps = search (call_rules, st.adds, tt) depth 10

  set_strreset_assoc-Keeps : Keeps k P E F set_strreset_assoc
  unfolding set_strreset_assoc
  set_strreset_assoc-Keeps = search (call_rules, st.adds, tt) depth 10

  send_value-Keeps : Keeps k P E F send_value
  unfolding send_value
  send_value-Keeps = search (call_rules, current_case-Keeps, send_asoc_msg-Keeps P E F k st)

  send_values-Keeps : (n : ℕ) → Keeps k P E F (send_values n)
  unfolding send_values
  send_values-Keeps n = search (call_rules, send_value-Keeps)

  ruleset test_rules = (
    call_rules, close_asoc_streams-Keeps, reopen_asoc_streams-Keeps, set_strreset_inoutreq_1-Keeps,
    set_strreset_assoc-Keeps, send_value-Keeps, send_values-Keeps,
  )

  pub run_test_pr-Keeps : (t : TestReset) → IsTest t → Keeps k P E F (run_test_pr t)
  unfolding run_test_pr do_test_pr do_test_pr_asoc do_test_pr_x do_test_pr_asoc_x do_test_pr_asoc_xx
  run_test_pr-Keeps TestReset.null h = elim h [ ]
  run_test_pr-Keeps _ h = search (test_rules, st.adds, tt) depth 24
