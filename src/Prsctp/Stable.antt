-- ===== src/Prsctp/Stable.antt =====
-- Invariants of the tests of sctp_pr.c, on every schedule of their threads.
use sctp_tests.Prelude.{ℕ, ℤ, Bool, true, false, List, [], ◌∷◌, All}
use sctp_tests.Posix.{Call, Kernel, Firewall, system, M}
use sctp_tests.Posix.Rules.{Adds, call_rules}
use sctp_tests.Posix.Triple.{Keeps, Keeps-pure, Keeps-bind, Triple-if}
use sctp_tests.Harness.{Context, send_asoc_msg}
use sctp_tests.Harness.Stable.{Stable, send_asoc_msg-Keeps}
use sctp_tests.Prsctp.Cases.{TestPr, current_case}
use sctp_tests.Posix.{sequence, interleave, with_thread, pthread_create, pthread_join}
use sctp_tests.Posix.Started.{Unstarted, with_thread-Unstarted}
use sctp_tests.Prsctp.Traffic.{
  close_asoc_streams, reopen_steps, if_dropped, reopen_asoc_streams, do_setup_so_sndbuf, do_test_pr,
  do_test_pr_b, do_test_pr_c, do_test_pr_x, do_test_pr_bx, do_test_pr_cx, do_test_pr_cxx,
  do_test_pr_cxxx, cleanup_steps, run_test_pr,
}

-- A pointer that may be called.
abbrev pub IsTest : TestPr → Type 0
IsTest TestPr.null = ⊥
IsTest _ = Unit

module _ (P : Context → List Call → Type 0) (E : ℤ → List Call → Type 0) (k : Kernel)
    (st : Stable P E) (cur : Keeps k P E (Unstarted k) current_case)
    (rules : (rule : Firewall) → Adds P (system rule)) (lost : Stable (λ _. Unstarted k) E) where
  abbrev AllKeep : List (M Context (Unit {0})) → Type 0
  AllKeep ms = All (Keeps k P E (Unstarted k)) ms

  current_case-Keeps : Keeps k P E (Unstarted k) current_case
  current_case-Keeps = cur

  if_dropped-Keeps :
      (m : M Context (Unit {0}))
      → Keeps k P E (Unstarted k) m
      → Keeps k P E (Unstarted k) (if_dropped m)
  unfolding if_dropped
  if_dropped-Keeps m h = Keeps-bind _ _ cur (λ c. Triple-if _ _ _ (Keeps-pure tt) h)

  sequence-Keeps :
      (ms : List (M Context (Unit {0}))) → AllKeep ms → Keeps k P E (Unstarted k) (sequence ms)
  unfolding sequence
  sequence-Keeps [] h = Keeps-pure tt
  sequence-Keeps (m ∷ ms) h = Keeps-bind m _ h.0 (λ _. sequence-Keeps ms h.1)

  interleave-Keeps :
      (schedule : List Bool) (ms ns : List (M Context (Unit {0})))
      → AllKeep ms
      → AllKeep ns
      → Keeps k P E (Unstarted k) (interleave schedule ms ns)
  unfolding interleave
  interleave-Keeps [] ms ns hm hn =
      Keeps-bind (sequence ms) _ (sequence-Keeps ms hm) (λ _. sequence-Keeps ns hn)
  interleave-Keeps (true ∷ bs) ms [] hm hn = interleave-Keeps bs ms [] hm hn
  interleave-Keeps (true ∷ bs) ms (n ∷ ns) hm hn =
      Keeps-bind n _ hn.0 (λ _. interleave-Keeps bs ms ns hm hn.1)
  interleave-Keeps (false ∷ bs) [] ns hm hn = interleave-Keeps bs [] ns hm hn
  interleave-Keeps (false ∷ bs) (m ∷ ms) ns hm hn =
      Keeps-bind m _ hm.0 (λ _. interleave-Keeps bs ms ns hm.1 hn)

  close_asoc_streams-Keeps : Keeps k P E (Unstarted k) close_asoc_streams
  unfolding close_asoc_streams
  close_asoc_streams-Keeps = search (call_rules, rules, st.adds, tt, current_case-Keeps) depth 10

  reopen_steps-Keeps : AllKeep reopen_steps
  unfolding reopen_steps
  reopen_steps-Keeps = (
    search (call_rules, rules),
    (search (call_rules, st.adds, tt), (search (call_rules, st.adds, tt), tt)),
  )

  cleanup_steps-Keeps : AllKeep cleanup_steps
  unfolding cleanup_steps
  cleanup_steps-Keeps = (
    search (call_rules, st.adds, tt),
    (
      search (call_rules, rules, if_dropped-Keeps),
      (
        search (call_rules, st.adds, tt, if_dropped-Keeps),
        (search (call_rules, st.adds, tt, if_dropped-Keeps), tt),
      ),
    ),
  )

  reopen_asoc_streams-Keeps : Keeps k P E (Unstarted k) reopen_asoc_streams
  unfolding reopen_asoc_streams
  reopen_asoc_streams-Keeps = if_dropped-Keeps _ (sequence-Keeps _ reopen_steps-Keeps)

  do_setup_so_sndbuf-Keeps : Keeps k P E (Unstarted k) do_setup_so_sndbuf
  unfolding do_setup_so_sndbuf
  do_setup_so_sndbuf-Keeps = search (call_rules, st.adds, st.dies, tt) depth 8

  send_Keeps :
      (len sid flags value : ℕ) → Keeps k P E (Unstarted k) (send_asoc_msg len sid flags value)
  send_Keeps = send_asoc_msg-Keeps P E (Unstarted k) k st

  send_lost :
      (len sid flags value : ℕ)
      → Keeps k (λ _. Unstarted k) E (Unstarted k) (send_asoc_msg len sid flags value)
  send_lost = send_asoc_msg-Keeps (λ _. Unstarted k) E (Unstarted k) k lost

  -- the two threads of a test
  threads_Keeps :
      (schedule : List Bool) (m n : M Context (Unit {0}))
      → Keeps k P E (Unstarted k) m
      → Keeps k P E (Unstarted k) n
      → Keeps k (λ _. Unstarted k) E (Unstarted k) m
      → Keeps k (λ _. Unstarted k) E (Unstarted k) n
      → Keeps k P E (Unstarted k) (with_thread schedule (m ∷ n ∷ []) cleanup_steps)
  threads_Keeps schedule m n hm hn lm ln =
      with_thread-Unstarted schedule _ _ (st.adds pthread_create tt)
        (interleave-Keeps schedule _ _ (hm, (hn, tt)) cleanup_steps-Keeps) (st.adds pthread_join tt)
        alone
    where
      alone : Keeps k (λ _. Unstarted k) E (Unstarted k) (sequence (m ∷ n ∷ []))
      alone = unfold sequence in Keeps-bind m _ lm (λ _. Keeps-bind n _ ln (λ _. Keeps-pure tt))

  ruleset test_rules = (
    call_rules, current_case-Keeps, close_asoc_streams-Keeps, reopen_asoc_streams-Keeps,
    do_setup_so_sndbuf-Keeps, send_Keeps, send_lost, threads_Keeps,
  )

  pub run_test_pr-Keeps :
      (schedule : List Bool) (t : TestPr)
      → IsTest t
      → Keeps k P E (Unstarted k) (run_test_pr schedule t)
  unfolding run_test_pr do_test_pr do_test_pr_b do_test_pr_c do_test_pr_x do_test_pr_bx
      do_test_pr_cx do_test_pr_cxx do_test_pr_cxxx
  run_test_pr-Keeps schedule TestPr.null h = elim h [ ]
  run_test_pr-Keeps schedule _ h = search (test_rules, st.adds, tt) depth 24
