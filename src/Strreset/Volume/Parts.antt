-- ===== src/Strreset/Volume/Parts.antt =====
-- How much the parts of the tests of strreset.c send.
use sctp_tests.Prelude.{ℕ, ◌+◌, ◌*◌, ◌≡◌, ◌≢◌, refl, pos, some, List, get_elem?, arith}
use sctp_tests.Posix.{Call, Kernel, Outcome, M, emit, sleep, index, or_fault, ◌>>=◌}
use sctp_tests.Posix.Rules.{call_rules}
use sctp_tests.Posix.Triple.{Keeps-bind}
use sctp_tests.Posix.Volume.{
  Sends, SendsNone, Adds-silent, Sends-message, Sends-then, Sends-before, Sends-after, Sends-for,
  Sends-gets,
}
use sctp_tests.Harness.{Context, send_asoc_msg}
use sctp_tests.Strreset.Cases.{
  TestReset, test_pr, test_pr_asoc, test_pr_x, test_pr_asoc_x, test_pr_asoc_xx, ResetCase, sn_cases,
  case_at, current_case,
}
use sctp_tests.Strreset.Traffic.{
  set_strreset_inoutreq_1, set_strreset_assoc, close_asoc_streams, reopen_asoc_streams, send_value,
  send_values, do_test_pr, do_test_pr_asoc, do_test_pr_x, do_test_pr_asoc_x, do_test_pr_asoc_xx,
  run_test_pr,
}

-- The weight of a message is its length.
abbrev pub bytes : ℕ → ℕ
bytes len = len

-- How many messages of the case's length a test sends.
abbrev pub sent_by : TestReset → ℕ
sent_by TestReset.null = 0
sent_by test_pr = 70001
sent_by test_pr_asoc = 70001
sent_by test_pr_x = 11
sent_by test_pr_asoc_x = 11
sent_by test_pr_asoc_xx = 14

module _ (k : Kernel) (i : ℕ) (c : ResetCase) (at_i : get_elem? sn_cases i ≡ some c) where
  abbrev pub AtCase : Context → Type 0
  AtCase s = s.case_no ≡ pos i

  current_case_lem :
      (s : Context) (log : List Call)
      → s.case_no ≡ pos i
      → current_case k s log ≡ Outcome.returned c s log
  unfolding current_case case_at index or_fault ◌>>=◌
  current_case_lem s log e = rw (e, at_i)

  then_case-Sends :
      (n : ℕ) (f : ResetCase → M Context (Unit {0}))
      → Sends k bytes AtCase n (f c)
      → Sends k bytes AtCase n (current_case >>= f)
  unfolding ◌>>=◌
  then_case-Sends n f h v = record {
    at = λ s log (p, q). rw (current_case_lem s log q) ((h v).at s log (p, q));
  }

  then_case-None :
      (f : ResetCase → M Context (Unit {0}))
      → SendsNone k bytes AtCase (f c)
      → SendsNone k bytes AtCase (current_case >>= f)
  unfolding ◌>>=◌
  then_case-None f h v = record {
    at = λ s log (p, q). rw (current_case_lem s log q) ((h v).at s log (p, q));
  }

  send_value-Sends : Sends k bytes AtCase c.value send_value
  unfolding send_value send_asoc_msg
  send_value-Sends = then_case-Sends c.value _ (
      Sends-gets k bytes AtCase c.value _ _
        (λ s. Sends-message k bytes AtCase s.fd c.value c.flags 1 0 "sendmsg"))

  send_values-Sends : (n : ℕ) → Sends k bytes AtCase (n * c.value) (send_values n)
  unfolding send_values
  send_values-Sends n = Sends-for k bytes AtCase n 0 c.value _ (λ _. send_value-Sends)

  streams_None : SendsNone k bytes AtCase set_strreset_inoutreq_1
  unfolding set_strreset_inoutreq_1
  streams_None v = search (call_rules, Adds-silent k bytes AtCase, tt) depth 8

  assoc_None : SendsNone k bytes AtCase set_strreset_assoc
  unfolding set_strreset_assoc
  assoc_None v = search (call_rules, Adds-silent k bytes AtCase, tt) depth 8

  close_None : SendsNone k bytes AtCase close_asoc_streams
  unfolding close_asoc_streams
  close_None = then_case-None _ (λ v. search (call_rules, Adds-silent k bytes AtCase, tt) depth 8)

  reopen_None : SendsNone k bytes AtCase reopen_asoc_streams
  unfolding reopen_asoc_streams
  reopen_None = then_case-None _ (λ v. search (call_rules, Adds-silent k bytes AtCase, tt) depth 8)

  sleep_None : (t : ℕ) → SendsNone k bytes AtCase (emit (sleep t))
  sleep_None t v = search (call_rules, Adds-silent k bytes AtCase, tt) depth 8

  -- in the middle of a test
  pause :
      (n t : ℕ) (m : M Context (Unit {0}))
      → Sends k bytes AtCase n m
      → Sends k bytes AtCase n (emit (sleep t) >>= λ _. m)
  pause n t m h = Sends-before k bytes AtCase n _ _ (sleep_None t) (λ _. h)

  streams_then :
      (n : ℕ) (m : M Context (Unit {0}))
      → Sends k bytes AtCase n m
      → Sends k bytes AtCase n (set_strreset_inoutreq_1 >>= λ _. m)
  streams_then n m h = Sends-before k bytes AtCase n _ _ streams_None (λ _. h)

  assoc_then :
      (n : ℕ) (m : M Context (Unit {0}))
      → Sends k bytes AtCase n m
      → Sends k bytes AtCase n (set_strreset_assoc >>= λ _. m)
  assoc_then n m h = Sends-before k bytes AtCase n _ _ assoc_None (λ _. h)

  close_then :
      (n : ℕ) (m : M Context (Unit {0}))
      → Sends k bytes AtCase n m
      → Sends k bytes AtCase n (close_asoc_streams >>= λ _. m)
  close_then n m h = Sends-before k bytes AtCase n _ _ close_None (λ _. h)

  reopen_then :
      (n : ℕ) (m : M Context (Unit {0}))
      → Sends k bytes AtCase n m
      → Sends k bytes AtCase n (reopen_asoc_streams >>= λ _. m)
  reopen_then n m h = Sends-before k bytes AtCase n _ _ reopen_None (λ _. h)

  -- `rounds` messages, and then more
  values_then :
      (rounds more : ℕ) (m : M Context (Unit {0}))
      → Sends k bytes AtCase (more * c.value) m
      → Sends k bytes AtCase ((rounds + more) * c.value) (send_values rounds >>= λ _. m)
  values_then rounds more m h =
      let e : rounds * c.value + more * c.value ≡ (rounds + more) * c.value = grind arith in
      rw (← e) (Sends-then k bytes AtCase _ _ _ _ (send_values-Sends rounds) (λ _. h))

  value_then :
      (more : ℕ) (m : M Context (Unit {0}))
      → Sends k bytes AtCase (more * c.value) m
      → Sends k bytes AtCase ((1 + more) * c.value) (send_value >>= λ _. m)
  value_then more m h =
      let e : c.value + more * c.value ≡ (1 + more) * c.value = grind arith in
      rw (← e) (Sends-then k bytes AtCase _ _ _ _ send_value-Sends (λ _. h))

  last_value : Sends k bytes AtCase (1 * c.value) send_value
  last_value = let e : 1 * c.value ≡ c.value = omega arith in rw e send_value-Sends

  value_last :
      (m : M Context (Unit {0}))
      → SendsNone k bytes AtCase m
      → Sends k bytes AtCase (1 * c.value) (send_value >>= λ _. m)
  value_last m h = Sends-after k bytes AtCase _ _ _ last_value (λ _. h)

  pub run_test_pr-Sends :
      (t : TestReset)
      → t ≢ TestReset.null
      → Sends k bytes AtCase (sent_by t * c.value) (run_test_pr t)
  unfolding run_test_pr do_test_pr do_test_pr_asoc do_test_pr_x do_test_pr_asoc_x do_test_pr_asoc_xx
  run_test_pr-Sends TestReset.null h = absurd (h refl)
  run_test_pr-Sends test_pr h =
      values_then 70000 1 _ (pause _ 5 _ (streams_then _ _ (pause _ 5 _ last_value)))
  run_test_pr-Sends test_pr_asoc h =
      values_then 70000 1 _ (pause _ 5 _ (assoc_then _ _ (pause _ 5 _ last_value)))
  run_test_pr-Sends test_pr_x h = close_then _ _ (
      values_then 10 1 _
        (streams_then _ _ (pause _ 10 _ (streams_then _ _ (value_last _ reopen_None)))))
  run_test_pr-Sends test_pr_asoc_x h = close_then _ _ (
      values_then 10 1 _ (
        assoc_then _ _ (
          pause _ 10 _
            (assoc_then _ _ (reopen_then _ _ (pause _ 10 _ (assoc_then _ _ last_value)))))))
  run_test_pr-Sends test_pr_asoc_xx h = values_then 10 4 _ (
      pause _ 5 _ (
        close_then _ _ (
          assoc_then _ _ (
            value_then 3 _ (
              value_then 2 _ (
                value_then 1 _
                  (value_last _ (λ v. Keeps-bind _ _ (sleep_None 5 v) (λ _. reopen_None v)))))))))
