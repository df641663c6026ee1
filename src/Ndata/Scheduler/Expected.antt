-- ===== src/Ndata/Scheduler/Expected.antt =====
-- The lists of streams that the conformance cases of sctp_ndata.c expect.
use sctp_tests.Prelude.{
  ℕ, ◌≤◌, ◌≡◌, refl, ◌∙◌, String, pos, true, some, List, [], ◌∷◌, ◌++◌, length, get_elem?, All,
  All-get_elem?, arith,
}
use sctp_tests.Posix.{Call, Kernel, M, Outcome, ◌>>=◌}
use sctp_tests.Posix.Rules.{IsReported}
use sctp_tests.Posix.Triple.{Ends, Ends-map, Never}
use sctp_tests.Harness.{Context, zeroed}
use sctp_tests.Harness.Peer.{Message, Delivers}
use sctp_tests.Harness.Script.{has_close, data_of, streams}
use sctp_tests.Ndata.Cases.{SnCase, sn_cases, AssertTests, assert_tests, sched_tests}
use sctp_tests.Ndata.Setup.{run_setup_sched, run_setup_schedvalue}
use sctp_tests.Ndata.Traffic.{run_sched_tests}
use sctp_tests.Ndata.Program.{do_server}
use sctp_tests.Ndata.Verdict.{agrees, server_verdict}
use sctp_tests.Ndata.Scheduler.{Event, noted, chosen, queued, events, delivered}
use sctp_tests.Posix.Tells.{append_nil, gathered, Told, Tells, Tells-then}
use sctp_tests.Ndata.Scheduler.Noted.{
  values_of, AtCase, do_sched_tests-Tells, run_setup_sched-Tells, run_setup_schedvalue-Tells,
}

-- The parts of do_client() that choose the scheduler, give it the values, and send the messages.
abbrev pub scheduled : SnCase → M Context (Unit {0})
scheduled c = run_setup_sched c.do_setup_sched >>= λ _.
    run_setup_schedvalue c.do_setup_schedvalue >>= λ _. run_sched_tests c.do_sched_tests

abbrev pub messages : List Event
messages = gathered 3 1 (λ stream. gathered 3 0 (λ _. queued stream ∷ []))

-- What is known of the entries that have the conformance check.
abbrev pub IsExpected : AssertTests → SnCase → Type 0
IsExpected assert_tests c =
    (c.do_sched_tests ≡ sched_tests)
    × (delivered ((messages ++ values_of c.do_setup_schedvalue) ++ (chosen c.sched ∷ []))
        ≡ c.sched_sids)
IsExpected _ c = Unit

sn_cases-IsExpected : All (λ c. IsExpected c.do_assert_tests c) sn_cases
unfolding sn_cases delivered
sn_cases-IsExpected = assumption (tt, refl)

agrees_refl : (xs : List ℕ) → agrees xs xs ≡ true
unfolding agrees
agrees_refl [] = refl
agrees_refl (x ∷ xs) = ground (arith, agrees_refl xs)

module _ (i : ℕ) (c : SnCase) (at_i : get_elem? sn_cases i ≡ some c)
    (asserts : c.do_assert_tests ≡ assert_tests) where
  pub known : IsExpected assert_tests c
  known =
      rw asserts at
        (All-get_elem? (λ c. IsExpected c.do_assert_tests c) sn_cases i c sn_cases-IsExpected at_i)

  abbrev told : List Event
  told = (messages ++ values_of c.do_setup_schedvalue) ++ (chosen c.sched ∷ [])

  scheduled-Tells : (k : Kernel) → Tells noted k (AtCase k i c at_i) told (scheduled c)
  unfolding run_sched_tests
  scheduled-Tells k =
      Tells-then noted k (AtCase k i c at_i) (chosen c.sched ∷ [])
        (messages ++ values_of c.do_setup_schedvalue) _ _
        (run_setup_sched-Tells k i c at_i c.do_setup_sched)
        (λ _.
          Tells-then noted k (AtCase k i c at_i) (values_of c.do_setup_schedvalue) messages _ _
            (run_setup_schedvalue-Tells k i c at_i c.do_setup_schedvalue)
            (λ _. rw (known.0) (do_sched_tests-Tells k (AtCase k i c at_i))))

  -- The three parts choose a scheduler, give it values and messages for which the specified scheduler has just the order that the table expects, or the client
  -- exits with status -1 right after it has printed which call failed.
  scheduled_order :
      (k : Kernel) (s : Context)
      → s.case_no ≡ pos i
      → Ends
          (λ _ _ log. delivered (events log) ≡ c.sched_sids)
          IsReported
          Never
          (scheduled c k s [])
  scheduled_order k s at_case =
      Ends-map (λ _. Told noted k (AtCase k i c at_i) (told ++ []))
        (λ _ _ log. delivered (events log) ≡ c.sched_sids) IsReported Never (scheduled c k s [])
        ((scheduled-Tells k []).at s [] (refl, at_case))
        (λ _ s' log (p, q). rw (p, append_nil told) (known.1))

  -- The two ends together, for a conformance case. If the client, at some kernel, has set its
  -- scheduler and sent its messages, and the receiver's kernel delivers data messages on the streams
  -- in the order that the specified scheduler has for them, with a command to close among the
  -- messages, then the receiver terminates and returns 0.
  pub schedule_delivery :
      (client : Kernel) (s s' : Context) (log : List Call) (k : Kernel) (script : List Message)
      (fuel : ℕ) (ip port : String)
      → s.case_no ≡ pos i
      → scheduled c client s [] ≡ Outcome.returned tt s' log
      → Delivers k script
      → has_close script ≡ true
      → streams (data_of script) ≡ delivered (events log)
      → length script ≤ fuel
      → Ends
          (λ status _ _. status ≡ pos 0)
          (λ _. Never)
          Never
          (do_server fuel ip port (pos i) k zeroed [])
  schedule_delivery client s s' log k script fuel ip port at_case sent d closes same fits =
      let order : delivered (events log) ≡ c.sched_sids =
        rw sent at (scheduled_order client s at_case) in
      let e : streams (data_of script) ≡ c.sched_sids = same ∙ order in
      rw (e, agrees_refl c.sched_sids) at
        (server_verdict i c at_i asserts k script d fuel ip port closes (rw e (omega arith)) fits)
