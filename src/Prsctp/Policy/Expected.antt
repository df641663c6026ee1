-- ===== src/Prsctp/Policy/Expected.antt =====
-- The lengths that the cases of sctp_pr.c expect.
use sctp_tests.Prelude.{
  ℕ, ◌≤◌, ◌<◌, ◌^◌, ◌≡◌, ◌≢◌, refl, ◌∙◌, ◌∷◌, String, pos, Bool, true, false, some, List, [], ◌++◌,
  length, get_elem?, All, All-get_elem?, ◌==◌,
}
use sctp_tests.Posix.{Call, Kernel, Outcome}
use sctp_tests.Posix.Rules.{IsReported}
use sctp_tests.Posix.Triple.{Ends, Ends-map, Never}
use sctp_tests.Posix.Tells.{collect, append_nil, Told}
use sctp_tests.Harness.{Context, zeroed, cmd_set_strreset, cmd_close_asoc}
use sctp_tests.Harness.Peer.{Message, Delivers}
use sctp_tests.Harness.Script.{has_close, has_reset, data_of, lengths, sum}
use sctp_tests.Prsctp.Cases.{
  PrCase, TestPr, CheckPr, check_pr, check_pr_c, check_pr_cx, check_pr_cxx, sn_cases,
}
use sctp_tests.Prsctp.Policy.Messages.{IsAlone}
use sctp_tests.Prsctp.Traffic.{run_test_pr}
use sctp_tests.Prsctp.Program.{do_server}
use sctp_tests.Prsctp.Score.{passes}
use sctp_tests.Prsctp.Verdict.{policy_verdict}
use sctp_tests.Prsctp.Policy.{noted, queue, kept}
use sctp_tests.Prsctp.Policy.Messages.{events_of, AtCase, run_test_pr-Tells}

-- The lengths of the messages that a check is there to see: it prints what it expects. `sn_do_check_pr()`
-- itself accepts any messages before one of 1000 bytes.
abbrev pub wanted : CheckPr → List ℕ
wanted CheckPr.null = []
wanted check_pr = 1000 ∷ []
wanted check_pr_c = 100 ∷ 100 ∷ []
wanted check_pr_cx = 1000 ∷ 1000 ∷ []
wanted check_pr_cxx = 1 ∷ 1 ∷ 1000 ∷ 1000 ∷ []

-- What is known of an entry: what the policies keep of its messages is what its check wants and accepts.
abbrev IsFit : PrCase → Type 0
IsFit c =
    ((c.drop == 0) ≡ false)
    × ((c.length == cmd_set_strreset) ≡ false)
    × ((c.length == cmd_close_asoc) ≡ false)
    × (kept (events_of c c.do_test_pr) ≡ wanted c.do_check_pr)
    × (passes c.do_check_pr (wanted c.do_check_pr) ≡ true)

abbrev FitIfAlone : TestPr → PrCase → Type 0
FitIfAlone TestPr.null c = Unit
FitIfAlone TestPr.test_pr_cxx c = Unit
FitIfAlone TestPr.test_pr_cxxx c = Unit
FitIfAlone t c = IsFit c

sn_cases-FitIfAlone : All (λ c. FitIfAlone c.do_test_pr c) sn_cases
unfolding sn_cases passes kept queue
sn_cases-FitIfAlone = assumption (tt, refl)

by_test : (t : TestPr) (c : PrCase) → IsAlone t → FitIfAlone t c → IsFit c
by_test TestPr.null c h f = elim h [ ]
by_test TestPr.test_pr_cxx c h f = elim h [ ]
by_test TestPr.test_pr_cxxx c h f = elim h [ ]
by_test _ c h f = f

module _ (i : ℕ) (c : PrCase) (at_i : get_elem? sn_cases i ≡ some c)
    (alone : IsAlone c.do_test_pr) where
  known : IsFit c
  known =
      by_test c.do_test_pr c alone
        (All-get_elem? (λ c. FitIfAlone c.do_test_pr c) sn_cases i c sn_cases-FitIfAlone at_i)

  -- Whatever the kernel answers, the test of a case with one thread returns, and what it has done, its
  -- messages, the dropping of packets, its pauses and the size of its buffer, is such that the specified
  -- policies deliver just the messages that the case's check is there to see; or it exits with status -1
  -- right after it has printed which call failed. And the check accepts these messages.
  pub policy_expected :
      (k : Kernel) (schedule : List Bool) (s : Context)
      → s.case_no ≡ pos i
      → Ends
          (λ _ _ log. kept (collect noted log) ≡ wanted c.do_check_pr)
          IsReported
          Never
          (run_test_pr schedule c.do_test_pr k s [])
        × (passes c.do_check_pr (wanted c.do_check_pr) ≡ true)
  policy_expected k schedule s at_case =
      let (d, e, f, fits, good) = known in
      (
        Ends-map (λ _. Told noted k (AtCase k i c at_i d) (events_of c c.do_test_pr ++ []))
            (λ _ _ log. kept (collect noted log) ≡ wanted c.do_check_pr) IsReported Never
            (run_test_pr schedule c.do_test_pr k s [])
            ((run_test_pr-Tells k i c at_i d e f schedule c.do_test_pr alone []).at s []
              (refl, at_case))
            (λ _ s' log (p, q). rw (p, append_nil (events_of c c.do_test_pr)) fits),
        good,
      )

  -- The two ends together, for a case whose test has one thread. If the test of the client, at some
  -- kernel, has returned, and the receiver's kernel delivers data of just the lengths that the
  -- specified policies deliver of what the test has done, with a command to close among the messages,
  -- before which no command allows resets, and less than 2 ^ 63 bytes, then these are the lengths that
  -- the case's check is there to see, and the receiver terminates and returns 0.
  pub policy_delivery :
      (client : Kernel) (schedule : List Bool) (s s' : Context) (log : List Call) (k : Kernel)
      (script : List Message) (fuel : ℕ) (ip port : String)
      → c.do_check_pr ≢ CheckPr.null
      → s.case_no ≡ pos i
      → run_test_pr schedule c.do_test_pr client s [] ≡ Outcome.returned tt s' log
      → Delivers k script
      → has_close script ≡ true
      → has_reset script ≡ false
      → sum (lengths (data_of script)) < 2 ^ 63
      → lengths (data_of script) ≡ kept (collect noted log)
      → length script ≤ fuel
      → (lengths (data_of script) ≡ wanted c.do_check_pr)
        × Ends
            (λ status _ _. status ≡ pos 0)
            (λ _. Never)
            Never
            (do_server fuel ip port (pos i) k zeroed [])
  policy_delivery client schedule s s' log k script fuel ip port checks at_case sent d closes stays
        room same fits =
      let (told, good) = policy_expected client schedule s at_case in
      let seen : kept (collect noted log) ≡ wanted c.do_check_pr = rw sent at told in
      let all : lengths (data_of script) ≡ wanted c.do_check_pr = same ∙ seen in
      (
        all,
        rw (all, good) at
            (policy_verdict i c at_i checks k script d fuel ip port closes stays room fits),
      )
