-- ===== src/Strreset/Volume.antt =====
-- How much the tests of strreset.c send: just what their receiver waits for.
mod Parts
unfoldable pub use Parts.{bytes}
use sctp_tests.Prelude.{
  ℕ, zero, ◌+◌, ◌*◌, ◌≤◌, ◌<◌, ◌≡◌, ◌≢◌, ◌∙◌, refl, ap, sym, String, pos, Bool, true, false, ◌||◌,
  some, List, [], ◌∷◌, inl, inr, length, get_elem?, All, All-get_elem?, arith, Bool-cases, ◌==◌,
  if◌then◌else◌,
}
use sctp_tests.Posix.{Call, Kernel, Outcome}
use sctp_tests.Posix.Rules.{IsReported}
use sctp_tests.Posix.Triple.{Ends, Never}
use sctp_tests.Posix.Volume.{volume, sent_from_start}
use sctp_tests.Harness.{Context, zeroed}
use sctp_tests.Harness.Peer.{Message, Delivers}
use sctp_tests.Harness.Script.{has_close, data_of, lengths, sum}
use sctp_tests.Strreset.Cases.{
  TestReset, CheckReset, check_pr, check_pr_x, check_pr_xx, ResetCase, sn_cases,
}
use sctp_tests.Strreset.Traffic.{run_test_pr}
use sctp_tests.Strreset.Program.{do_server}
use sctp_tests.Strreset.Verdict.{messages, reaches, reset_verdict}
use Parts.{sent_by, AtCase, run_test_pr-Sends}

-- In every entry of the table the check waits for what the test sends.
sn_cases-Fits : All (λ c. sent_by c.do_test_pr ≡ messages c.do_check_pr) sn_cases
unfolding sn_cases
sn_cases-Fits = assumption refl

-- A list that adds up to the total reaches it.
reaches-sum :
    (total n : ℕ) (lens : List ℕ) → n + sum lens ≡ total → n < total → reaches total n lens ≡ true
unfolding reaches
reaches-sum total n [] e h = absurd (omega arith)
reaches-sum total n (len ∷ lens) e h = elim (Bool-cases (n + len == total)) [
  | inl p ↦ rw p
  | inr p ↦ rw p (reaches-sum total (n + len) lens (omega arith) (grind arith))
]

messages_pos : (which : CheckReset) → which ≢ CheckReset.null → 1 ≤ messages which
messages_pos CheckReset.null h = absurd (h refl)
messages_pos check_pr h = omega arith
messages_pos check_pr_x h = omega arith
messages_pos check_pr_xx h = omega arith

module _ (i : ℕ) (c : ResetCase) (at_i : get_elem? sn_cases i ≡ some c) where
  -- Whatever the kernel answers, the test of a listed case returns and has sent just as many bytes as
  -- the case's check waits for, or it exits with status -1 right after it has printed which call failed.
  pub reset_volume :
      (k : Kernel) (s : Context)
      → c.do_test_pr ≢ TestReset.null
      → s.case_no ≡ pos i
      → Ends
          (λ _ _ log. volume bytes log ≡ messages c.do_check_pr * c.value)
          IsReported
          Never
          (run_test_pr c.do_test_pr k s [])
  reset_volume k s listed at_case =
      let fits =
        All-get_elem? (λ c. sent_by c.do_test_pr ≡ messages c.do_check_pr) sn_cases i c
          sn_cases-Fits at_i in
      rw (← fits) (
        sent_from_start k bytes (AtCase k i c at_i) (sent_by c.do_test_pr * c.value) _ s
          (run_test_pr-Sends k i c at_i c.do_test_pr listed) at_case)

  module _ (checks : c.do_check_pr ≢ CheckReset.null) (tests : c.do_test_pr ≢ TestReset.null)
      (value : 1 ≤ c.value) where
    total_reached :
        (lens : List ℕ)
        → sum lens ≡ messages c.do_check_pr * c.value
        → reaches (messages c.do_check_pr * c.value) 0 lens ≡ true
    total_reached lens e =
        let several = messages_pos c.do_check_pr checks in
        let positive : 1 ≤ messages c.do_check_pr * c.value = grind arith in
        reaches-sum (messages c.do_check_pr * c.value) 0 lens (omega arith) (omega arith)

    -- The two ends together. The case's entry is listed and its length is not 0. If the test of the
    -- client, at some kernel, has returned, and the receiver's kernel delivers a list of messages, with
    -- a command to close among them, whose data has as many bytes as the test has sent, in whatever
    -- pieces and order, and with as many resets, then the receiver terminates and returns 0.
    pub reset_delivery :
        (client : Kernel) (s s' : Context) (log : List Call) (k : Kernel) (script : List Message)
        (fuel : ℕ) (ip port : String)
        → s.case_no ≡ pos i
        → run_test_pr c.do_test_pr client s [] ≡ Outcome.returned tt s' log
        → Delivers k script
        → has_close script ≡ true
        → sum (lengths (data_of script)) ≡ volume bytes log
        → length script ≤ fuel
        → Ends
            (λ status _ _. status ≡ pos 0)
            (λ _. Never)
            Never
            (do_server fuel ip port (pos i) k zeroed [])
    reset_delivery client s s' log k script fuel ip port at_case sent d closes same fits =
        let all_sent : volume bytes log ≡ messages c.do_check_pr * c.value =
          rw sent at (reset_volume client s tests at_case) in
        rw (total_reached (lengths (data_of script)) (same ∙ all_sent)) at
          (reset_verdict i c at_i checks k script d fuel ip port closes fits)
