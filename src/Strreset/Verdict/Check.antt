-- ===== src/Strreset/Verdict/Check.antt =====
-- The check of one data message in strreset.c.
use sctp_tests.Prelude.{
  ℕ, ◌+◌, ◌*◌, ◌≡◌, ◌≢◌, refl, pos, Bool, false, ◌||◌, some, List, [], ◌∷◌, inl, inr, get_elem?,
  arith, Bool-cases, ◌==◌, if◌then◌else◌,
}
use sctp_tests.Posix.{Call, Kernel, Outcome, index, or_fault, emit, ◌>>=◌}
use sctp_tests.Posix.Triple.{Ends, Never}
use sctp_tests.Harness.{Context}
use sctp_tests.Harness.Peer.{receptions}
use sctp_tests.Strreset.Cases.{
  CheckReset, check_pr, check_pr_x, check_pr_xx, ResetCase, sn_cases, case_at, current_case,
}
use sctp_tests.Strreset.Checks.{
  check_total, do_check_pr, do_check_pr_x, do_check_pr_xx, run_check_pr,
}
use sctp_tests.Strreset.Program.{check}

-- how many messages of the case's length a check waits for
abbrev pub messages : CheckReset → ℕ
messages CheckReset.null = 0
messages check_pr = 70001
messages check_pr_x = 11
messages check_pr_xx = 14

-- Some beginning of the list that is not empty, added to `n`, makes `total`.
unfoldable pub reaches : ℕ → ℕ → List ℕ → Bool
reaches total n [] = false
reaches total n (len ∷ lens) = n + len == total || reaches total (n + len) lens

-- What the check of a message does: the sum grows, and the status becomes 0 if it is the total.
abbrev pub Totalled : ℕ → Context → List Call → Unit {0} → Context → List Call → Type 0
Totalled total s log _ s' log' =
    (s' ≡ record s { cb3 = s.cb3 + s.cb2; cb1 = if s.cb3 + s.cb2 == total then 0 else s.cb1 })
    × (receptions log' ≡ receptions log)

-- The verdict after one more message.
pub verdict_step :
    (total n len cb1 v : ℕ) (lens : List ℕ)
    → (if reaches total n (len ∷ lens) then 0 else cb1) ≡ v
    → (if reaches total (n + len) lens then 0 else (if n + len == total then 0 else cb1)) ≡ v
unfolding reaches
verdict_step total n len cb1 v lens h = ground arith

module _ (i : ℕ) (c : ResetCase) (at_i : get_elem? sn_cases i ≡ some c) where
  current_case_lem :
      (k : Kernel) (s : Context) (log : List Call)
      → s.case_no ≡ pos i
      → current_case k s log ≡ Outcome.returned c s log
  unfolding current_case case_at index or_fault ◌>>=◌
  current_case_lem k s log e = rw (e, at_i)

  check_total-Ends :
      (k : Kernel) (s : Context) (log : List Call) (n : ℕ)
      → s.case_no ≡ pos i
      → Ends (Totalled (n * c.value) s log) (λ _. Never) Never (check_total n k s log)
  unfolding check_total emit ◌>>=◌
  check_total-Ends k s log n e =
      rw (current_case_lem k (record s { cb3 = s.cb3 + s.cb2 }) _ e)
        (elim (Bool-cases (s.cb3 + s.cb2 == n * c.value)) [
          | inl p ↦ rw (p, Totalled) (refl, refl)
          | inr p ↦ rw (p, Totalled) (refl, refl)
        ])

  run_check_pr-Ends :
      (k : Kernel) (s : Context) (log : List Call) (which : CheckReset)
      → s.case_no ≡ pos i
      → which ≢ CheckReset.null
      → Ends
          (Totalled (messages which * c.value) s log)
          (λ _. Never)
          Never
          (run_check_pr which k s log)
  unfolding run_check_pr do_check_pr do_check_pr_x do_check_pr_xx
  run_check_pr-Ends k s log CheckReset.null e h = absurd (h refl)
  run_check_pr-Ends k s log check_pr e h = check_total-Ends k s log 70001 e
  run_check_pr-Ends k s log check_pr_x e h = check_total-Ends k s log 11 e
  run_check_pr-Ends k s log check_pr_xx e h = check_total-Ends k s log 14 e

  pub check-Ends :
      (k : Kernel) (s : Context) (log : List Call)
      → s.case_no ≡ pos i
      → c.do_check_pr ≢ CheckReset.null
      → Ends (Totalled (messages c.do_check_pr * c.value) s log) (λ _. Never) Never (check k s log)
  unfolding check ◌>>=◌
  check-Ends k s log e h =
      rw (current_case_lem k s log e) (run_check_pr-Ends k s log c.do_check_pr e h)
