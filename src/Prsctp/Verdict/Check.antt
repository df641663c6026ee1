-- ===== src/Prsctp/Verdict/Check.antt =====
-- The check of one data message in sctp_pr.c.
use sctp_tests.Prelude.{
  ℕ, ◌+◌, ◌%◌, ◌^◌, ◌<◌, ◌≡◌, ◌≢◌, refl, pos, some, List, inl, inr, get_elem?, arith, Bool-cases,
  ◌==◌,
}
use sctp_tests.Posix.{Call, Kernel, Outcome, index, or_fault, emit, ◌>>=◌}
use sctp_tests.Posix.Triple.{Ends, Never}
use sctp_tests.Harness.{Context}
use sctp_tests.Harness.Peer.{receptions}
use sctp_tests.Prsctp.Cases.{
  CheckPr, check_pr, check_pr_c, check_pr_cx, check_pr_cxx, PrCase, sn_cases, case_at, current_case,
}
use sctp_tests.Prsctp.Checks.{
  cb4, set_cb4, judge, tally, do_check_pr, do_check_pr_c, do_check_pr_cx, do_check_pr_cxx,
  run_check_pr,
}
use sctp_tests.Prsctp.Score.{score_of, score}
use sctp_tests.Prsctp.Program.{check}

-- What the check of a message does: the score is taken, and the case stays.
abbrev pub Scored : CheckPr → Context → List Call → Unit {0} → Context → List Call → Type 0
Scored which s log _ s' log' =
    (score_of s' ≡ score which s.cb2 (score_of s))
    × (s'.case_no ≡ s.case_no)
    × (receptions log' ≡ receptions log)

-- Eight bytes hold a sum below 2 ^ 63.
set_cb4_lem :
    (n v : ℕ) (s : Context) → v < 2 ^ 63 → cb4 (set_cb4 (v % 2 ^ 64) (record s { cb3 = n })) ≡ v
set_cb4_lem n v s h = omega arith

module _ (k : Kernel) (s : Context) (log : List Call) (room : cb4 s + s.cb2 < 2 ^ 63) where
  do_check_pr-Scored : Ends (Scored check_pr s log) (λ _. Never) Never (do_check_pr k s log)
  unfolding do_check_pr judge emit ◌>>=◌
  do_check_pr-Scored = (refl, refl, refl)

  tallied : cb4 (set_cb4 ((cb4 s + s.cb2) % 2 ^ 64) (record s { cb3 = s.cb3 + 1 })) ≡ cb4 s + s.cb2
  tallied = set_cb4_lem (s.cb3 + 1) (cb4 s + s.cb2) s room

  do_check_pr_c-Scored : Ends (Scored check_pr_c s log) (λ _. Never) Never (do_check_pr_c k s log)
  unfolding do_check_pr_c tally judge emit ◌>>=◌
  do_check_pr_c-Scored = elim (Bool-cases (s.cb3 + 1 == 1)) [
    | inl p ↦ rw (p, Scored, tallied) (refl, refl, refl)
    | inr p ↦ rw (p, Scored, tallied) (refl, refl, refl)
  ]

  do_check_pr_cx-Scored :
      Ends (Scored check_pr_cx s log) (λ _. Never) Never (do_check_pr_cx k s log)
  unfolding do_check_pr_cx tally judge emit ◌>>=◌
  do_check_pr_cx-Scored = elim (Bool-cases (s.cb3 + 1 == 1)) [
    | inl p ↦ rw (p, Scored, tallied) (refl, refl, refl)
    | inr p ↦ rw (p, Scored, tallied) (refl, refl, refl)
  ]

  do_check_pr_cxx-Scored :
      Ends (Scored check_pr_cxx s log) (λ _. Never) Never (do_check_pr_cxx k s log)
  unfolding do_check_pr_cxx tally judge emit ◌>>=◌
  do_check_pr_cxx-Scored = elim (Bool-cases (s.cb3 + 1 == 1)) [
    | inl p ↦ rw (p, Scored, tallied) (refl, refl, refl)
    | inr p ↦ elim (Bool-cases (s.cb3 + 1 == 2)) [
      | inl q ↦ rw (p, q, Scored, tallied) (refl, refl, refl)
      | inr q ↦ elim (Bool-cases (s.cb3 + 1 == 3)) [
        | inl r ↦ rw (p, q, r, Scored, tallied) (refl, refl, refl)
        | inr r ↦ elim (Bool-cases (s.cb3 + 1 == 4)) [
          | inl t ↦ rw (p, q, r, t, Scored, tallied) (refl, refl, refl)
          | inr t ↦ rw (p, q, r, t, Scored, tallied) (refl, refl, refl)
        ]
      ]
    ]
  ]

  run_check_pr-Scored :
      (which : CheckPr)
      → which ≢ CheckPr.null
      → Ends (Scored which s log) (λ _. Never) Never (run_check_pr which k s log)
  unfolding run_check_pr
  run_check_pr-Scored CheckPr.null h = absurd (h refl)
  run_check_pr-Scored check_pr h = do_check_pr-Scored
  run_check_pr-Scored check_pr_c h = do_check_pr_c-Scored
  run_check_pr-Scored check_pr_cx h = do_check_pr_cx-Scored
  run_check_pr-Scored check_pr_cxx h = do_check_pr_cxx-Scored

module _ (i : ℕ) (c : PrCase) (at_i : get_elem? sn_cases i ≡ some c) where
  current_case_lem :
      (k : Kernel) (s : Context) (log : List Call)
      → s.case_no ≡ pos i
      → current_case k s log ≡ Outcome.returned c s log
  unfolding current_case case_at index or_fault ◌>>=◌
  current_case_lem k s log e = rw (e, at_i)

  pub check-Ends :
      (k : Kernel) (s : Context) (log : List Call)
      → s.case_no ≡ pos i
      → c.do_check_pr ≢ CheckPr.null
      → cb4 s + s.cb2 < 2 ^ 63
      → Ends (Scored c.do_check_pr s log) (λ _. Never) Never (check k s log)
  unfolding check ◌>>=◌
  check-Ends k s log e checks room =
      rw (current_case_lem k s log e) (run_check_pr-Scored k s log room c.do_check_pr checks)
