-- ===== src/Prsctp/Cases.antt =====
-- struct sn_case and the table sn_cases[] of sctp_pr.c.
use sctp_tests.Prelude.{ℕ, ℤ, pos, negsuc, List, [], ◌∷◌}
use sctp_tests.Posix.{M, gets, index, fault, ◌>>=◌}
use sctp_tests.Harness.{Context}

-- The functions that the table's pointers name; an entry that the table does not list holds null.
pub data SetupPr : Type 0 where
  null setup_pr : SetupPr

pub data TestPr : Type 0 where
  null test_pr test_pr_b test_pr_c test_pr_x test_pr_bx test_pr_cx test_pr_cxx : TestPr
  test_pr_cxxx : TestPr

pub data CheckPr : Type 0 where
  null check_pr check_pr_c check_pr_cx check_pr_cxx : CheckPr

-- Of `values` only the first entry is read.
pub record PrCase : Type 0 where
  pub drop : ℕ
  pub flags : ℕ
  pub value : ℕ
  pub length : ℕ
  pub do_setup_pr : SetupPr
  pub do_test_pr : TestPr
  pub do_check_pr : CheckPr

-- SCTP_PR_SCTP_TTL, SCTP_PR_SCTP_RTX and SCTP_PR_SCTP_PRIO of linux/sctp.h
abbrev pub pr_sctp_ttl : ℕ
pr_sctp_ttl = 0x10

abbrev pub pr_sctp_rtx : ℕ
pr_sctp_rtx = 0x20

abbrev pub pr_sctp_prio : ℕ
pr_sctp_prio = 0x30

-- an initialiser, `.drop = 1` and `.do_setup_pr = sn_do_setup_pr` in all
abbrev pub pr_case : ℕ → ℕ → ℕ → TestPr → CheckPr → PrCase
pr_case flags value length test check = record {
  drop = 1;
  flags = flags;
  value = value;
  length = length;
  do_setup_pr = setup_pr;
  do_test_pr = test;
  do_check_pr = check;
}

abbrev pub no_case : PrCase
no_case = record {
  drop = 0;
  flags = 0;
  value = 0;
  length = 0;
  do_setup_pr = null;
  do_test_pr = null;
  do_check_pr = null;
}

-- SN_CASE_MAX is 19: eight entries are left zeroed.
unfoldable pub sn_cases : List PrCase
sn_cases =
    pr_case pr_sctp_ttl 5000 1024 test_pr check_pr
    ∷ pr_case pr_sctp_ttl 5000 1024 test_pr_b check_pr
    ∷ pr_case pr_sctp_ttl 5000 1024 test_pr_c check_pr_c
    ∷ pr_case pr_sctp_rtx 2 1024 test_pr check_pr
    ∷ pr_case pr_sctp_rtx 2 1024 test_pr_b check_pr
    ∷ pr_case pr_sctp_rtx 2 1024 test_pr_c check_pr_c
    ∷ pr_case pr_sctp_prio 2 4500 test_pr_x check_pr
    ∷ pr_case pr_sctp_prio 2 4500 test_pr_bx check_pr
    ∷ pr_case pr_sctp_prio 2 4500 test_pr_cx check_pr_cx
    ∷ pr_case pr_sctp_prio 2 500 test_pr_cxx check_pr_cxx
    ∷ pr_case pr_sctp_prio 2 500 test_pr_cxxx check_pr_cxx
    ∷ no_case
    ∷ no_case
    ∷ no_case
    ∷ no_case
    ∷ no_case
    ∷ no_case
    ∷ no_case
    ∷ no_case
    ∷ []

-- `sn_cases[i]`, which is undefined out of bounds
unfoldable pub case_at : ℤ → M Context PrCase
case_at (pos i) = index sn_cases i
case_at (negsuc i) = fault

-- `sn_cases[snc->c]`
unfoldable pub current_case : M Context PrCase
current_case = do s ← gets (λ s. s); case_at s.case_no
