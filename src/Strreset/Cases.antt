-- ===== src/Strreset/Cases.antt =====
-- struct sn_case and the table sn_cases[] of strreset.c.
use sctp_tests.Prelude.{ℕ, ℤ, pos, negsuc, List, [], ◌∷◌}
use sctp_tests.Posix.{M, gets, index, fault, ◌>>=◌}
use sctp_tests.Harness.{Context}

-- The functions that the table's pointers name; an entry that the table does not list holds null.
pub data SetupReset : Type 0 where
  null setup_pr : SetupReset

pub data TestReset : Type 0 where
  null test_pr test_pr_asoc test_pr_x test_pr_asoc_x test_pr_asoc_xx : TestReset

pub data CheckReset : Type 0 where
  null check_pr check_pr_x check_pr_xx : CheckReset

-- Of `values` only the first entry is read.
pub record ResetCase : Type 0 where
  pub drop : ℕ
  pub flags : ℕ
  pub value : ℕ
  pub do_setup_pr : SetupReset
  pub do_test_pr : TestReset
  pub do_check_pr : CheckReset

-- an initialiser, `.flags = 0` and `.do_setup_pr = sn_do_setup_pr` in all
abbrev pub reset_case : ℕ → ℕ → TestReset → CheckReset → ResetCase
reset_case drop value test check = record {
  drop = drop;
  flags = 0;
  value = value;
  do_setup_pr = setup_pr;
  do_test_pr = test;
  do_check_pr = check;
}

abbrev pub no_case : ResetCase
no_case = record {
  drop = 0;
  flags = 0;
  value = 0;
  do_setup_pr = null;
  do_test_pr = null;
  do_check_pr = null;
}

-- SN_CASE_MAX is 19: twelve entries are left zeroed.
unfoldable pub sn_cases : List ResetCase
sn_cases =
    reset_case 1 100 test_pr check_pr
    ∷ reset_case 0 100 test_pr_asoc check_pr
    ∷ reset_case 0 6000 test_pr check_pr
    ∷ reset_case 0 6000 test_pr_asoc check_pr
    ∷ reset_case 1 100 test_pr_x check_pr_x
    ∷ reset_case 1 100 test_pr_asoc_x check_pr_x
    ∷ reset_case 2 100 test_pr_asoc_xx check_pr_xx
    ∷ no_case
    ∷ no_case
    ∷ no_case
    ∷ no_case
    ∷ no_case
    ∷ no_case
    ∷ no_case
    ∷ no_case
    ∷ no_case
    ∷ no_case
    ∷ no_case
    ∷ no_case
    ∷ []

-- `sn_cases[i]`, which is undefined out of bounds
unfoldable pub case_at : ℤ → M Context ResetCase
case_at (pos i) = index sn_cases i
case_at (negsuc i) = fault

-- `sn_cases[snc->c]`
unfoldable pub current_case : M Context ResetCase
current_case = do s ← gets (λ s. s); case_at s.case_no
