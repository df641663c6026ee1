-- ===== src/Ndata/Cases.antt =====
-- struct sn_case and the table sn_cases[] of sctp_ndata.c.
use sctp_tests.Prelude.{ℕ, ℤ, pos, negsuc, List, [], ◌∷◌}
use sctp_tests.Posix.{M, gets, index, fault, ◌>>=◌}
use sctp_tests.Harness.{Context}

-- The functions that the table's pointers name.
pub data SetupSched : Type 0 where
  setup_sched : SetupSched

pub data SetupSchedvalue : Type 0 where
  setup_schedvalue prio_setup_schedvalue prio_stress_setup_schedvalue : SetupSchedvalue
  rr_setup_schedvalue : SetupSchedvalue

pub data SchedTests : Type 0 where
  sched_tests prio_sched_tests prio_sched_tests_x prio_sched_tests_y : SchedTests
  prio_stress_sched_tests prio_small_sched_tests : SchedTests
  prio_fuzz_sched_tests prio_fuzzb_sched_tests : SchedTests

pub data AssertTests : Type 0 where
  assert_tests prio_assert_tests prio_stress_assert_tests : AssertTests
  prio_small_assert_tests prio_fuzz_assert_tests : AssertTests

pub record SnCase : Type 0 where
  pub sched : ℕ
  pub sched_cork : ℕ
  pub sched_sids : List ℕ
  pub do_setup_sched : SetupSched
  pub do_setup_schedvalue : SetupSchedvalue
  pub do_sched_tests : SchedTests
  pub do_assert_tests : AssertTests

-- enum sctp_sched_type of linux/sctp.h
abbrev pub ss_fcfs : ℕ
ss_fcfs = 0

abbrev pub ss_prio : ℕ
ss_prio = 1

abbrev pub ss_rr : ℕ
ss_rr = 2

-- an initialiser `{ sched, cork, {s0, ..., s8}, setup_sched, schedvalue, tests, assert }`
abbrev pub sn_case : ℕ → ℕ → List ℕ → SetupSchedvalue → SchedTests → AssertTests → SnCase
sn_case sched cork sids value tests asserts = record {
  sched = sched;
  sched_cork = cork;
  sched_sids = sids;
  do_setup_sched = setup_sched;
  do_setup_schedvalue = value;
  do_sched_tests = tests;
  do_assert_tests = asserts;
}

-- `{0}` of an array of nine
abbrev pub no_sids : List ℕ
no_sids = 0 ∷ 0 ∷ 0 ∷ 0 ∷ 0 ∷ 0 ∷ 0 ∷ 0 ∷ 0 ∷ []

unfoldable pub sn_cases : List SnCase
sn_cases =
    sn_case ss_prio 1 (3 ∷ 3 ∷ 3 ∷ 2 ∷ 2 ∷ 2 ∷ 1 ∷ 1 ∷ 1 ∷ []) setup_schedvalue sched_tests
      assert_tests
    ∷ sn_case ss_prio 1 (3 ∷ 3 ∷ 3 ∷ 1 ∷ 2 ∷ 1 ∷ 2 ∷ 1 ∷ 2 ∷ []) prio_setup_schedvalue sched_tests
        assert_tests
    ∷ sn_case ss_prio 0 no_sids prio_stress_setup_schedvalue prio_sched_tests prio_assert_tests
    ∷ sn_case ss_prio 0 no_sids prio_stress_setup_schedvalue prio_stress_sched_tests
        prio_stress_assert_tests
    ∷ sn_case ss_prio 0 no_sids prio_stress_setup_schedvalue prio_small_sched_tests
        prio_small_assert_tests
    ∷ sn_case ss_prio 0 no_sids prio_stress_setup_schedvalue prio_fuzz_sched_tests
        prio_fuzz_assert_tests
    ∷ sn_case ss_prio 0 no_sids prio_stress_setup_schedvalue prio_fuzzb_sched_tests
        prio_fuzz_assert_tests
    ∷ sn_case ss_rr 1 (1 ∷ 2 ∷ 3 ∷ 1 ∷ 2 ∷ 3 ∷ 1 ∷ 2 ∷ 3 ∷ []) rr_setup_schedvalue sched_tests
        assert_tests
    ∷ sn_case ss_rr 0 no_sids rr_setup_schedvalue prio_sched_tests prio_assert_tests
    ∷ sn_case ss_rr 0 no_sids prio_stress_setup_schedvalue prio_stress_sched_tests
        prio_stress_assert_tests
    ∷ sn_case ss_rr 0 no_sids prio_stress_setup_schedvalue prio_small_sched_tests
        prio_small_assert_tests
    ∷ sn_case ss_rr 0 no_sids prio_stress_setup_schedvalue prio_fuzz_sched_tests
        prio_fuzz_assert_tests
    ∷ sn_case ss_rr 0 no_sids prio_stress_setup_schedvalue prio_fuzzb_sched_tests
        prio_fuzz_assert_tests
    ∷ sn_case ss_fcfs 1 (1 ∷ 1 ∷ 1 ∷ 2 ∷ 2 ∷ 2 ∷ 3 ∷ 3 ∷ 3 ∷ []) rr_setup_schedvalue sched_tests
        assert_tests
    ∷ sn_case ss_fcfs 0 no_sids rr_setup_schedvalue prio_sched_tests prio_assert_tests
    ∷ sn_case ss_fcfs 0 no_sids prio_stress_setup_schedvalue prio_stress_sched_tests
        prio_stress_assert_tests
    ∷ sn_case ss_fcfs 0 no_sids prio_stress_setup_schedvalue prio_small_sched_tests
        prio_small_assert_tests
    ∷ sn_case ss_fcfs 0 no_sids prio_stress_setup_schedvalue prio_fuzz_sched_tests
        prio_fuzz_assert_tests
    ∷ sn_case ss_fcfs 0 no_sids prio_stress_setup_schedvalue prio_fuzz_sched_tests
        prio_fuzz_assert_tests
    ∷ sn_case ss_fcfs 0 no_sids rr_setup_schedvalue prio_sched_tests_x prio_assert_tests
    ∷ sn_case ss_fcfs 0 no_sids rr_setup_schedvalue prio_sched_tests_y prio_assert_tests
    ∷ []

-- SN_CASE_MAX
abbrev pub sn_case_max : ℕ
sn_case_max = 21

-- `sn_cases[i]`, which is undefined out of bounds
unfoldable pub case_at : ℤ → M Context SnCase
case_at (pos i) = index sn_cases i
case_at (negsuc i) = fault

-- `sn_cases[snc->sched]`
unfoldable pub current_case : M Context SnCase
current_case = do s ← gets (λ s. s); case_at s.case_no
