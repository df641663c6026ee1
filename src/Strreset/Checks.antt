-- ===== src/Strreset/Checks.antt =====
-- What the receiver of strreset.c does with each data message.
use sctp_tests.Prelude.{ℕ, ◌+◌, ◌*◌, pos, [], ◌∷◌, ◌==◌, if◌then◌else◌}
use sctp_tests.Posix.{M, gets, modify, pure, fault, print, ◌>>=◌, ◌>>◌}
use sctp_tests.Harness.{Context}
use sctp_tests.Strreset.Cases.{CheckReset, check_pr, check_pr_x, check_pr_xx, current_case}

-- the body that the three checks share, for so many messages of the case's length
unfoldable pub check_total : ℕ → M Context (Unit {0})
check_total messages = do
  s ← gets (λ s. s)
  print "do check %d, %d\n" (pos s.cb3 ∷ pos s.cb2 ∷ [])
  modify (λ s. record s { cb3 = s.cb3 + s.cb2 })
  t ← gets (λ s. s)
  c ← current_case
  if t.cb3 == messages * c.value then modify (λ s. record s { cb1 = 0 }) else pure tt

-- sn_do_check_pr()
unfoldable pub do_check_pr : M Context (Unit {0})
do_check_pr = check_total 70001

-- sn_do_check_pr_x()
unfoldable pub do_check_pr_x : M Context (Unit {0})
do_check_pr_x = check_total 11

-- sn_do_check_pr_xx()
unfoldable pub do_check_pr_xx : M Context (Unit {0})
do_check_pr_xx = check_total 14

-- the call through the table's pointer
unfoldable pub run_check_pr : CheckReset → M Context (Unit {0})
run_check_pr CheckReset.null = fault
run_check_pr check_pr = do_check_pr
run_check_pr check_pr_x = do_check_pr_x
run_check_pr check_pr_xx = do_check_pr_xx
