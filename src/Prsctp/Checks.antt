-- ===== src/Prsctp/Checks.antt =====
-- What the receiver of sctp_pr.c does with each data message.
use sctp_tests.Prelude.{ℕ, ◌+◌, ◌*◌, ◌/◌, ◌%◌, ◌^◌, pos, Bool, [], ◌∷◌, ◌==◌, if◌then◌else◌}
use sctp_tests.Posix.{M, gets, modify, pure, fault, print, ◌>>=◌, ◌>>◌}
use sctp_tests.Harness.{Context}
use sctp_tests.Prsctp.Cases.{CheckPr, check_pr, check_pr_c, check_pr_cx, check_pr_cxx}

-- `snc->cb[4]` is the element past the end of `long cb[4]`. On a 64-bit little-endian machine it is
-- `asoc_id` and the four bytes behind it.
abbrev pub cb4 : Context → ℕ
cb4 s = s.asoc_id + s.asoc_pad * 2 ^ 32

abbrev pub set_cb4 : ℕ → Context → Context
set_cb4 v s = record s { asoc_id = v % 2 ^ 32; asoc_pad = v / 2 ^ 32 % 2 ^ 32 }

-- `snc->cb[1] = 1` where the test fails, and else `snc->cb[1] = 0`
unfoldable pub judge : Bool → M Context (Unit {0})
judge good = modify (λ s. record s { cb1 = if good then 0 else 1 })

-- `snc->cb[3]++; snc->cb[4] += snc->cb[2];`
unfoldable pub tally : M Context (Unit {0})
tally = do
  modify (λ s. record s { cb3 = s.cb3 + 1 })
  modify (λ s. set_cb4 ((cb4 s + s.cb2) % 2 ^ 64) s)

-- sn_do_check_pr()
unfoldable pub do_check_pr : M Context (Unit {0})
do_check_pr = do
  s ← gets (λ s. s)
  print "expected %d, get: %d\n" (pos 1000 ∷ pos s.cb2 ∷ [])
  judge (s.cb2 == 1000)

-- sn_do_check_pr_c()
unfoldable pub do_check_pr_c : M Context (Unit {0})
do_check_pr_c = do
  s ← gets (λ s. s)
  print "expected %d, get: %d\n" (pos 100 ∷ pos s.cb2 ∷ [])
  tally
  t ← gets (λ s. s)
  if t.cb3 == 1 then judge (cb4 t == 100) else judge (cb4 t == 200)

-- sn_do_check_pr_cx()
unfoldable pub do_check_pr_cx : M Context (Unit {0})
do_check_pr_cx = do
  s ← gets (λ s. s)
  print "expected %d, get: %d\n" (pos 1000 ∷ pos s.cb2 ∷ [])
  tally
  t ← gets (λ s. s)
  if t.cb3 == 1 then judge (cb4 t == 1000) else judge (cb4 t == 2000)

-- sn_do_check_pr_cxx()
unfoldable pub do_check_pr_cxx : M Context (Unit {0})
do_check_pr_cxx = do
  s ← gets (λ s. s)
  print "expected %d, get: %d\n" (pos 1000 ∷ pos s.cb2 ∷ [])
  tally
  t ← gets (λ s. s)
  if t.cb3 == 1
      then judge (cb4 t == 1)
      else if t.cb3 == 2
      then judge (cb4 t == 2)
      else if t.cb3 == 3
      then judge (cb4 t == 1002)
      else if t.cb3 == 4
      then judge (cb4 t == 2002)
      else pure tt

-- the call through the table's pointer
unfoldable pub run_check_pr : CheckPr → M Context (Unit {0})
run_check_pr CheckPr.null = fault
run_check_pr check_pr = do_check_pr
run_check_pr check_pr_c = do_check_pr_c
run_check_pr check_pr_cx = do_check_pr_cx
run_check_pr check_pr_cxx = do_check_pr_cxx
