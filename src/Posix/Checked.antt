-- ===== src/Posix/Checked.antt =====
-- The ways in which the programs look at the result of a call.
use sctp_tests.Prelude.{
  ℕ, String, ℤ, minus_one, is_zero, is_minus_one, Option, none, some, List, get_elem?,
  if◌then◌else◌,
}
use sctp_tests.Posix.Calls.{Call, perror, printf}
use sctp_tests.Posix.Exec.{M, pure, exit, fault, call, call_value, ◌>>=◌, ◌>>◌}

module _ {S : Type 0} where
  -- a call whose result is not looked at
  unfoldable pub emit : Call → M S (Unit {0})
  emit c = do call c; pure tt

  -- `printf(format, args...)`
  abbrev pub print : String → List ℤ → M S (Unit {0})
  print format args = emit (printf format args)

module _ {S A : Type 0} where
  -- `perror(what); exit(-1);`
  unfoldable pub die : String → M S A
  die what = do emit (perror what); exit minus_one

  unfoldable pub or_fault : Option A → M S A
  or_fault none = fault
  or_fault (some a) = pure a

  -- `xs[i]`, which is undefined out of bounds
  unfoldable pub index : List A → ℕ → M S A
  index xs i = or_fault (get_elem? xs i)

module _ {S : Type 0} where
  -- `if (c) { perror(what); exit(-1); }`
  unfoldable pub must : Call → String → M S (Unit {0})
  must c what = do r ← call c; if is_zero r then pure tt else die what

  -- `if (c == -1) { perror(what); exit(-1); }`
  unfoldable pub must_send : Call → String → M S (Unit {0})
  must_send c what = do r ← call c; if is_minus_one r then die what else pure tt

  -- `must`, of a call that leaves a number in its argument
  unfoldable pub fetch : Call → String → M S ℕ
  fetch c what = do (r, v) ← call_value c; if is_zero r then pure v else die what
