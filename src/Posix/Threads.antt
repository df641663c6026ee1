-- ===== src/Posix/Threads.antt =====
-- Two threads that run by a schedule: a list of Booleans that is any interleaving of their steps.
use sctp_tests.Prelude.{Bool, true, false, is_zero, List, [], ◌∷◌, if◌then◌else◌}
use sctp_tests.Posix.Calls.{pthread_create, pthread_join}
use sctp_tests.Posix.Exec.{M, pure, call, fault, ◌>>=◌, ◌>>◌}
use sctp_tests.Posix.Checked.{emit}

module _ {S : Type 0} where
  unfoldable pub sequence : List (M S (Unit {0})) → M S (Unit {0})
  sequence [] = pure tt
  sequence (m ∷ ms) = m >>= λ _. sequence ms

  -- The steps of two threads: `true` gives a step to the second. At the end of the
  -- schedule what is left is run, of the first thread before the second.
  unfoldable pub interleave :
      List Bool → List (M S (Unit {0})) → List (M S (Unit {0})) → M S (Unit {0})
  interleave (true ∷ bs) ms (n ∷ ns) = n >>= λ _. interleave bs ms ns
  interleave (false ∷ bs) (m ∷ ms) ns = m >>= λ _. interleave bs ms ns
  interleave (b ∷ bs) ms ns = interleave bs ms ns
  interleave [] ms ns = sequence ms >>= λ _. sequence ns

  -- From pthread_create() to pthread_join(), whose results no program looks at. If the thread is not created,
  -- the first one goes on alone, and then joins a thread by a handle that has no value.
  unfoldable pub with_thread :
      List Bool → List (M S (Unit {0})) → List (M S (Unit {0})) → M S (Unit {0})
  with_thread schedule ms ns = do
    r ← call pthread_create
    if is_zero r then (do interleave schedule ms ns; emit pthread_join) else do sequence ms; fault
