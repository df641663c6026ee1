-- ===== src/Posix/Started.antt =====
-- The second thread of a program, where the kernel creates it and where it does not.
use sctp_tests.Prelude.{◌≡◌, ◌⊎◌, inl, inr, ℤ, pos, is_zero, Bool, false, Bool-cases, List, [], ◌∷◌}
use sctp_tests.Posix.Calls.{Call, Kernel, pthread_create, pthread_join}
use sctp_tests.Posix.Exec.{M, call, fault, ◌>>=◌}
use sctp_tests.Posix.Threads.{sequence, interleave, with_thread}
use sctp_tests.Posix.Rules.{Adds, Keeps-emit}
use sctp_tests.Posix.Triple.{Triple, Triple-then, Keeps}

-- pthread_create() does not fail.
abbrev pub Starts : Kernel → Type 0
Starts k = (log : List Call) → k.result log pthread_create ≡ pos 0

module _ {S : Type 0} {k : Kernel} {P R : S → List Call → Type 0} {E : ℤ → List Call → Type 0}
    {F : List Call → Type 0} where
  pub with_thread-Triple :
      (schedule : List Bool) (ms ns : List (M S (Unit {0})))
      → Starts k
      → Adds P pthread_create
      → Triple k P (λ _. R) E F (interleave schedule ms ns)
      → Adds R pthread_join
      → Triple k P (λ _. R) E F (with_thread schedule ms ns)
  unfolding with_thread call ◌>>=◌
  with_thread-Triple schedule ms ns starts a h b = record {
    at = λ s log p. rw (starts log) (
        (Triple-then (interleave schedule ms ns) _ h (λ _. Keeps-emit pthread_join b)).at s
          (pthread_create ∷ log) (a.at s log p));
  }

-- pthread_create() has failed.
abbrev pub Unstarted : Kernel → List Call → Type 0
Unstarted k [] = ⊥
Unstarted k (pthread_create ∷ log) =
    (is_zero (k.result log pthread_create) ≡ false) ⊎ Unstarted k log
Unstarted k (_ ∷ log) = Unstarted k log

-- And that remains so.
pub remains : (k : Kernel) (c : Call) (log : List Call) → Unstarted k log → Unstarted k (c ∷ log)
remains k Call.pthread_create log h = inr h
remains k _ log h = h

module _ {S : Type 0} {k : Kernel} {R : S → List Call → Type 0} {E : ℤ → List Call → Type 0} where
  fault_first : Triple k (λ _. Unstarted k) (λ _. R) E (Unstarted k) (fault {S = S} {A = Unit {0}})
  unfolding fault
  fault_first = record { at = λ s log h. h }

  -- Without the second thread, the first one goes on to what is undefined.
  pub with_thread-Unstarted :
      {P : S → List Call → Type 0} (schedule : List Bool) (ms ns : List (M S (Unit {0})))
      → Adds P pthread_create
      → Triple k P (λ _. R) E (Unstarted k) (interleave schedule ms ns)
      → Adds R pthread_join
      → Keeps k (λ _. Unstarted k) E (Unstarted k) (sequence ms)
      → Triple k P (λ _. R) E (Unstarted k) (with_thread schedule ms ns)
  unfolding with_thread call ◌>>=◌
  with_thread-Unstarted schedule ms ns a h b alone = record {
    at = λ s log p. elim (Bool-cases (is_zero (k.result log pthread_create))) [
      | inl e ↦ rw e (
          (Triple-then (interleave schedule ms ns) _ h (λ _. Keeps-emit pthread_join b)).at s
            (pthread_create ∷ log) (a.at s log p))
      | inr e ↦ rw e (
          (Triple-then (sequence ms) _ alone (λ _. fault_first)).at s (pthread_create ∷ log)
            (inl e))
    ];
  }
