-- ===== src/Posix/Scheduled.antt =====
-- A rule for two threads: what holds depends on how far each of them has come.
use sctp_tests.Prelude.{ℕ, suc, ◌+◌, ◌≡◌, ℤ, Bool, true, false, List, [], ◌∷◌, length, arith}
use sctp_tests.Posix.Calls.{Call, Kernel}
use sctp_tests.Posix.Exec.{M, pure, ◌>>=◌}
use sctp_tests.Posix.Threads.{sequence, interleave}
use sctp_tests.Posix.Triple.{Triple, Triple-then}

module _ {S : Type 0} (k : Kernel) (E : ℤ → List Call → Type 0) (F : List Call → Type 0)
    (P : ℕ → ℕ → S → List Call → Type 0) where
  -- The steps of the first thread, from the one with number `i` on, wherever the second one is.
  abbrev pub First : ℕ → List (M S (Unit {0})) → Type 0
  First i [] = Unit
  First i (m ∷ ms) = ((j : ℕ) → Triple k (P i j) (λ _. P (suc i) j) E F m) × First (suc i) ms

  -- The steps of the second thread.
  abbrev pub Second : ℕ → List (M S (Unit {0})) → Type 0
  Second j [] = Unit
  Second j (n ∷ ns) = ((i : ℕ) → Triple k (P i j) (λ _. P i (suc j)) E F n) × Second (suc j) ns

  -- Both threads have ended.
  abbrev Ended : ℕ → ℕ → List (M S (Unit {0})) → List (M S (Unit {0})) → M S (Unit {0}) → Type 0
  Ended i j ms ns m = Triple k (P i j) (λ _. P (i + length ms) (j + length ns)) E F m

  second_step :
      (i j : ℕ) (ms ns : List (M S (Unit {0}))) (n rest : M S (Unit {0}))
      → Triple k (P i j) (λ _. P i (suc j)) E F n
      → Ended i (suc j) ms ns rest
      → Ended i j ms (n ∷ ns) (n >>= λ _. rest)
  second_step i j ms ns n rest h r =
      let e : suc j + length ns ≡ j + suc (length ns) = omega arith in
      rw (← e) (Triple-then n (λ _. rest) h (λ _. r))

  first_step :
      (i j : ℕ) (ms ns : List (M S (Unit {0}))) (m rest : M S (Unit {0}))
      → Triple k (P i j) (λ _. P (suc i) j) E F m
      → Ended (suc i) j ms ns rest
      → Ended i j (m ∷ ms) ns (m >>= λ _. rest)
  first_step i j ms ns m rest h r =
      let e : suc i + length ms ≡ i + suc (length ms) = omega arith in
      rw (← e) (Triple-then m (λ _. rest) h (λ _. r))

  all_second :
      (i j : ℕ) (ns : List (M S (Unit {0})))
      → Second j ns
      → Triple k (P i j) (λ _. P i (j + length ns)) E F (sequence ns)
  unfolding sequence pure
  all_second i j [] h = let b : j + 0 ≡ j = omega arith in rw b (record { at = λ s log p. p })
  all_second i j (n ∷ ns) h =
      let e : suc j + length ns ≡ j + suc (length ns) = omega arith in
      rw (← e) (Triple-then n (λ _. sequence ns) (h.0 i) (λ _. all_second i (suc j) ns h.1))

  all_first :
      (i j : ℕ) (ms : List (M S (Unit {0})))
      → First i ms
      → Triple k (P i j) (λ _. P (i + length ms) j) E F (sequence ms)
  unfolding sequence pure
  all_first i j [] h = let b : i + 0 ≡ i = omega arith in rw b (record { at = λ s log p. p })
  all_first i j (m ∷ ms) h =
      let e : suc i + length ms ≡ i + suc (length ms) = omega arith in
      rw (← e) (Triple-then m (λ _. sequence ms) (h.0 j) (λ _. all_first (suc i) j ms h.1))

  pub interleave-Ended :
      (schedule : List Bool) (i j : ℕ) (ms ns : List (M S (Unit {0})))
      → First i ms
      → Second j ns
      → Triple k (P i j) (λ _. P (i + length ms) (j + length ns)) E F (interleave schedule ms ns)
  unfolding interleave
  interleave-Ended [] i j ms ns h g =
      Triple-then (sequence ms) (λ _. sequence ns) (all_first i j ms h)
        (λ _. all_second (i + length ms) j ns g)
  interleave-Ended (true ∷ bs) i j ms [] h g = interleave-Ended bs i j ms [] h g
  interleave-Ended (true ∷ bs) i j ms (n ∷ ns) h g =
      second_step i j ms ns n (interleave bs ms ns) (g.0 i)
        (interleave-Ended bs i (suc j) ms ns h g.1)
  interleave-Ended (false ∷ bs) i j [] ns h g = interleave-Ended bs i j [] ns h g
  interleave-Ended (false ∷ bs) i j (m ∷ ms) ns h g =
      first_step i j ms ns m (interleave bs ms ns) (h.0 j)
        (interleave-Ended bs (suc i) j ms ns h.1 g)
