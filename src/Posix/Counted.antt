-- ===== src/Posix/Counted.antt =====
-- Rules for the loops that count.
use sctp_tests.Prelude.{ℕ, zero, suc, ◌+◌, ◌≤◌, ◌<◌, ◌≡◌, ℤ, List, arith}
use mathlib.Core.Path.{subst}
use native.Mathlib.Decide.{dec_lt}
use sctp_tests.Posix.Calls.{Call, Kernel}
use sctp_tests.Posix.Exec.{M, pure, for_range}
use sctp_tests.Posix.Triple.{Triple, Triple-then, Ends-map}

module _ {S : Type 0} {k : Kernel} {E : ℤ → List Call → Type 0} {F : List Call → Type 0} where
  -- an invariant that says how far the loop has come
  pub Triple-for :
      (P : ℕ → S → List Call → Type 0) (n i : ℕ) (body : ℕ → M S (Unit {0}))
      → ((j : ℕ) → i ≤ j → j < i + n → Triple k (P j) (λ _. P (j + 1)) E F (body j))
      → Triple k (P i) (λ _. P (i + n)) E F (for_range n i body)
  unfolding for_range pure
  Triple-for P zero i body h =
      let e : i + 0 ≡ i = omega arith in rw e (record { at = λ s log p. p })
  Triple-for P (suc n) i body h =
      let e : i + 1 + n ≡ i + suc n = omega arith in
      rw (← e) (
        Triple-then (body i) (λ _. for_range n (i + 1) body) (h i (omega arith) (omega arith))
          λ _. Triple-for P n (i + 1) body (λ j a b. h j (omega arith) (omega arith)))

  -- Each round shows something of its number.
  pub facts_for :
      (P : S → List Call → Type 0) (φ : ℕ → Type 0) (n i : ℕ) (body : ℕ → M S (Unit {0}))
      → ((j : ℕ) → i ≤ j → j < i + n → Triple k P (λ _ s log. P s log × φ j) E F (body j))
      → Triple k P
          (λ _ s log. P s log × ((j : ℕ) → i ≤ j → j < i + n → φ j))
          E
          F
          (for_range n i body)
  unfolding for_range pure
  facts_for P φ zero i body h = record { at = λ s log p. (p, λ j a b. absurd (omega arith)) }
  facts_for P φ (suc n) i body h =
      Triple-then (body i) (λ _. for_range n (i + 1) body) (h i (omega arith) (omega arith))
        λ _. record {
          at = λ s log (p, f).
              Ends-map (λ _ s log. P s log × ((j : ℕ) → i + 1 ≤ j → j < i + 1 + n → φ j))
                (λ _ s log. P s log × ((j : ℕ) → i ≤ j → j < i + suc n → φ j)) E F _
                ((facts_for P φ n (i + 1) body (λ j a b. h j (omega arith) (omega arith))).at s log
                  p)
                (λ _ s log (p, g). (
                  p,
                  λ j a b. elim (dec_lt i j) [
                    | yes l ↦ g j (omega arith) (omega arith)
                    | no nl ↦ subst φ (first j a nl) f
                  ],
                ));
        }
    where
      first : (j : ℕ) → i ≤ j → ¬ (i < j) → i ≡ j
      first j a nl = omega arith

  -- the same, for a loop from `i + 1` whose invariant counts from `i`
  Triple-shifted :
      (P : ℕ → S → List Call → Type 0) (n i : ℕ) (body : ℕ → M S (Unit {0}))
      → ((j : ℕ) → i ≤ j → j < i + n → Triple k (P j) (λ _. P (suc j)) E F (body (suc j)))
      → Triple k (P i) (λ _. P (i + n)) E F (for_range n (suc i) body)
  unfolding for_range pure
  Triple-shifted P zero i body h =
      let e : i + 0 ≡ i = omega arith in rw e (record { at = λ s log p. p })
  Triple-shifted P (suc n) i body h =
      let e : suc i + n ≡ i + suc n = omega arith in
      let next : suc i + 1 ≡ suc (suc i) = omega arith in
      rw (next, ← e)
        (Triple-then (body (suc i)) (λ _. for_range n (suc (suc i)) body)
          (h i (omega arith) (omega arith))
          λ _. Triple-shifted P n (suc i) body (λ j a b. h j (omega arith) (omega arith)))

  -- for (i = 1; i <= n; i++) body
  pub Triple-count :
      (P : ℕ → S → List Call → Type 0) (n : ℕ) (body : ℕ → M S (Unit {0}))
      → ((j : ℕ) → j < n → Triple k (P j) (λ _. P (suc j)) E F (body (suc j)))
      → Triple k (P 0) (λ _. P n) E F (for_range n 1 body)
  Triple-count P n body h =
      let e : 0 + n ≡ n = omega arith in
      rw e at (Triple-shifted P n 0 body (λ j a b. h j (omega arith)))
