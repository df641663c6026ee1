-- ===== src/Harness/Unlisted.antt =====
-- How a client ends that is given a case that its table does not list: the part that the programs share.
use sctp_tests.Prelude.{
  ℕ, zero, suc, ◌≤◌, ◌≡◌, refl, String, ℤ, pos, negsuc, some, List, [], ◌∷◌, drop, All, get_elem?,
  some, arith,
}
use mathlib.Core.Path.{subst}
use mathlib.Core.Option.{some-injective}
use sctp_tests.Posix.{Call, Kernel, sleep, call, emit, modify, pure, fault, ◌>>=◌}
use sctp_tests.Posix.Rules.{IsReported}
use sctp_tests.Posix.Triple.{Keeps, Triple}
use sctp_tests.Harness.State.{Context, zeroed}
use sctp_tests.Harness.Socket.{create_asoc_sk}
use sctp_tests.Harness.Stable.{Stable, create_asoc_sk-Keeps}

-- The number is that of none of the first `n` cases.
abbrev pub IsOutside : ℕ → ℤ → Type 0
IsOutside n (pos i) = n ≤ i
IsOutside n (negsuc i) = Unit

-- Any undefined behaviour.
abbrev pub AnyFault : List Call → Type 0
AnyFault log = Unit

-- A return that is not to be.
abbrev pub NoReturn : {A : Type 0} → A → Context → List Call → Type 0
NoReturn _ _ _ = ⊥

module _ (number : ℤ) where
  -- The number is kept.
  abbrev pub Numbered : Context → List Call → Type 0
  Numbered s log = s.case_no ≡ number

  pub Stable-Numbered : Stable Numbered IsReported
  Stable-Numbered = record {
    adds = λ c h. record { at = λ s log p. p };
    dies = λ what. record { at = λ s log p. refl };
    fd = λ fd s log p. p;
    asoc_id = λ id s log p. p;
    sri_stream = λ sid s log p. p;
  }

  module _ (k : Kernel) where
    pub connection-Numbered :
        (ip port : String) → Keeps k Numbered IsReported AnyFault (create_asoc_sk ip port)
    connection-Numbered = create_asoc_sk-Keeps Numbered IsReported AnyFault k Stable-Numbered

    pub begins-Numbered :
        Triple {S = Context} k
          (λ _ _. Unit {0})
          (λ _. Numbered)
          IsReported
          AnyFault
          (modify (λ _. record zeroed { case_no = number }))
    unfolding modify
    begins-Numbered = record { at = λ s log h. refl }

    pub waits_first : Keeps {S = Context} k (λ _ _. Unit {0}) IsReported AnyFault (emit (sleep 3))
    unfolding emit call pure ◌>>=◌
    waits_first = record { at = λ s log p. tt }

    pub faults :
        {A : Type 0} (P : Context → List Call → Type 0)
        → Triple {A = A} k P NoReturn IsReported AnyFault fault
    unfolding fault
    faults P = record { at = λ s log p. tt }

-- What is known of the entries from the n-th on, of one that is in the table.
pub entry_outside {ℓ ℓ'} :
    {A : Type ℓ} (P : A → Type ℓ') (n i : ℕ) (xs : List A) (x : A)
    → All P (drop n xs)
    → n ≤ i
    → get_elem? xs i ≡ some x
    → P x
entry_outside P zero zero (y ∷ ys) x h l e = subst P (some-injective y x e) h.0
entry_outside P zero (suc i) (y ∷ ys) x h l e = entry_outside P zero i ys x h.1 (omega arith) e
entry_outside P (suc n) zero (y ∷ ys) x h l e = absurd (omega arith)
entry_outside P (suc n) (suc i) (y ∷ ys) x h l e = entry_outside P n i ys x h (omega arith) e
entry_outside P n i [] x h l e = cc
