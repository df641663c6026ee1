-- ===== src/Harness/Exits.antt =====
-- How a client ends that is given a case of its table, whatever the kernel answers: the part that the
-- programs share.
use sctp_tests.Prelude.{
  ℕ, zero, suc, ◌<◌, ◌≤◌, ◌≡◌, refl, String, ℤ, pos, negsuc, some, List, [], ◌∷◌, length, take, All,
  get_elem?, arith,
}
use sctp_tests.Posix.{Call, Kernel, sleep, call, emit, modify, pure, ◌>>=◌}
use sctp_tests.Posix.Rules.{IsReported, Adds, Dies}
use sctp_tests.Posix.Triple.{Never, Keeps, Triple}
use sctp_tests.Harness.State.{Context, zeroed}
use sctp_tests.Harness.Socket.{create_asoc_sk}
use sctp_tests.Harness.Command.{close_asoc_sk}
use sctp_tests.Harness.Stable.{Stable, create_asoc_sk-Keeps, close_asoc_sk-Keeps}

-- An index of one of the first `n` entries.
abbrev pub IsBelow : ℕ → ℤ → Type 0
IsBelow n (pos i) = i < n
IsBelow n (negsuc i) = ⊥

abbrev pub InTable : ℕ → Context → List Call → Type 0
InTable n s log = IsBelow n s.case_no

module _ (n : ℕ) where
  pub Stable-InTable : Stable (InTable n) IsReported
  Stable-InTable = record {
    adds = λ c h. record { at = λ s log p. p };
    dies = λ what. record { at = λ s log p. refl };
    fd = λ fd s log p. p;
    asoc_id = λ id s log p. p;
    sri_stream = λ sid s log p. p;
  }

  -- calls of system() are no harm to this invariant
  pub Adds-any : (c : Call) → Adds (InTable n) c
  Adds-any c = record { at = λ s log p. p }

  pub Dies-InTable : (what : String) → Dies (InTable n) IsReported what
  Dies-InTable what = record { at = λ s log p. refl }

  module _ (k : Kernel) where
    pub connection-InTable :
        (ip port : String) → Keeps k (InTable n) IsReported Never (create_asoc_sk ip port)
    connection-InTable = create_asoc_sk-Keeps (InTable n) IsReported Never k Stable-InTable

    pub closing-InTable :
        (expected : ℕ) → Keeps k (InTable n) IsReported Never (close_asoc_sk expected)
    closing-InTable = close_asoc_sk-Keeps (InTable n) IsReported Never k Stable-InTable

    pub success :
        Triple k (InTable n) (λ status _ _. status ≡ pos 0) IsReported Never (pure (pos 0))
    unfolding pure
    success = record { at = λ s log p. refl }

    pub begins :
        (i : ℕ)
        → i < n
        → Triple {S = Context} k
            (λ _ _. Unit)
            (λ _. InTable n)
            IsReported
            Never
            (modify (λ _. record zeroed { case_no = pos i }))
    unfolding modify
    begins i h = record { at = λ s log p. h }

pub waits : (k : Kernel) → Keeps {S = Context} k (λ _ _. Unit) IsReported Never (emit (sleep 3))
unfolding emit call pure ◌>>=◌
waits k = record { at = λ s log p. tt }

-- An entry in bounds, with what is known of all the first `n`.
pub entry {ℓ ℓ'} :
    {A : Type ℓ} (P : A → Type ℓ') (n : ℕ) (xs : List A) (i : ℕ)
    → All P (take n xs)
    → i < n
    → n ≤ length xs
    → (x : A) × (get_elem? xs i ≡ some x) × P x
entry P zero xs i h below within = absurd (omega arith)
entry P (suc n) [] i h below within = absurd (omega arith)
entry P (suc n) (x ∷ xs) zero h below within = (x, refl, h.0)
entry P (suc n) (x ∷ xs) (suc i) h below within = entry P n xs i h.1 (omega arith) (omega arith)
