-- ===== src/Posix/Triple.antt =====
-- What holds before and after an action, however it ends, with one rule for each way to build one.
use sctp_tests.Prelude.{ℕ, zero, suc, ◌+◌, ℤ, Bool, true, false, List, if◌then◌else◌}
use sctp_tests.Posix.Calls.{Call, Kernel}
use sctp_tests.Posix.Exec.{
  Outcome, returned, exited, faulted, running, M, pure, gets, ask, continue, ◌>>=◌, for_range,
}

-- `Q` of the result, the state and the calls on return, `E` on exit, `F` on undefined behaviour and
-- when the fuel is used up.
abbrev pub Ends :
    {S A : Type 0}
    → (A → S → List Call → Type 0)
    → (ℤ → List Call → Type 0)
    → (List Call → Type 0)
    → Outcome S A
    → Type 0
Ends Q E F (returned a s log) = Q a s log
Ends Q E F (exited c log) = E c log
Ends Q E F (faulted log) = F log
Ends Q E F (running log) = F log

-- For an end that is not to be.
abbrev pub Never : {A : Type 0} → A → Type 0
Never _ = ⊥

-- What a return implies may be replaced by a consequence.
pub Ends-map :
    {S A : Type 0} (R Q : A → S → List Call → Type 0) (E : ℤ → List Call → Type 0)
    (F : List Call → Type 0) (o : Outcome S A)
    → Ends R E F o
    → ((a : A) (s : S) (log : List Call) → R a s log → Q a s log)
    → Ends Q E F o
Ends-map R Q E F (returned a s log) h f = f a s log h
Ends-map R Q E F (exited c log) h f = h
Ends-map R Q E F (faulted log) h f = h
Ends-map R Q E F (running log) h f = h

-- What is known of the calls, however an action ends, may be replaced by a consequence.
pub weaken :
    {S A : Type 0} (P Q : List Call → Type 0) (o : Outcome S A)
    → ((log : List Call) → P log → Q log)
    → Ends (λ _ _ log. P log) (λ _ log. P log) P o
    → Ends (λ _ _ log. Q log) (λ _ log. Q log) Q o
weaken P Q (returned a s log) f h = f log h
weaken P Q (exited c log) f h = f log h
weaken P Q (faulted log) f h = f log h
weaken P Q (running log) f h = f log h

-- What always returns may be said to exit, or to be faulty, in any way.
pub Ends-Never :
    {S A : Type 0} (Q : A → S → List Call → Type 0) (E : ℤ → List Call → Type 0)
    (F : List Call → Type 0) (o : Outcome S A)
    → Ends Q (λ _. Never) Never o
    → Ends Q E F o
Ends-Never Q E F (returned a s log) h = h
Ends-Never Q E F (exited c log) h = elim h [ ]
Ends-Never Q E F (faulted log) h = elim h [ ]
Ends-Never Q E F (running log) h = elim h [ ]

-- `Q` may speak of the result.
pub record Triple {S A : Type 0} (k : Kernel) (P : S → List Call → Type 0)
    (Q : A → S → List Call → Type 0) (E : ℤ → List Call → Type 0) (F : List Call → Type 0)
    (m : M S A) : Type 0 where
  pub at : (s : S) (log : List Call) → P s log → Ends Q E F (m k s log)

pub Triple-map :
    {S A : Type 0} {k : Kernel} {P : S → List Call → Type 0} {R Q : A → S → List Call → Type 0}
    {E : ℤ → List Call → Type 0} {F : List Call → Type 0} (m : M S A)
    → Triple k P R E F m
    → ((a : A) (s : S) (log : List Call) → R a s log → Q a s log)
    → Triple k P Q E F m
Triple-map {k = k} {R = R} {Q = Q} {E = E} {F = F} m h f = record {
  at = λ s log p. Ends-map R Q E F (m k s log) (h.at s log p) f;
}

-- An action that never is faulty may be said to be so in any way.
pub Triple-Never :
    {S A : Type 0} {k : Kernel} {P : S → List Call → Type 0} {Q : A → S → List Call → Type 0}
    {E : ℤ → List Call → Type 0} (F : List Call → Type 0) (m : M S A)
    → Triple k P Q E Never m
    → Triple k P Q E F m
Triple-Never {S} {A} {k = k} {Q = Q} {E = E} F m h = record {
  at = λ s log p. unfaulted (m k s log) (h.at s log p);
}
  where
    unfaulted : (o : Outcome S A) → Ends Q E Never o → Ends Q E F o
    unfaulted (returned a s log) h = h
    unfaulted (exited c log) h = h
    unfaulted (faulted log) h = elim h [ ]
    unfaulted (running log) h = elim h [ ]

-- `P` is an invariant.
abbrev pub Keeps :
    {S A : Type 0}
    → Kernel
    → (S → List Call → Type 0)
    → (ℤ → List Call → Type 0)
    → (List Call → Type 0)
    → M S A
    → Type 0
Keeps k P E F m = Triple k P (λ _. P) E F m

module _ {S A : Type 0} {k : Kernel} {P : S → List Call → Type 0} {E : ℤ → List Call → Type 0}
    {F : List Call → Type 0} where
  pub Keeps-pure : (a : A) → Keeps k P E F (pure a)
  unfolding pure
  Keeps-pure a = record { at = λ s log h. h }

  pub Keeps-gets : (f : S → A) → Keeps k P E F (gets f)
  unfolding gets
  Keeps-gets f = record { at = λ s log h. h }

  pub Keeps-ask : (f : Kernel → List Call → A) → Keeps k P E F (ask f)
  unfolding ask
  Keeps-ask f = record { at = λ s log h. h }

  pub Triple-if :
      {Q : A → S → List Call → Type 0} (b : Bool) (m n : M S A)
      → Triple k P Q E F m
      → Triple k P Q E F n
      → Triple k P Q E F (if b then m else n)
  Triple-if true m n hm hn = hm
  Triple-if false m n hm hn = hn

  pub Triple-elim :
      {Q : A → S → List Call → Type 0} (b : Bool) (m n : M S A)
      → Triple k P Q E F m
      → Triple k P Q E F n
      → Triple k P Q E F (elim b [ true ↦ m | false ↦ n ])
  Triple-elim true m n hm hn = hm
  Triple-elim false m n hm hn = hn

module _ {S A B : Type 0} {k : Kernel} {E : ℤ → List Call → Type 0} {F : List Call → Type 0} where
  pub continue-Ends :
      {R : A → S → List Call → Type 0} {Q : B → S → List Call → Type 0} (o : Outcome S A)
      (f : A → M S B)
      → Ends R E F o
      → ((a : A) → Triple k (R a) Q E F (f a))
      → Ends Q E F (continue o f k)
  continue-Ends (returned a s log) f h hf = (hf a).at s log h
  continue-Ends (exited c log) f h hf = h
  continue-Ends (faulted log) f h hf = h
  continue-Ends (running log) f h hf = h

  -- one action after another, through what holds in between
  pub Triple-then :
      {P : S → List Call → Type 0} {R : A → S → List Call → Type 0} {Q : B → S → List Call → Type 0}
      (m : M S A) (f : A → M S B)
      → Triple k P R E F m
      → ((a : A) → Triple k (R a) Q E F (f a))
      → Triple k P Q E F (m >>= f)
  unfolding ◌>>=◌
  Triple-then m f hm hf = record { at = λ s log h. continue-Ends (m k s log) f (hm.at s log h) hf }

  -- the same, where the first action keeps an invariant
  pub Keeps-bind :
      {P : S → List Call → Type 0} {Q : B → S → List Call → Type 0} (m : M S A) (f : A → M S B)
      → Keeps k P E F m
      → ((a : A) → Triple k P Q E F (f a))
      → Triple k P Q E F (m >>= f)
  Keeps-bind = Triple-then

module _ {S : Type 0} {k : Kernel} {P : S → List Call → Type 0} {E : ℤ → List Call → Type 0}
    {F : List Call → Type 0} where
  pub Keeps-for :
      (n i : ℕ) (body : ℕ → M S (Unit {0}))
      → ((j : ℕ) → Keeps k P E F (body j))
      → Keeps k P E F (for_range n i body)
  unfolding for_range
  Keeps-for zero i body h = Keeps-pure tt
  Keeps-for (suc n) i body h =
      Keeps-bind (body i) (λ _. for_range n (i + 1) body) (h i) (λ _. Keeps-for n (i + 1) body h)

pub ruleset keeps_rules =
    (Keeps-pure, Keeps-gets, Keeps-ask, Triple-if, Triple-elim, Keeps-bind, Keeps-for)
