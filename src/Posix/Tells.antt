-- ===== src/Posix/Tells.antt =====
-- What the calls of an action add up to, item by item: each call stands for a list of items.
use sctp_tests.Prelude.{
  ℕ, zero, suc, ◌+◌, ◌≡◌, refl, ap, String, Bool, true, false, List, [], ◌∷◌, ◌++◌, is_zero,
  is_minus_one, if◌then◌else◌,
}
use sctp_tests.Posix.Calls.{Call, Kernel}
use sctp_tests.Posix.Exec.{M, call, pure, exit, for_range, ◌>>=◌}
use sctp_tests.Posix.Checked.{emit, die, must, must_send}
use sctp_tests.Posix.Rules.{IsReported}
use sctp_tests.Posix.Triple.{Ends, Never, Triple, Triple-then, Keeps-pure}

-- The items of a list of calls, the newest first as these are.
abbrev pub collect : {E : Type 0} → (Call → List E) → List Call → List E
collect noted [] = []
collect noted (c ∷ log) = noted c ++ collect noted log

module _ {E : Type 0} where
  pub append_assoc : (xs ys zs : List E) → (xs ++ ys) ++ zs ≡ xs ++ (ys ++ zs)
  append_assoc [] ys zs = refl
  append_assoc (x ∷ xs) ys zs = ap (λ l. x ∷ l) (append_assoc xs ys zs)

  pub append_nil : (xs : List E) → xs ++ [] ≡ xs
  append_nil [] = refl
  append_nil (x ∷ xs) = ap (λ l. x ∷ l) (append_nil xs)

  -- The items of a loop, the last round's first.
  abbrev pub gathered : ℕ → ℕ → (ℕ → List E) → List E
  gathered zero i f = []
  gathered (suc n) i f = gathered n (i + 1) f ++ f i

module _ {E : Type 0} (noted : Call → List E) {S : Type 0} (k : Kernel) (I : S → Type 0) where
  abbrev pub Told : List E → S → List Call → Type 0
  Told es s log = (collect noted log ≡ es) × I s

  -- The action returns and adds these items, or exits with a report; it keeps `I`.
  abbrev pub Tells : {A : Type 0} → List E → M S A → Type 0
  Tells new m = (es : List E) → Triple k (Told es) (λ _. Told (new ++ es)) IsReported Never m

  pub Tells-then :
      {A B : Type 0} (a b : List E) (m : M S A) (f : A → M S B)
      → Tells a m
      → ((x : A) → Tells b (f x))
      → Tells (b ++ a) (m >>= f)
  Tells-then a b m f hm hf es =
      rw (append_assoc b a es) (Triple-then m f (hm es) (λ x. hf x (a ++ es)))

  pub Tells-for :
      (n i : ℕ) (f : ℕ → List E) (body : ℕ → M S (Unit {0}))
      → ((j : ℕ) → Tells (f j) (body j))
      → Tells (gathered n i f) (for_range n i body)
  unfolding for_range
  Tells-for zero i f body h es = Keeps-pure tt
  Tells-for (suc n) i f body h es =
      Tells-then (f i) (gathered n (i + 1) f) (body i) _ (h i) (λ _. Tells-for n (i + 1) f body h)
        es

  pub Tells-emit : (c : Call) → Tells (noted c) (emit c)
  unfolding emit call pure ◌>>=◌
  Tells-emit c es = record { at = λ s log (p, q). (ap (λ l. noted c ++ l) p, q) }

  pub Tells-must : (c : Call) (what : String) → Tells (noted c) (must c what)
  unfolding must die emit call pure exit ◌>>=◌
  Tells-must c what es = record { at = λ s log h. by_result (is_zero (k.result log c)) s log h }
    where
      by_result :
          (b : Bool) (s : S) (log : List Call)
          → Told es s log
          → Ends
              (λ _. Told (noted c ++ es))
              IsReported
              Never
              ((if b then pure tt else die what) k s (c ∷ log))
      by_result true s log (p, q) = (ap (λ l. noted c ++ l) p, q)
      by_result false s log h = refl

  pub Tells-must_send : (c : Call) (what : String) → Tells (noted c) (must_send c what)
  unfolding must_send die emit call pure exit ◌>>=◌
  Tells-must_send c what es = record {
    at = λ s log h. by_result (is_minus_one (k.result log c)) s log h;
  }
    where
      by_result :
          (b : Bool) (s : S) (log : List Call)
          → Told es s log
          → Ends
              (λ _. Told (noted c ++ es))
              IsReported
              Never
              ((if b then die what else pure tt) k s (c ∷ log))
      by_result true s log h = refl
      by_result false s log (p, q) = (ap (λ l. noted c ++ l) p, q)
