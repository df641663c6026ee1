-- ===== src/Posix/Volume.antt =====
-- How much an action sends, if it returns: each message counts with a weight of its length.
use sctp_tests.Prelude.{
  ℕ, zero, suc, ◌+◌, ◌*◌, ◌≡◌, ◌∙◌, refl, String, ℤ, Bool, true, false, List, [], ◌∷◌, is_minus_one,
  arith, if◌then◌else◌,
}
use sctp_tests.Posix.Calls.{Call, Kernel, sendmsg}
use sctp_tests.Posix.Exec.{M, pure, exit, call, gets, ◌>>=◌, for_range}
use sctp_tests.Posix.Checked.{emit, die, must_send}
use sctp_tests.Posix.Rules.{IsReported, Adds}
use sctp_tests.Posix.Triple.{Ends, Never, Ends-map, Triple, Triple-then, Keeps}

-- The weight of the messages that the calls send.
abbrev pub volume : (ℕ → ℕ) → List Call → ℕ
volume w [] = 0
volume w (sendmsg fd len flags sid value ∷ log) = w len + volume w log
volume w (_ ∷ log) = volume w log

-- A call that sends no message.
abbrev pub IsSilent : Call → Type 0
IsSilent (sendmsg fd len flags sid value) = ⊥
IsSilent _ = Unit

silent : (w : ℕ → ℕ) (c : Call) (log : List Call) → IsSilent c → volume w (c ∷ log) ≡ volume w log
silent w (sendmsg fd len flags sid value) log h = elim h [ ]
silent w _ log h = refl

module _ {S : Type 0} (k : Kernel) (w : ℕ → ℕ) (I : S → Type 0) where
  -- `v` is sent, and `I` holds of the state.
  abbrev pub Sent : ℕ → S → List Call → Type 0
  Sent v s log = (volume w log ≡ v) × I s

  pub Adds-silent : (v : ℕ) (c : Call) → IsSilent c → Adds (Sent v) c
  Adds-silent v c h = record { at = λ s log (p, q). (silent w c log h ∙ p, q) }

  -- The action returns and has sent `n` more, or exits with a report; it keeps `I`.
  abbrev pub Sends : {A : Type 0} → ℕ → M S A → Type 0
  Sends n m = (v : ℕ) → Triple k (Sent v) (λ _. Sent (v + n)) IsReported Never m

  -- It sends nothing.
  abbrev pub SendsNone : {A : Type 0} → M S A → Type 0
  SendsNone m = (v : ℕ) → Keeps k (Sent v) IsReported Never m

  pub Sends-message :
      (fd : ℤ) (len flags sid value : ℕ) (what : String)
      → Sends (w len) (must_send (sendmsg fd len flags sid value) what)
  unfolding must_send die emit call pure exit ◌>>=◌
  Sends-message fd len flags sid value what v = record {
    at = λ s log h. sent (is_minus_one (k.result log (sendmsg fd len flags sid value))) s log h;
  }
    where
      sent :
          (b : Bool) (s : S) (log : List Call)
          → Sent v s log
          → Ends
              (λ _. Sent (v + w len))
              IsReported
              Never
              ((if b then die what else pure tt) k s (sendmsg fd len flags sid value ∷ log))
      sent true s log h = refl
      sent false s log (p, q) = (omega arith, q)

  pub Sends-then :
      {A B : Type 0} (a b : ℕ) (m : M S A) (f : A → M S B)
      → Sends a m
      → ((x : A) → Sends b (f x))
      → Sends (a + b) (m >>= f)
  Sends-then a b m f hm hf v =
      let e : v + a + b ≡ v + (a + b) = omega arith in
      rw (← e) (Triple-then m f (hm v) (λ x. hf x (v + a)))

  -- an action that sends nothing, before and after one that sends
  pub Sends-before :
      {A B : Type 0} (n : ℕ) (m : M S A) (f : A → M S B)
      → SendsNone m
      → ((x : A) → Sends n (f x))
      → Sends n (m >>= f)
  Sends-before n m f hm hf v = Triple-then m f (hm v) (λ x. hf x v)

  pub Sends-after :
      {A B : Type 0} (n : ℕ) (m : M S A) (f : A → M S B)
      → Sends n m
      → ((x : A) → SendsNone (f x))
      → Sends n (m >>= f)
  Sends-after n m f hm hf v = Triple-then m f (hm v) (λ x. hf x (v + n))

  pub Sends-for :
      (rounds i n : ℕ) (body : ℕ → M S (Unit {0}))
      → ((j : ℕ) → Sends n (body j))
      → Sends (rounds * n) (for_range rounds i body)
  unfolding for_range
  Sends-for zero i n body h v =
      let e : v + 0 * n ≡ v = omega arith in rw e (unfold pure in record { at = λ s log p. p })
  Sends-for (suc rounds) i n body h v =
      let e : n + rounds * n ≡ suc rounds * n = grind arith in
      rw (← e)
        (Sends-then n (rounds * n) (body i) _ (h i) (λ _. Sends-for rounds (i + 1) n body h) v)

  pub Sends-gets :
      {A B : Type 0} (n : ℕ) (f : S → A) (g : A → M S B)
      → ((a : A) → Sends n (g a))
      → Sends n (gets f >>= g)
  unfolding gets ◌>>=◌
  Sends-gets n f g h v = record { at = λ s log p. (h (f s) v).at s log p }

  -- what is sent from the start
  pub sent_from_start :
      {A : Type 0} (n : ℕ) (m : M S A) (s : S)
      → Sends n m
      → I s
      → Ends (λ _ _ log. volume w log ≡ n) IsReported Never (m k s [])
  sent_from_start n m s h start =
      Ends-map (λ _. Sent (0 + n)) (λ _ _ log. volume w log ≡ n) IsReported Never (m k s [])
        ((h 0).at s [] (refl, start)) (λ _ s' log (p, q). omega arith)
