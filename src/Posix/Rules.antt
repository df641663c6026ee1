-- ===== src/Posix/Rules.antt =====
-- Invariants of the actions that make calls.
use sctp_tests.Prelude.{ℕ, String, ℤ, minus_one, ◌≡◌, List, ◌∷◌}
use sctp_tests.Posix.Calls.{Call, Kernel, recvmsg, rand, time, perror}
use sctp_tests.Posix.Exec.{pure, exit, fault, call, call_value, recv, draw, now, ◌>>=◌}
use sctp_tests.Posix.Checked.{emit, die, must, must_send, fetch}
use sctp_tests.Posix.Triple.{Keeps, Keeps-pure, Keeps-bind, keeps_rules}

-- The program has exited with status -1, right after it printed which call failed.
abbrev pub IsReported : ℤ → List Call → Type 0
IsReported status (perror what ∷ log) = status ≡ minus_one
IsReported status _ = ⊥

-- The call `c` may be added to the calls made.
pub record Adds {S : Type 0} (P : S → List Call → Type 0) (c : Call) : Type 0 where
  pub at : (s : S) (log : List Call) → P s log → P s (c ∷ log)

-- `perror(what); exit(-1);` may follow.
pub record Dies {S : Type 0} (P : S → List Call → Type 0) (E : ℤ → List Call → Type 0)
    (what : String) : Type 0 where
  pub at : (s : S) (log : List Call) → P s log → E minus_one (perror what ∷ log)

module _ {S : Type 0} {k : Kernel} {P : S → List Call → Type 0} {E : ℤ → List Call → Type 0}
    {F : List Call → Type 0} where
  pub Keeps-call : (c : Call) → Adds P c → Keeps k P E F (call c)
  unfolding call
  Keeps-call c a = record { at = λ s log h. a.at s log h }

  pub Keeps-call_value : (c : Call) → Adds P c → Keeps k P E F (call_value c)
  unfolding call_value
  Keeps-call_value c a = record { at = λ s log h. a.at s log h }

  pub Keeps-recv : (fd : ℤ) (size : ℕ) → Adds P (recvmsg fd size) → Keeps k P E F (recv fd size)
  unfolding recv
  Keeps-recv fd size a = record { at = λ s log h. a.at s log h }

  pub Keeps-draw : Adds P rand → Keeps k P E F draw
  unfolding draw
  Keeps-draw a = record { at = λ s log h. a.at s log h }

  pub Keeps-now : Adds P time → Keeps k P E F now
  unfolding now
  Keeps-now a = record { at = λ s log h. a.at s log h }

  pub Keeps-emit : (c : Call) → Adds P c → Keeps k P E F (emit c)
  unfolding emit
  Keeps-emit c a = search (keeps_rules, Keeps-call)

module _ {S A : Type 0} {k : Kernel} {P : S → List Call → Type 0} {E : ℤ → List Call → Type 0}
    {F : List Call → Type 0} where
  pub Keeps-die : (what : String) → Dies P E what → Keeps {A = A} k P E F (die what)
  unfolding die emit call pure exit ◌>>=◌
  Keeps-die what d = record { at = λ s log h. d.at s log h }

module _ {S : Type 0} {k : Kernel} {P : S → List Call → Type 0} {E : ℤ → List Call → Type 0}
    {F : List Call → Type 0} where
  pub Keeps-must :
      (c : Call) (what : String) → Adds P c → Dies P E what → Keeps k P E F (must c what)
  unfolding must
  Keeps-must c what a d = search (keeps_rules, Keeps-call, Keeps-die)

  pub Keeps-must_send :
      (c : Call) (what : String) → Adds P c → Dies P E what → Keeps k P E F (must_send c what)
  unfolding must_send
  Keeps-must_send c what a d = search (keeps_rules, Keeps-call, Keeps-die)

  pub Keeps-fetch :
      (c : Call) (what : String) → Adds P c → Dies P E what → Keeps k P E F (fetch c what)
  unfolding fetch
  Keeps-fetch c what a d = search (keeps_rules, Keeps-call_value, Keeps-die)

-- An index out of bounds, where that is allowed.
module _ {S A : Type 0} {k : Kernel} {P : S → List Call → Type 0} {E : ℤ → List Call → Type 0} where
  pub Keeps-fault : Keeps {A = A} k P E (λ _. Unit) fault
  unfolding fault
  Keeps-fault = record { at = λ s log h. tt }

pub ruleset call_rules = (
  keeps_rules, Keeps-call, Keeps-call_value, Keeps-recv, Keeps-draw, Keeps-now, Keeps-emit,
  Keeps-die, Keeps-must, Keeps-must_send, Keeps-fetch,
)
