-- ===== src/Posix/Exec.antt =====
-- Actions of a C program over a state: they return, exit with a status, or run into behaviour
-- that the language leaves undefined. The calls made so far stay visible in every case.
use sctp_tests.Prelude.{ℕ, zero, suc, ◌+◌, ℤ, List, ◌∷◌}
use sctp_tests.Posix.Calls.{Call, Kernel, Received, recvmsg, rand, time}

pub data Outcome (S A : Type 0) : Type 0 where
  returned : A → S → List Call → Outcome S A
  exited : ℤ → List Call → Outcome S A
  -- an array index out of bounds, or a call through a null pointer
  faulted : List Call → Outcome S A
  -- a loop that has used up its fuel
  running : List Call → Outcome S A

abbrev pub trace_of : {S A : Type 0} → Outcome S A → List Call
trace_of (returned a s log) = log
trace_of (exited c log) = log
trace_of (faulted log) = log
trace_of (running log) = log

-- An action reads the kernel and passes on the state and the calls made so far, the newest first.
abbrev pub M : Type 0 → Type 0 → Type 0
M S A = Kernel → S → List Call → Outcome S A

module _ {S : Type 0} where
  unfoldable pub call : Call → M S ℤ
  call c k s log = returned (k.result log c) s (c ∷ log)

  -- a call with the number that it leaves in its argument
  unfoldable pub call_value : Call → M S (ℤ × ℕ)
  call_value c k s log = returned (k.result log c, k.value log c) s (c ∷ log)

  unfoldable pub recv : ℤ → ℕ → M S Received
  recv fd size k s log = returned (k.received log) s (recvmsg fd size ∷ log)

  unfoldable pub draw : M S ℕ
  draw k s log = returned (k.random log) s (rand ∷ log)

  unfoldable pub now : M S ℕ
  now k s log = returned (k.clock log) s (time ∷ log)

  unfoldable pub modify : (S → S) → M S (Unit {0})
  modify f k s log = returned tt (f s) log

module _ {S A : Type 0} where
  -- what the kernel has left in a variable
  unfoldable pub ask : (Kernel → List Call → A) → M S A
  ask f k s log = returned (f k log) s log

  unfoldable pub pure : A → M S A
  pure a k s log = returned a s log

  unfoldable pub exit : ℤ → M S A
  exit c k s log = exited c log

  unfoldable pub fault : M S A
  fault k s log = faulted log

  unfoldable pub out_of_fuel : M S A
  out_of_fuel k s log = running log

  unfoldable pub gets : (S → A) → M S A
  gets f k s log = returned (f s) s log

module _ {S A B : Type 0} where
  abbrev pub continue : Outcome S A → (A → M S B) → Kernel → Outcome S B
  continue (returned a s log) f k = f a k s log
  continue (exited c log) f k = exited c log
  continue (faulted log) f k = faulted log
  continue (running log) f k = running log

  infixl 5 ◌>>=◌ ◌>>◌
  -- opening this opens the actions above too
  unfoldable pub ◌>>=◌ : M S A → (A → M S B) → M S B
  unfolding call call_value recv draw now modify ask pure exit fault out_of_fuel gets
  ◌>>=◌ m f k s log = continue (m k s log) f k

  abbrev pub ◌>>◌ : M S A → M S B → M S B
  m >> n = m >>= λ _. n

-- for (i = start; i < start + rounds; i++) body
unfoldable pub for_range : {S : Type 0} → ℕ → ℕ → (ℕ → M S (Unit {0})) → M S (Unit {0})
for_range zero i body = pure tt
for_range (suc n) i body = body i >>= λ _. for_range n (i + 1) body
