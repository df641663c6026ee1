-- ===== src/Posix/Dropping.antt =====
-- Whether packets are dropped by a rule that the program has handed to iptables.
use sctp_tests.Prelude.{pos, is_zero, if◌then◌else◌, ◌≡◌, refl, ℤ, Bool, true, false, List, [], ◌∷◌}
use sctp_tests.Posix.Calls.{
  Call, Kernel, Firewall, drop_input, drop_output, drop_output_data, flush, system,
}
use sctp_tests.Posix.Exec.{call, pure, ◌>>=◌}
use sctp_tests.Posix.Checked.{emit}
use sctp_tests.Posix.Triple.{Triple}

abbrev pub drops : Firewall → Bool
drops flush = false
drops drop_input = true
drops drop_output = true
drops drop_output_data = true

-- The last rule that the program has handed over decides; `flush` removes all rules.
abbrev pub dropping : List Call → Bool
dropping [] = false
dropping (system rule ∷ log) = drops rule
dropping (_ ∷ log) = dropping log

-- The same, by what iptables has answered: a rule takes effect if system() returned 0.
abbrev pub blocked : Kernel → List Call → Bool
blocked k [] = false
blocked k (system rule ∷ log) =
    let before = blocked k log in
    if is_zero (k.result log (system rule)) then drops rule else before
blocked k (_ ∷ log) = blocked k log

-- iptables does not fail.
abbrev pub Obeys : Kernel → Type 0
Obeys k = (log : List Call) (rule : Firewall) → k.result log (system rule) ≡ pos 0

pub blocked-dropping : (k : Kernel) → Obeys k → (log : List Call) → blocked k log ≡ dropping log
blocked-dropping k obeys [] = refl
blocked-dropping k obeys (system rule ∷ log) = rw (obeys log rule) refl
blocked-dropping k obeys (_ ∷ log) = blocked-dropping k obeys log

-- Any way to exit, or to run into undefined behaviour.
abbrev pub AnyExit : ℤ → List Call → Type 0
AnyExit _ _ = Unit

module _ {S : Type 0} (k : Kernel) (I : S → Type 0) (F : List Call → Type 0) where
  -- `I` holds of the state, and packets are dropped or not.
  abbrev pub While : Bool → S → List Call → Type 0
  While b s log = (dropping log ≡ b) × I s

  pub rule_While :
      (b : Bool) (rule : Firewall)
      → Triple k (While b) (λ _. While (drops rule)) AnyExit F (emit (system rule))
  unfolding emit call pure ◌>>=◌
  rule_While b rule = record { at = λ s log h. (refl, h.1) }
