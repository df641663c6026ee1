-- ===== src/Harness/Dropping.antt =====
-- The shared functions do not touch the rules of iptables.
use sctp_tests.Prelude.{◌≡◌, ◌∙◌, refl, ℤ, Bool, List, ◌∷◌}
use sctp_tests.Posix.{Call, Kernel, system}
use sctp_tests.Posix.Dropping.{dropping, AnyExit, While}
use sctp_tests.Harness.Stable.{Stable, IsHarmless}

pub harmless : (c : Call) (log : List Call) → IsHarmless c → dropping (c ∷ log) ≡ dropping log
harmless (system rule) log h = elim h [ ]
harmless _ log h = refl

-- What is known of the state may concern the case's number.
pub Stable-While :
    (k : Kernel) (I : ℤ → Type 0) (F : List Call → Type 0) (b : Bool)
    → Stable (While k (λ s. I s.case_no) F b) AnyExit
Stable-While k I F b = record {
  adds = λ c h. record { at = λ s log (p, q). (harmless c log h ∙ p, q) };
  dies = λ what. record { at = λ s log p. tt };
  fd = λ fd s log p. p;
  asoc_id = λ id s log p. p;
  sri_stream = λ sid s log p. p;
}
