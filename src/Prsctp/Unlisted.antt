-- ===== src/Prsctp/Unlisted.antt =====
-- The client of sctp_pr.c with a case that its table does not list.
use sctp_tests.Prelude.{
  ◌≡◌, refl, sym, String, ℤ, pos, negsuc, Bool, List, drop, All, Option-cases, get_elem?, inl, inr,
}
use mathlib.Core.Path.{subst}
use sctp_tests.Posix.{Call, Kernel, M, index, or_fault, fault, pure, ◌>>=◌}
use sctp_tests.Posix.Rules.{IsReported}
use sctp_tests.Posix.Triple.{Ends, Triple, Triple-then, Keeps-bind}
use sctp_tests.Harness.{Context}
use sctp_tests.Harness.Unlisted.{
  IsOutside, AnyFault, NoReturn, Numbered, connection-Numbered, begins-Numbered, waits_first,
  entry_outside,
}
use sctp_tests.Prsctp.Cases.{SetupPr, PrCase, sn_cases, case_at, current_case}
use sctp_tests.Prsctp.Traffic.{run_setup_pr}
use sctp_tests.Prsctp.Program.{do_client}
use sctp_tests.Prsctp.Exits.{listed}

-- A case without a function to set it up.
abbrev IsEmpty : PrCase → Type 0
IsEmpty c = c.do_setup_pr ≡ SetupPr.null

last_entries : All IsEmpty (drop listed sn_cases)
unfolding sn_cases
last_entries = (refl, (refl, (refl, (refl, (refl, (refl, (refl, (refl, tt))))))))

module _ (k : Kernel) (number : ℤ) (outside : IsOutside listed number) where
  case_at-IsEmpty :
      (n : ℤ)
      → IsOutside listed n
      → Triple k (Numbered number) (λ c _ _. IsEmpty c) IsReported AnyFault (case_at n)
  unfolding case_at index or_fault pure fault
  case_at-IsEmpty (pos i) h = elim (Option-cases (get_elem? sn_cases i)) [
    | inl e ↦ rw e (record { at = λ s log p. tt })
    | inr (c, e) ↦
        rw e (record { at = λ s log p. entry_outside IsEmpty listed i sn_cases c last_entries h e })
  ]
  case_at-IsEmpty (negsuc i) h = record { at = λ s log p. tt }

  current_case-IsEmpty :
      Triple k (Numbered number) (λ c _ _. IsEmpty c) IsReported AnyFault current_case
  unfolding current_case ◌>>=◌
  current_case-IsEmpty = record {
    at = λ s log p.
        (case_at-IsEmpty s.case_no (subst (IsOutside listed) (sym p) outside)).at s log p;
  }

  setup_faults :
      {A : Type 0} (c : PrCase) (later : M Context A)
      → Triple k
          (λ _ _. IsEmpty c)
          NoReturn
          IsReported
          AnyFault
          (run_setup_pr c.do_setup_pr >>= λ _. later)
  unfolding run_setup_pr fault ◌>>=◌
  setup_faults c later = record { at = λ s log p. rw p tt }

  client_faults :
      (schedule : List Bool) (ip port : String)
      → Triple k (λ _ _. Unit {0}) NoReturn IsReported AnyFault (do_client schedule ip port number)
  unfolding do_client
  client_faults schedule ip port = Keeps-bind _ _ (waits_first number k) λ _.
      Triple-then _ _ (begins-Numbered number k) λ _.
        Keeps-bind _ _ (connection-Numbered number k ip port)
          λ _. Triple-then _ _ current_case-IsEmpty λ c. setup_faults c _

  -- Whatever the kernel answers, and in whatever order the threads of a test would run, the client never returns
  -- when its case is not one of the 11 listed: it exits with status -1 right after it has printed
  -- which call failed, or it runs into undefined behaviour.
  pub policy_client-NoReturn :
      (schedule : List Bool) (ip port : String) (s : Context) (log : List Call)
      → Ends NoReturn IsReported (λ _. Unit {0}) (do_client schedule ip port number k s log)
  policy_client-NoReturn schedule ip port s log = (client_faults schedule ip port).at s log tt
