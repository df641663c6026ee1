-- ===== src/Strreset/Exits.antt =====
-- How the client of strreset.c ends.
use sctp_tests.Prelude.{ℕ, ◌<◌, ◌≤◌, ◌≡◌, String, ℤ, pos, negsuc, List, length, take, All, arith}
use sctp_tests.Posix.{Call, Kernel, M, pure, index, or_fault, ◌>>=◌}
use sctp_tests.Posix.Rules.{IsReported, call_rules}
use sctp_tests.Posix.Triple.{Ends, Never, Ends-map, Keeps, Triple, Triple-then, Keeps-bind}
use sctp_tests.Harness
use sctp_tests.Harness.{Context, enable_asoc_strreset, enable_peer_strreset}
use sctp_tests.Harness.Stable.{enable_asoc_strreset-Keeps, enable_peer_strreset-Keeps}
use sctp_tests.Harness.Exits.{
  IsBelow, Stable-InTable, Adds-any, Dies-InTable, connection-InTable, closing-InTable, success,
  begins, waits, entry,
}
use sctp_tests.Strreset.Cases.{SetupReset, setup_pr, ResetCase, sn_cases, case_at, current_case}
use sctp_tests.Strreset.Traffic.{run_setup_pr, do_setup_pr, run_test_pr}
use sctp_tests.Strreset.Program.{do_client}
use sctp_tests.Strreset.Stable.{IsTest, run_test_pr-Keeps}

-- how many entries of the table are listed
abbrev pub listed : ℕ
listed = 7

abbrev InTable : Context → List Call → Type 0
InTable = Harness.Exits.InTable listed

abbrev IsSetup : SetupReset → Type 0
IsSetup SetupReset.null = ⊥
IsSetup setup_pr = Unit

-- An entry whose pointers the client may call.
abbrev IsListed : ResetCase → Type 0
IsListed c = IsSetup c.do_setup_pr × IsTest c.do_test_pr

first_entries : All IsListed (take listed sn_cases)
unfolding sn_cases
first_entries = assumption tt

listed_le : listed ≤ length sn_cases
unfolding sn_cases
listed_le = omega arith

module _ (k : Kernel) where
  case_at-IsListed :
      (n : ℤ)
      → IsBelow listed n
      → Triple k InTable (λ c s log. InTable s log × IsListed c) IsReported Never (case_at n)
  unfolding case_at index or_fault pure
  case_at-IsListed (pos i) h =
      let (c, e, p) = entry IsListed listed sn_cases i first_entries h listed_le in
      record { at = λ s log q. rw e (q, p) }
  case_at-IsListed (negsuc i) h = absurd h

  current_case-IsListed :
      Triple k InTable (λ c s log. InTable s log × IsListed c) IsReported Never current_case
  unfolding current_case ◌>>=◌
  current_case-IsListed = record { at = λ s log p. (case_at-IsListed s.case_no p).at s log p }

  current_case-InTable : Keeps k InTable IsReported Never current_case
  current_case-InTable = record {
    at = λ s log p.
        Ends-map (λ c s log. InTable s log × IsListed c) (λ _. InTable) IsReported Never
          (current_case k s log) (current_case-IsListed.at s log p) (λ c s' log' q. q.0);
  }

  setup_lem :
      (c : ResetCase) → IsListed c → Keeps k InTable IsReported Never (run_setup_pr c.do_setup_pr)
  unfolding run_setup_pr do_setup_pr
  setup_lem c h = by_pointer c.do_setup_pr h.0
    where
      by_pointer : (f : SetupReset) → IsSetup f → Keeps k InTable IsReported Never (run_setup_pr f)
      by_pointer SetupReset.null h = elim h [ ]
      by_pointer setup_pr h = search call_rules

  test_lem :
      (c : ResetCase) → IsListed c → Keeps k InTable IsReported Never (run_test_pr c.do_test_pr)
  test_lem c h =
      run_test_pr-Keeps InTable IsReported Never k (Stable-InTable listed) current_case-InTable
        (λ rule. Adds-any listed _) c.do_test_pr h.1

  reset : (allowed : ℕ) → Keeps k InTable IsReported Never (enable_asoc_strreset allowed)
  reset = enable_asoc_strreset-Keeps InTable IsReported Never k (Stable-InTable listed)

  peer_reset : (expected : ℕ) → Keeps k InTable IsReported Never (enable_peer_strreset expected)
  peer_reset = enable_peer_strreset-Keeps InTable IsReported Never k (Stable-InTable listed)

  -- what is known of the entry serves the action that is given it
  then_listed :
      {A : Type 0} (Q : A → Context → List Call → Type 0) (f : ResetCase → M Context A)
      → ((c : ResetCase) → IsListed c → Triple k InTable Q IsReported Never (f c))
      → Triple k InTable Q IsReported Never (current_case >>= f)
  then_listed Q f h =
      Triple-then current_case f current_case-IsListed
        (λ c. record { at = λ s log (p, q). (h c q).at s log p })

  do_client-Triple :
      (ip port : String) (i : ℕ)
      → i < listed
      → Triple k
          (λ _ _. Unit)
          (λ status _ _. status ≡ pos 0)
          IsReported
          Never
          (do_client ip port (pos i))
  unfolding do_client
  do_client-Triple ip port i h = Keeps-bind _ _ (waits k) λ _.
      Triple-then _ _ (begins listed k i h) λ _.
        Keeps-bind _ _ (connection-InTable listed k ip port) λ _. then_listed _ _ λ c p.
          Keeps-bind _ _ (setup_lem c p) λ _. Keeps-bind _ _ (reset _) λ _.
            Keeps-bind _ _ (peer_reset _) λ _. then_listed _ _ λ d q.
              Keeps-bind _ _ (test_lem d q)
                λ _. search (call_rules, closing-InTable listed k, success listed k) depth 10

  -- Whatever the kernel answers, the client of any of the 7 listed cases returns 0, or exits with
  -- status -1 right after it has printed which call failed; it reads no array out of bounds and calls
  -- no null pointer.
  pub reset_client-Ends :
      (ip port : String) (i : ℕ) (s : Context) (log : List Call)
      → i < listed
      → Ends (λ status _ _. status ≡ pos 0) IsReported Never (do_client ip port (pos i) k s log)
  reset_client-Ends ip port i s log h = (do_client-Triple ip port i h).at s log tt
