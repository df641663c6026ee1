-- ===== src/Prsctp/Exits.antt =====
-- How the client of sctp_pr.c ends.
use sctp_tests.Prelude.{
  ℕ, ◌<◌, ◌≤◌, ◌≡◌, refl, String, ℤ, pos, negsuc, Bool, List, length, take, All, arith,
}
use sctp_tests.Posix.{Call, Kernel, M, pure, emit, sleep, modify, index, or_fault, ◌>>=◌}
use sctp_tests.Posix.Rules.{IsReported, call_rules}
use sctp_tests.Posix.Triple.{Ends, Ends-map, Triple-Never, Keeps, Triple, Triple-then, Keeps-bind}
use sctp_tests.Posix.Started.{Unstarted, remains}
use sctp_tests.Harness
use sctp_tests.Harness.{Context, create_asoc_sk, close_asoc_sk}
use sctp_tests.Harness.Stable.{Stable}
use sctp_tests.Harness.Exits.{
  IsBelow, Stable-InTable, Adds-any, Dies-InTable, connection-InTable, closing-InTable, success,
  begins, waits, entry,
}
use sctp_tests.Prsctp.Cases.{SetupPr, setup_pr, PrCase, sn_cases, case_at, current_case}
use sctp_tests.Prsctp.Traffic.{run_setup_pr, do_setup_pr, run_test_pr}
use sctp_tests.Prsctp.Program.{enable_asoc_prsctp_support, do_client}
use sctp_tests.Prsctp.Stable.{IsTest, run_test_pr-Keeps}

-- how many entries of the table are listed
abbrev pub listed : ℕ
listed = 11

abbrev InTable : Context → List Call → Type 0
InTable = Harness.Exits.InTable listed

abbrev IsSetup : SetupPr → Type 0
IsSetup SetupPr.null = ⊥
IsSetup setup_pr = Unit

-- An entry whose pointers the client may call.
abbrev IsListed : PrCase → Type 0
IsListed c = IsSetup c.do_setup_pr × IsTest c.do_test_pr

first_entries : All IsListed (take listed sn_cases)
unfolding sn_cases
first_entries = assumption tt

listed_le : listed ≤ length sn_cases
unfolding sn_cases
listed_le = omega arith

module _ (k : Kernel) where
  case_at-IsListed :
      (n : ℤ)
      → IsBelow listed n
      → Triple k InTable
          (λ c s log. InTable s log × IsListed c)
          IsReported
          (Unstarted k)
          (case_at n)
  unfolding case_at index or_fault pure
  case_at-IsListed (pos i) h =
      let (c, e, p) = entry IsListed listed sn_cases i first_entries h listed_le in
      record { at = λ s log q. rw e (q, p) }
  case_at-IsListed (negsuc i) h = absurd h

  current_case-IsListed :
      Triple k InTable (λ c s log. InTable s log × IsListed c) IsReported (Unstarted k) current_case
  unfolding current_case ◌>>=◌
  current_case-IsListed = record { at = λ s log p. (case_at-IsListed s.case_no p).at s log p }

  current_case-InTable : Keeps k InTable IsReported (Unstarted k) current_case
  current_case-InTable = record {
    at = λ s log p.
        Ends-map (λ c s log. InTable s log × IsListed c) (λ _. InTable) IsReported (Unstarted k)
          (current_case k s log) (current_case-IsListed.at s log p) (λ c s' log' q. q.0);
  }

  setup_lem :
      (c : PrCase)
      → IsListed c
      → Keeps k InTable IsReported (Unstarted k) (run_setup_pr c.do_setup_pr)
  unfolding run_setup_pr do_setup_pr
  setup_lem c h = by_pointer c.do_setup_pr h.0
    where
      by_pointer :
          (f : SetupPr) → IsSetup f → Keeps k InTable IsReported (Unstarted k) (run_setup_pr f)
      by_pointer SetupPr.null h = elim h [ ]
      by_pointer setup_pr h = search call_rules

  Unstarted-Stable : Stable (λ _. Unstarted k) IsReported
  Unstarted-Stable = record {
    adds = λ c h. record { at = λ s log p. remains k c log p };
    dies = λ what. record { at = λ s log p. refl };
    fd = λ fd s log p. p;
    asoc_id = λ id s log p. p;
    sri_stream = λ sid s log p. p;
  }

  connects : (ip port : String) → Keeps k InTable IsReported (Unstarted k) (create_asoc_sk ip port)
  connects ip port =
      Triple-Never (Unstarted k) (create_asoc_sk ip port) (connection-InTable listed k ip port)

  closes : (expected : ℕ) → Keeps k InTable IsReported (Unstarted k) (close_asoc_sk expected)
  closes expected =
      Triple-Never (Unstarted k) (close_asoc_sk expected) (closing-InTable listed k expected)

  succeeds : Triple k InTable (λ status _ _. status ≡ pos 0) IsReported (Unstarted k) (pure (pos 0))
  succeeds = Triple-Never (Unstarted k) (pure (pos 0)) (success listed k)

  test_lem :
      (schedule : List Bool) (c : PrCase)
      → IsListed c
      → Keeps k InTable IsReported (Unstarted k) (run_test_pr schedule c.do_test_pr)
  test_lem schedule c h =
      run_test_pr-Keeps InTable IsReported k (Stable-InTable listed) current_case-InTable
        (λ rule. Adds-any listed _) Unstarted-Stable schedule c.do_test_pr h.1

  support : Keeps k InTable IsReported (Unstarted k) enable_asoc_prsctp_support
  unfolding enable_asoc_prsctp_support
  support = search (call_rules, Adds-any listed, Dies-InTable listed) depth 8

  -- what is known of the entry serves the action that is given it
  then_listed :
      {A : Type 0} (Q : A → Context → List Call → Type 0) (f : PrCase → M Context A)
      → ((c : PrCase) → IsListed c → Triple k InTable Q IsReported (Unstarted k) (f c))
      → Triple k InTable Q IsReported (Unstarted k) (current_case >>= f)
  then_listed Q f h =
      Triple-then current_case f current_case-IsListed
        (λ c. record { at = λ s log (p, q). (h c q).at s log p })

  do_client-Triple :
      (schedule : List Bool) (ip port : String) (i : ℕ)
      → i < listed
      → Triple k
          (λ _ _. Unit)
          (λ status _ _. status ≡ pos 0)
          IsReported
          (Unstarted k)
          (do_client schedule ip port (pos i))
  unfolding do_client
  do_client-Triple schedule ip port i h =
      Keeps-bind _ _ (Triple-Never (Unstarted k) (emit (sleep 3)) (waits k)) λ _.
        Triple-then _ _ (Triple-Never (Unstarted k) (modify _) (begins listed k i h)) λ _.
          Keeps-bind _ _ (connects ip port) λ _. then_listed _ _ λ c p.
            Keeps-bind _ _ (setup_lem c p) λ _. Keeps-bind _ _ support λ _. then_listed _ _ λ d q.
              Keeps-bind _ _ (test_lem schedule d q)
                λ _. search (call_rules, Adds-any listed, closes, succeeds) depth 10

  -- Whatever the kernel answers, and in whatever order the threads of its test run, the client of any
  -- of the 11 listed cases returns 0, or exits with status -1 right after it has printed which call
  -- failed; it reads no array out of bounds and calls no null pointer. Its behaviour is undefined only
  -- when pthread_create() has failed.
  pub policy_client-Ends :
      (schedule : List Bool) (ip port : String) (i : ℕ) (s : Context) (log : List Call)
      → i < listed
      → Ends
          (λ status _ _. status ≡ pos 0)
          IsReported
          (Unstarted k)
          (do_client schedule ip port (pos i) k s log)
  policy_client-Ends schedule ip port i s log h =
      (do_client-Triple schedule ip port i h).at s log tt
