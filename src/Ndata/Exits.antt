-- ===== src/Ndata/Exits.antt =====
-- How the client of sctp_ndata.c ends.
use sctp_tests.Prelude.{
  ℕ, ◌%◌, ◌<◌, ◌≡◌, refl, String, ℤ, pos, negsuc, List, length, All-trivial, arith,
}
use sctp_tests.Posix.{Call, Kernel, pure, index, or_fault, ◌>>=◌}
use sctp_tests.Posix.Rules.{IsReported, call_rules}
use sctp_tests.Harness
use sctp_tests.Posix.Triple.{Ends, Never, Keeps, Triple, Triple-then, Keeps-bind}
use sctp_tests.Harness.{Context, enable_asoc_strreset, enable_peer_strreset}
use sctp_tests.Harness.Stable.{enable_asoc_strreset-Keeps, enable_peer_strreset-Keeps}
use sctp_tests.Harness.Exits.{
  IsBelow, Stable-InTable, Adds-any, Dies-InTable, connection-InTable, closing-InTable, success,
  begins, waits, entry,
}
use sctp_tests.Ndata.Cases.{
  SetupSched, SetupSchedvalue, SchedTests, sn_cases, sn_case_max, case_at, current_case,
}
use sctp_tests.Ndata.Stable.{
  run_setup_sched-Keeps, run_setup_schedvalue-Keeps, run_sched_tests-Keeps,
}
use sctp_tests.Ndata.Setup.{run_setup_sched, run_setup_schedvalue}
use sctp_tests.Ndata.Traffic.{run_sched_tests}
use sctp_tests.Ndata.Program.{cork, close_asoc_streams, reopen_asoc_streams, do_client}

abbrev InTable : Context → List Call → Type 0
InTable = Harness.Exits.InTable sn_case_max

length-sn_cases : length sn_cases ≡ sn_case_max
unfolding sn_cases
length-sn_cases = refl

module _ (k : Kernel) where
  case_at-InTable : (n : ℤ) → IsBelow sn_case_max n → Keeps k InTable IsReported Never (case_at n)
  unfolding case_at index or_fault pure
  case_at-InTable (pos i) h =
      let (c, e, _) =
        entry (λ c. Unit) sn_case_max sn_cases i (All-trivial _) h
          (omega (arith, length-sn_cases)) in
      record { at = λ s log p. rw e p }
  case_at-InTable (negsuc i) h = absurd h

  current_case-InTable : Keeps k InTable IsReported Never current_case
  unfolding current_case ◌>>=◌
  current_case-InTable = record { at = λ s log p. (case_at-InTable s.case_no p).at s log p }

other_case : (r : ℕ) (s : Context) (log : List Call) → InTable s log → r % sn_case_max < sn_case_max
other_case r s log p = omega arith

module _ (k : Kernel) where
  cur : Keeps k InTable IsReported Never current_case
  cur = current_case-InTable k

  cork-InTable : Keeps k InTable IsReported Never cork
  unfolding cork
  cork-InTable = search (call_rules, Adds-any sn_case_max, Dies-InTable sn_case_max) depth 12

  close_asoc_streams-InTable : Keeps k InTable IsReported Never close_asoc_streams
  unfolding close_asoc_streams
  close_asoc_streams-InTable = search (call_rules, cork-InTable, cur)

  reopen_asoc_streams-InTable : Keeps k InTable IsReported Never reopen_asoc_streams
  unfolding reopen_asoc_streams
  reopen_asoc_streams-InTable = search (call_rules, Adds-any sn_case_max, cur) depth 10

  traffic-InTable : (t : SchedTests) → Keeps k InTable IsReported Never (run_sched_tests t)
  traffic-InTable =
      run_sched_tests-Keeps InTable IsReported Never k (Stable-InTable sn_case_max) cur other_case

  sched-InTable : (f : SetupSched) → Keeps k InTable IsReported Never (run_setup_sched f)
  sched-InTable = run_setup_sched-Keeps InTable IsReported Never k (Stable-InTable sn_case_max) cur

  schedvalue-InTable :
      (f : SetupSchedvalue) → Keeps k InTable IsReported Never (run_setup_schedvalue f)
  schedvalue-InTable =
      run_setup_schedvalue-Keeps InTable IsReported Never k (Stable-InTable sn_case_max) cur

  reset-InTable : (allowed : ℕ) → Keeps k InTable IsReported Never (enable_asoc_strreset allowed)
  reset-InTable = enable_asoc_strreset-Keeps InTable IsReported Never k (Stable-InTable sn_case_max)

  peer_reset-InTable :
      (expected : ℕ) → Keeps k InTable IsReported Never (enable_peer_strreset expected)
  peer_reset-InTable =
      enable_peer_strreset-Keeps InTable IsReported Never k (Stable-InTable sn_case_max)

  do_client-Triple :
      (ip port : String) (i : ℕ)
      → i < sn_case_max
      → Triple k
          (λ _ _. Unit)
          (λ status _ _. status ≡ pos 0)
          IsReported
          Never
          (do_client ip port (pos i))
  unfolding do_client
  do_client-Triple ip port i h = Keeps-bind _ _ (waits k) λ _.
      Triple-then _ _ (begins sn_case_max k i h) λ _.
        search
          (
            connection-InTable sn_case_max k,
            cur,
            sched-InTable,
            schedvalue-InTable,
            reset-InTable,
            peer_reset-InTable,
            close_asoc_streams-InTable,
            traffic-InTable,
            reopen_asoc_streams-InTable,
            closing-InTable sn_case_max k,
            success sn_case_max k,
            Keeps-bind,
          )
          depth 20

  -- Whatever the kernel answers, the client of any of the 21 cases returns 0, or exits with status -1
  -- right after it has printed which call failed; it reads no array out of bounds.
  pub do_client-Ends :
      (ip port : String) (i : ℕ) (s : Context) (log : List Call)
      → i < sn_case_max
      → Ends (λ status _ _. status ≡ pos 0) IsReported Never (do_client ip port (pos i) k s log)
  do_client-Ends ip port i s log h = (do_client-Triple ip port i h).at s log tt
