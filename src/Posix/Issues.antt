-- ===== src/Posix/Issues.antt =====
-- Statements about every call that an action makes.
use sctp_tests.Prelude.{ℕ, String, Option, none, some, List, [], All, get_elem?}
use sctp_tests.Posix.Calls.{Call, Kernel, perror}
use sctp_tests.Posix.Exec.{Outcome, returned, exited, faulted, running, trace_of, M, fault, modify}
use sctp_tests.Posix.Checked.{or_fault, index}
use sctp_tests.Posix.Triple.{Ends, Keeps, Keeps-pure}
use sctp_tests.Posix.Rules.{Adds, Dies, call_rules}

-- If all calls made before meet `P`, so do all made in the end, however the action ends.
abbrev pub Issues : {S A : Type 0} → Kernel → (Call → Type 0) → M S A → Type 0
Issues k P m = Keeps k (λ _ log. All P log) (λ _ log. All P log) (All P) m

module _ {S : Type 0} {P : Call → Type 0} where
  pub issue : (c : Call) → P c → Adds {S = S} (λ _ log. All P log) c
  issue c p = record { at = λ s log h. (p, h) }

  pub issue_die :
      (what : String)
      → P (perror what)
      → Dies {S = S} (λ _ log. All P log) (λ _ log. All P log) what
  issue_die what p = record { at = λ s log h. (p, h) }

  pub Issues-modify : {k : Kernel} (f : S → S) → Issues k P (modify f)
  unfolding modify
  Issues-modify f = record { at = λ s log h. h }

module _ {S A : Type 0} {k : Kernel} {P : Call → Type 0} where
  pub Issues-fault : Issues k P (fault {S = S} {A = A})
  unfolding fault
  Issues-fault = record { at = λ s log h. h }

  Issues-or_fault : (o : Option A) → Issues k P (or_fault {S = S} o)
  unfolding or_fault
  Issues-or_fault none = Issues-fault
  Issues-or_fault (some a) = Keeps-pure a

  pub Issues-index : (xs : List A) (i : ℕ) → Issues k P (index {S = S} xs i)
  unfolding index
  Issues-index xs i = Issues-or_fault (get_elem? xs i)

-- A run from the start.
trace_of-All :
    {S A : Type 0} (P : Call → Type 0) (o : Outcome S A)
    → Ends (λ _ _ log. All P log) (λ _ log. All P log) (All P) o
    → All P (trace_of o)
trace_of-All P (returned a s log) h = h
trace_of-All P (exited c log) h = h
trace_of-All P (faulted log) h = h
trace_of-All P (running log) h = h

pub issued :
    {S A : Type 0} (k : Kernel) (P : Call → Type 0) (m : M S A) (s : S)
    → Issues k P m
    → All P (trace_of (m k s []))
issued k P m s h = trace_of-All P (m k s []) (h.at s [] tt)

pub ruleset issues_rules = (call_rules, issue, issue_die, Issues-modify, Issues-fault, Issues-index)
