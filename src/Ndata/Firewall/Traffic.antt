-- ===== src/Ndata/Firewall/Traffic.antt =====
-- What the traffic of sctp_ndata.c, with the closing and reopening of its streams, does to the rules of
-- iptables.
use sctp_tests.Prelude.{
  ℕ, ◌≡◌, ◌⊎◌, refl, ℤ, pos, negsuc, Bool, true, false, Option, none, some, List, inl, inr,
  get_elem?, All, All-get_elem?, Bool-cases, ◌==◌, is_zero,
}
use sctp_tests.Posix.{
  Call, Kernel, Outcome, M, drop_input, flush, call, die, emit, pure, exit, index, or_fault, ◌>>=◌,
}
use sctp_tests.Posix.Rules.{Adds, Keeps-fault, call_rules}
use sctp_tests.Posix.Triple.{
  Ends-map, Keeps, Triple, Triple-then, Triple-if, Keeps-bind, Keeps-pure,
}
use sctp_tests.Posix.Dropping.{AnyExit, While, rule_While}
use sctp_tests.Harness.{Context}
use sctp_tests.Harness.Stable.{Stable, IsHarmless}
use sctp_tests.Harness.Dropping.{Stable-While}
use sctp_tests.Ndata.Cases.{SchedTests, sched_tests, SnCase, sn_cases, case_at, current_case}
use sctp_tests.Ndata.Stable.{do_sched_tests-Keeps, run_sched_tests-Keeps}
use sctp_tests.Ndata.Traffic.{run_sched_tests}
use sctp_tests.Ndata.Program.{cork, close_asoc_streams, reopen_asoc_streams}

module _ (k : Kernel) (I : ℤ → Type 0) where
  abbrev pub At : Bool → Context → List Call → Type 0
  At b = While k (λ s. I s.case_no) (λ _. Unit) b

  pub Stable-At : (b : Bool) → Stable (At b) AnyExit
  Stable-At b = Stable-While k I (λ _. Unit) b

  pub harmless_At : (b : Bool) (c : Call) → IsHarmless c → Adds (At b) c
  harmless_At b = (Stable-At b).adds

  module _ (b : Bool) where
    or_fault-Keeps : {A : Type 0} (o : Option A) → Keeps k (At b) AnyExit (λ _. Unit) (or_fault o)
    unfolding or_fault
    or_fault-Keeps none = Keeps-fault
    or_fault-Keeps (some a) = Keeps-pure a

    case_at-Keeps : (n : ℤ) → Keeps k (At b) AnyExit (λ _. Unit) (case_at n)
    unfolding case_at index
    case_at-Keeps (pos i) = or_fault-Keeps (get_elem? sn_cases i)
    case_at-Keeps (negsuc i) = Keeps-fault

    pub current_case-Keeps : Keeps k (At b) AnyExit (λ _. Unit) current_case
    unfolding current_case
    current_case-Keeps = search (call_rules, case_at-Keeps)

  -- whatever the case is now
  reopen_asoc_streams-Opens :
      Triple k (At false) (λ _. At false) AnyExit (λ _. Unit) reopen_asoc_streams
  unfolding reopen_asoc_streams
  reopen_asoc_streams-Opens = Keeps-bind _ _ (current_case-Keeps false) λ c.
      Triple-if _ _ _ (Keeps-pure tt) (
        Triple-then _ _ (rule_While k (λ s. I s.case_no) (λ _. Unit) false flush)
          (λ _. search (call_rules, harmless_At, tt) depth 8))

-- Where the table corks the messages, and only there, the traffic stays with its case.
abbrev pub StaysIfCorked : SchedTests → ℕ → Type 0
StaysIfCorked sched_tests n = Unit
StaysIfCorked _ n = (n == 0) ≡ true

pub sn_cases-StaysIfCorked : All (λ c. StaysIfCorked c.do_sched_tests c.sched_cork) sn_cases
unfolding sn_cases
sn_cases-StaysIfCorked = assumption (tt, refl)

abbrev pub IsAny : ℤ → Type 0
IsAny n = Unit

module _ (k : Kernel) (i : ℕ) (c : SnCase) (at_i : get_elem? sn_cases i ≡ some c) where
  abbrev pub AtCase : Bool → Context → List Call → Type 0
  AtCase = At k (λ n. n ≡ pos i)

  abbrev pub AtAny : Bool → Context → List Call → Type 0
  AtAny = At k IsAny

  current_case_lem :
      (s : Context) (log : List Call)
      → s.case_no ≡ pos i
      → current_case k s log ≡ Outcome.returned c s log
  unfolding current_case case_at index or_fault ◌>>=◌
  current_case_lem s log e = rw (e, at_i)

  pub then_case :
      {A : Type 0} (Q : A → Context → List Call → Type 0) (b : Bool) (f : SnCase → M Context A)
      → Triple k (AtCase b) Q AnyExit (λ _. Unit) (f c)
      → Triple k (AtCase b) Q AnyExit (λ _. Unit) (current_case >>= f)
  unfolding ◌>>=◌
  then_case Q b f h = record {
    at = λ s log (p, q). rw (current_case_lem s log q) (h.at s log (p, q));
  }

  die_Any :
      (Q : Unit {0} → Context → List Call → Type 0) (P : Context → List Call → Type 0)
      → Triple k P Q AnyExit (λ _. Unit) (die "setsockopt")
  unfolding die emit call pure exit ◌>>=◌
  die_Any Q P = record { at = λ s log h. tt }

  cork-Drops : Triple k (AtCase false) (λ _. AtCase true) AnyExit (λ _. Unit) cork
  unfolding cork
  cork-Drops =
      Triple-then _ _ (rule_While k (λ s. s.case_no ≡ pos i) (λ _. Unit) false drop_input) λ _.
        Keeps-bind _ _ (search call_rules) λ s.
          Keeps-bind _ _ (search (call_rules, harmless_At k (λ n. n ≡ pos i), tt)) λ r.
            Triple-if (is_zero r) _ _ (search (call_rules, harmless_At k (λ n. n ≡ pos i), tt)) (
              Triple-then _ _ (rule_While k (λ s. s.case_no ≡ pos i) (λ _. Unit) true flush)
                (λ _. die_Any _ _))

  -- the part of do_client() from the closing of the streams to their reopening, and what follows
  abbrev traffic : M Context ℤ → M Context ℤ
  traffic rest = close_asoc_streams >>= λ _. current_case >>= λ e.
      run_sched_tests e.do_sched_tests >>= λ _. reopen_asoc_streams >>= λ _. rest

  module _ (Q : ℤ → Context → List Call → Type 0) (rest : M Context ℤ)
      (after : Triple k (AtAny false) Q AnyExit (λ _. Unit) rest) where
    module _ (corked : (c.sched_cork == 0) ≡ false) where
      reopen-Opens :
          Triple k (AtCase true) (λ _. AtCase false) AnyExit (λ _. Unit) reopen_asoc_streams
      unfolding reopen_asoc_streams
      reopen-Opens = then_case _ true _ (
          rw corked (
            Triple-then _ _ (rule_While k (λ s. s.case_no ≡ pos i) (λ _. Unit) true flush)
              (λ _. search (call_rules, harmless_At k (λ n. n ≡ pos i), tt) depth 8)))

      widen :
          {P : Context → List Call → Type 0} (m : M Context (Unit {0}))
          → Triple k P (λ _. AtCase false) AnyExit (λ _. Unit) m
          → Triple k P (λ _. AtAny false) AnyExit (λ _. Unit) m
      widen {P} m h = record {
        at = λ s log p.
            Ends-map (λ _. AtCase false) (λ _. AtAny false) AnyExit (λ _. Unit) (m k s log)
              (h.at s log p) (λ _ s' log' q. (q.0, tt));
      }

      corked_Opens :
          c.do_sched_tests ≡ sched_tests
          → Triple k (AtCase false) Q AnyExit (λ _. Unit) (traffic rest)
      unfolding close_asoc_streams run_sched_tests
      corked_Opens e = Triple-then _ _ (then_case _ false _ (rw corked cork-Drops)) λ _.
          then_case _ true _ (
            rw e (
              Keeps-bind _ _
                (do_sched_tests-Keeps (AtCase true) AnyExit (λ _. Unit) k
                  (Stable-At k (λ n. n ≡ pos i) true) (current_case-Keeps k (λ n. n ≡ pos i) true))
                λ _. Triple-then _ _ (widen _ reopen-Opens) λ _. after))

    module _ (open_case : (c.sched_cork == 0) ≡ true) where
      uncorked_Opens : Triple k (AtCase false) Q AnyExit (λ _. Unit) (traffic rest)
      unfolding close_asoc_streams
      uncorked_Opens =
          Keeps-bind _ _ (then_case _ false _ (rw open_case (Keeps-pure tt)))
            λ _. then_case _ false _ (record { at = λ s log (p, q). any_case.at s log (p, tt) })
        where
          any_case :
              Triple k
                (AtAny false)
                Q
                AnyExit
                (λ _. Unit)
                (run_sched_tests c.do_sched_tests >>= λ _. reopen_asoc_streams >>= λ _. rest)
          any_case =
              Keeps-bind _ _
                (run_sched_tests-Keeps (AtAny false) AnyExit (λ _. Unit) k (Stable-At k IsAny false)
                  (current_case-Keeps k IsAny false) (λ r s log p. p) c.do_sched_tests)
                λ _. Keeps-bind _ _ (reopen_asoc_streams-Opens k IsAny) λ _. after

    pub traffic_Opens : Triple k (AtCase false) Q AnyExit (λ _. Unit) (traffic rest)
    traffic_Opens = by_cork (Bool-cases (c.sched_cork == 0)) c.do_sched_tests refl (
        All-get_elem? (λ c. StaysIfCorked c.do_sched_tests c.sched_cork) sn_cases i c
          sn_cases-StaysIfCorked at_i)
      where
        by_cork :
            ((c.sched_cork == 0) ≡ true) ⊎ ((c.sched_cork == 0) ≡ false)
            → (t : SchedTests) → c.do_sched_tests ≡ t
            → StaysIfCorked t c.sched_cork
            → Triple k (AtCase false) Q AnyExit (λ _. Unit) (traffic rest)
        by_cork (inl p) t e h = uncorked_Opens p
        by_cork (inr p) sched_tests e h = corked_Opens p e
        by_cork (inr p) _ e h = absurd (cc (p, h))
