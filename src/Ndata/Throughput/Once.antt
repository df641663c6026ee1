-- ===== src/Ndata/Throughput/Once.antt =====
-- The receiver of a performance case of sctp_ndata.c does not print the throughput twice.
use mathlib.Core.Path.{subst}
use mathlib.Core.Option.{some-injective}
use sctp_tests.Prelude.{
  Option, ℕ, ◌+◌, ◌<◌, ◌≤◌, ◌≡◌, refl, String, pos, some, List, [], ◌∷◌, get_elem?, ◌==◌,
  Bool-cases, inl, inr, arith,
}
use sctp_tests.Posix.{Call, Kernel, Received, failed, got}
use sctp_tests.Posix.Triple.{Ends, weaken}
use sctp_tests.Harness.{Context}
use sctp_tests.Ndata.Cases.{
  SnCase, sn_cases, AssertTests, prio_assert_tests, prio_stress_assert_tests,
  prio_small_assert_tests,
}
use sctp_tests.Ndata.Program.{do_server}
use sctp_tests.Ndata.Volume.{Measure, messages, bytes, weight, full}
use sctp_tests.Ndata.Throughput.Counting.{
  is_command, received_weight, measured, reaches, hits, perf_lines,
}
use sctp_tests.Ndata.Throughput.Server.{do_server-Agreed}

weight_positive : (m : Measure) (len : ℕ) → 0 < len → 0 < weight m len
weight_positive messages len h = omega arith
weight_positive bytes len h = h

for_all : (p q : Measure × ℕ) → Path (Option (Measure × ℕ)) (some p) (some q) → 0 < p.1 → 0 < q.1
for_all p q e h = subst (λ r. 0 < r.1) (some-injective p q e) h

full_positive : (f : AssertTests) (m : Measure) (total : ℕ) → full f ≡ some (m, total) → 0 < total
full_positive prio_assert_tests m total e = for_all (messages, 1000000) (m, total) e (omega arith)
full_positive prio_stress_assert_tests m total e =
    for_all (bytes, 1024000000) (m, total) e (omega arith)
full_positive prio_small_assert_tests m total e =
    for_all (bytes, 6400000) (m, total) e (omega arith)
full_positive _ m total e = cc

module _ (k : Kernel) (m : Measure) (total : ℕ)
    (fills : (log : List Call) (len sid : ℕ) → k.received log ≡ got len sid → 0 < len)
    (some_total : 0 < total) where
  -- At most one message has reached the total: none while the sum is below it, and one when it is reached.
  abbrev pub AtMostOne : ℕ → ℕ → Type 0
  AtMostOne n sum = (n ≤ 1) × (sum < total → n ≡ 0) × (sum ≡ total → n ≡ 1)

  more :
      (message : Received) (n sum : ℕ)
      → ((len sid : ℕ) → message ≡ got len sid → 0 < len)
      → AtMostOne n sum
      → AtMostOne
          (reaches total message (received_weight m message + sum) + n)
          (received_weight m message + sum)
  more failed n sum f (h, g, j) = (
    omega arith,
    (λ l. let z : n ≡ 0 = g (omega arith) in omega arith),
    (λ l. let y : n ≡ 1 = j (omega arith) in omega arith),
  )
  more (got len sid) n sum f (h, g, j) = elim (Bool-cases (is_command len)) [
    | inl c ↦ rw c (
      omega arith,
      (λ l. let z : n ≡ 0 = g (omega arith) in omega arith),
      (λ l. let y : n ≡ 1 = j (omega arith) in omega arith),
    )
    | inr c ↦
        (let w : 0 < weight m len = weight_positive m len (f len sid refl) in
          elim (Bool-cases ((weight m len + sum) == total)) [
            | inl e ↦
                rw (c, e)
                  (let same : weight m len + sum ≡ total = ground arith in
                    let z : n ≡ 0 = g (omega arith) in
                    (omega arith, (λ l. absurd (omega arith)), (λ l. omega arith)))
            | inr e ↦
                rw (c, e)
                  (
                    omega arith,
                    (λ l. let z : n ≡ 0 = g (omega arith) in omega arith),
                    (λ l. absurd (ground arith)),
                  )
          ])
  ]

  hits-AtMostOne : (log : List Call) → AtMostOne (hits k m total log) (measured k m log)
  hits-AtMostOne [] = (omega arith, (λ l. refl), (λ l. absurd (omega (arith, l, some_total))))
  hits-AtMostOne (Call.recvmsg fd size ∷ log) =
      more (k.received log) (hits k m total log) (measured k m log) (fills log) (hits-AtMostOne log)
  hits-AtMostOne (_ ∷ log) = hits-AtMostOne log

-- At most one line is printed, none below the total, and one when the sum is just the total.
abbrev pub PrintsOnce : Kernel → Measure → ℕ → List Call → Type 0
PrintsOnce k m total log =
    (perf_lines log ≤ 1)
    × (measured k m log < total → perf_lines log ≡ 0)
    × (measured k m log ≡ total → perf_lines log ≡ 1)

-- The receiver of a performance case, on a kernel whose clock is positive and whose messages are not
-- empty and fit the buffer of 20480 bytes, prints the throughput at most once, whether it returns,
-- exits or is still running: not at all as long as the messages, or bytes, of the data received are
-- fewer than the case's total, and once when they are just so many.
pub performance_once :
    (k : Kernel) (fuel i : ℕ) (c : SnCase) (m : Measure) (total : ℕ) (ip port : String)
    (s : Context)
    → ((log : List Call) → 0 < k.clock log)
    → ((log : List Call) (len sid : ℕ) → k.received log ≡ got len sid → (0 < len) × (len < 20481))
    → get_elem? sn_cases i ≡ some c
    → full c.do_assert_tests ≡ some (m, total)
    → Ends
        (λ _ _ log. PrintsOnce k m total log)
        (λ _ log. PrintsOnce k m total log)
        (PrintsOnce k m total)
        (do_server fuel ip port (pos i) k s [])
performance_once k fuel i c m total ip port s ticks fits at_i e =
    weaken (λ log. perf_lines log ≡ hits k m total log) (PrintsOnce k m total)
      (do_server fuel ip port (pos i) k s [])
      (λ log q. rw q (
        hits-AtMostOne k m total (λ l len sid r. (fits l len sid r).0)
          (full_positive c.do_assert_tests m total e) log))
      (do_server-Agreed k ticks (λ l len sid r. (fits l len sid r).1) i c m total at_i e fuel ip
        port s)
