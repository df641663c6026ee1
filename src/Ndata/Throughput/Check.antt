-- ===== src/Ndata/Throughput/Check.antt =====
-- The performance checks of one message.
use mathlib.Core.Path.{subst}
use mathlib.Core.Option.{some-injective}
use sctp_tests.Prelude.{
  ℕ, ◌+◌, ◌≡◌, ◌<◌, ℤ, false, Option, some, List, ◌==◌, Bool-cases, inl, inr, arith, if◌then◌else◌,
}
use sctp_tests.Posix.{Call, Kernel, gets, pure, emit, ◌>>=◌, ◌>>◌}
use sctp_tests.Posix.Triple.{Ends, Never}
use sctp_tests.Harness.{Context}
use sctp_tests.Ndata.Cases.{
  AssertTests, prio_assert_tests, prio_stress_assert_tests, prio_small_assert_tests,
}
use sctp_tests.Ndata.Checks.{
  print_perf, start_clock, do_prio_assert_tests, add_length, do_prio_stress_assert_tests,
  do_prio_small_assert_tests, run_assert_tests,
}
use sctp_tests.Ndata.Volume.{Measure, messages, bytes, weight, full}
use sctp_tests.Ndata.Throughput.Counting.{measured, hits, perf_lines}

module _ (k : Kernel) (m : Measure) (total : ℕ) (number : ℤ) where
  -- All messages have been counted, and the line has been printed when it was due. The clock has been started
  -- if anything has been counted.
  abbrev pub Reported : Context → List Call → Type 0
  Reported s log =
      (s.cb0 ≡ measured k m log)
      × (perf_lines log ≡ hits k m total log)
      × (s.cb3 ≡ 0 → s.cb0 ≡ 0)
      × (s.case_no ≡ number)

  -- So much is still to be added, by a message that has just come.
  abbrev pub Due : ℕ → Context → List Call → Type 0
  Due w s log =
      (s.cb0 + w ≡ measured k m log)
      × (perf_lines log + (if (s.cb0 + w) == total then 1 else 0) ≡ hits k m total log)
      × (s.cb3 ≡ 0 → s.cb0 ≡ 0)
      × (s.case_no ≡ number)

module _ (k : Kernel) (ticks : (log : List Call) → 0 < k.clock log) (number : ℤ) where
  set : (s : Context) → (s.cb3 == 0) ≡ false → s.cb3 ≡ 0 → ⊥
  set s e h = ground arith

  -- the end of the two checks that add up lengths
  bytes_check :
      (total megabits : ℕ) (s : Context) (log : List Call)
      → s.cb2 < total
      → Due k bytes total number s.cb2 s log
      → Ends
          (λ _. Reported k bytes total number)
          (λ _. Never)
          Never
          ((do
            add_length
            s ← gets (λ s. s)
            if s.cb3 == 0
                then start_clock
                else if s.cb0 == total
                then print_perf megabits
                else pure tt)
            k s log)
  unfolding add_length start_clock print_perf emit ◌>>=◌
  bytes_check total megabits s log small (p, q, r, n) = elim (Bool-cases (s.cb3 == 0)) [
    | inl e ↦ rw e (
        let unset : s.cb3 ≡ 0 = ground arith in
        let empty : s.cb0 ≡ 0 = r unset in
        let below : ((s.cb0 + s.cb2) == total) ≡ false = ground arith in
        let later = rw below at q in (p, omega arith, (λ h. absurd (omega (arith, ticks log))), n))
    | inr e ↦ elim (Bool-cases ((s.cb0 + s.cb2) == total)) [
      | inl f ↦ rw (e, f) (let due = rw f at q in (p, omega arith, (λ h. absurd (set s e h)), n))
      | inr f ↦ rw (e, f) (let due = rw f at q in (p, omega arith, (λ h. absurd (set s e h)), n))
    ]
  ]

  messages_check :
      (s : Context) (log : List Call)
      → Due k messages 1000000 number 1 s log
      → Ends
          (λ _. Reported k messages 1000000 number)
          (λ _. Never)
          Never
          (do_prio_assert_tests k s log)
  unfolding do_prio_assert_tests start_clock print_perf emit ◌>>=◌
  messages_check s log (p, q, r, n) = elim (Bool-cases ((s.cb0 + 1) == 1)) [
    | inl e ↦ rw e (
        let first : ((s.cb0 + 1) == 1000000) ≡ false = ground arith in
        let later = rw first at q in (p, omega arith, (λ h. absurd (omega (arith, ticks log))), n))
    | inr e ↦
        (let more : (s.cb0 ≡ 0 → ⊥) = λ h. ground arith in
          elim (Bool-cases ((s.cb0 + 1) == 1000000)) [
            | inl f ↦
                rw (e, f) (let due = rw f at q in (p, omega arith, (λ h. absurd (more (r h))), n))
            | inr f ↦
                rw (e, f) (let due = rw f at q in (p, omega arith, (λ h. absurd (more (r h))), n))
          ])
  ]

  for_total :
      (f : AssertTests) (m' : Measure) (total' : ℕ) (m : Measure) (total : ℕ) (s : Context)
      (log : List Call)
      → Path (Option (Measure × ℕ)) (some (m', total')) (some (m, total))
      → (Due k m' total' number (weight m' s.cb2) s log
          → Ends (λ _. Reported k m' total' number) (λ _. Never) Never (run_assert_tests f k s log))
      → Due k m total number (weight m s.cb2) s log
      → Ends (λ _. Reported k m total number) (λ _. Never) Never (run_assert_tests f k s log)
  for_total f m' total' m total s log e =
      subst
        (λ p.
          Due k p.0 p.1 number (weight p.0 s.cb2) s log
          → Ends (λ _. Reported k p.0 p.1 number) (λ _. Never) Never (run_assert_tests f k s log))
        (some-injective (m', total') (m, total) e)

  -- A check that measures, given a message that has just come.
  pub perf_check :
      (f : AssertTests) (m : Measure) (total : ℕ) (s : Context) (log : List Call)
      → full f ≡ some (m, total)
      → s.cb2 < 20481
      → Due k m total number (weight m s.cb2) s log
      → Ends (λ _. Reported k m total number) (λ _. Never) Never (run_assert_tests f k s log)
  unfolding run_assert_tests do_prio_stress_assert_tests do_prio_small_assert_tests
  perf_check prio_assert_tests m total s log e small d =
      for_total prio_assert_tests messages 1000000 m total s log e (messages_check s log) d
  perf_check prio_stress_assert_tests m total s log e small d =
      for_total prio_stress_assert_tests bytes 1024000000 m total s log e
        (bytes_check 1024000000 8000 s log (omega arith)) d
  perf_check prio_small_assert_tests m total s log e small d =
      for_total prio_small_assert_tests bytes 6400000 m total s log e
        (bytes_check 6400000 50 s log (omega arith)) d
  perf_check _ m total s log e small d = cc
