-- ===== src/Ndata/Volume.antt =====
-- How much the performance tests of sctp_ndata.c send: just what their receiver waits for before it
-- prints the throughput.
use sctp_tests.Prelude.{ℕ, ◌*◌, ◌≡◌, All-get_elem?, Option, none, some, [], get_elem?, All}
use sctp_tests.Posix.{Kernel, M, emit, sleep, ◌>>=◌}
use sctp_tests.Posix.Rules.{IsReported, call_rules}
use sctp_tests.Posix.Triple.{Ends, Never}
use sctp_tests.Posix.Volume.{
  volume, Sends, sent_from_start, Adds-silent, Sends-message, Sends-then, Sends-after, Sends-for,
  Sends-gets,
}
use sctp_tests.Harness.{Context, send_asoc_msg}
use sctp_tests.Ndata.Cases.{
  SnCase, sn_cases, prio_sched_tests, prio_sched_tests_x, prio_sched_tests_y,
  prio_stress_sched_tests, prio_small_sched_tests, AssertTests, prio_assert_tests,
  prio_stress_assert_tests, prio_small_assert_tests,
}
use sctp_tests.Ndata.Traffic.{
  on_streams, do_prio_sched_tests, do_prio_sched_tests_x, do_prio_sched_tests_y,
  do_prio_stress_sched_tests, do_prio_small_sched_tests, run_sched_tests,
}

-- What a performance check adds up.
pub data Measure : Type 0 where
  messages bytes : Measure

abbrev pub weight : Measure → ℕ → ℕ
weight messages len = 1
weight bytes len = len

-- The measure of each performance check, and the sum at which it prints the throughput.
abbrev pub full : AssertTests → Option (Measure × ℕ)
full prio_assert_tests = some (messages, 1000000)
full prio_stress_assert_tests = some (bytes, 1024000000)
full prio_small_assert_tests = some (bytes, 6400000)
full _ = none

-- nothing is asked of the state
abbrev Anything : Context → Type 0
Anything s = Unit

module _ (k : Kernel) (w : ℕ → ℕ) where
  send_asoc_msg-Sends :
      (len sid flags value : ℕ) → Sends k w Anything (w len) (send_asoc_msg len sid flags value)
  unfolding send_asoc_msg
  send_asoc_msg-Sends len sid flags value =
      Sends-gets k w Anything (w len) _ _
        (λ s. Sends-message k w Anything s.fd len flags sid value "sendmsg")

  on_streams-Sends :
      (repeats counts n : ℕ) (body : ℕ → M Context (Unit {0}))
      → ((stream : ℕ) → Sends k w Anything n (body stream))
      → Sends k w Anything (repeats * (10 * (counts * n))) (on_streams repeats counts body)
  unfolding on_streams
  on_streams-Sends repeats counts n body h =
      Sends-for k w Anything repeats 0 (10 * (counts * n)) _ λ _.
        Sends-for k w Anything 10 0 (counts * n) _
          λ stream. Sends-for k w Anything counts 0 n _ λ _. h stream

module _ (k : Kernel) (w : ℕ → ℕ) where
  Sends-sleep :
      (n t : ℕ) (m : M Context (Unit {0}))
      → Sends k w Anything n m
      → Sends k w Anything n (m >>= λ _. emit (sleep t))
  Sends-sleep n t m h =
      Sends-after k w Anything n m _ h
        (λ _ v. search (call_rules, Adds-silent k w Anything, tt) depth 6)

-- What a test must send for the check to print the throughput.
abbrev Fills : Kernel → Option (Measure × ℕ) → M Context (Unit {0}) → Type 0
Fills k none m = Unit
Fills k (some (measure, total)) m = Sends k (weight measure) Anything total m

module _ (k : Kernel) where
  prio_sched_tests-Sends :
      Sends k (weight messages) Anything 1000000 (run_sched_tests prio_sched_tests)
  unfolding run_sched_tests do_prio_sched_tests
  prio_sched_tests-Sends =
      Sends-sleep k _ 1000000 10 _
        (on_streams-Sends k _ 10000 10 1 _ (λ stream. send_asoc_msg-Sends k _ 1024 stream 0 0))

  prio_sched_tests_x-Sends :
      Sends k (weight messages) Anything 1000000 (run_sched_tests prio_sched_tests_x)
  unfolding run_sched_tests do_prio_sched_tests_x
  prio_sched_tests_x-Sends =
      Sends-sleep k _ 1000000 10 _
        (on_streams-Sends k _ 10000 10 1 _ (λ stream. send_asoc_msg-Sends k _ 1024 stream 1 0))

  prio_sched_tests_y-Sends :
      Sends k (weight messages) Anything 1000000 (run_sched_tests prio_sched_tests_y)
  unfolding run_sched_tests do_prio_sched_tests_y
  prio_sched_tests_y-Sends = Sends-sleep k _ 1000000 10 _ (
      on_streams-Sends k _ 10000 5 2 _ λ stream.
        Sends-then k _ Anything 1 1 _ _ (send_asoc_msg-Sends k _ 1024 stream 0 0)
          (λ _. send_asoc_msg-Sends k _ 1024 stream 1 0))

  prio_stress_sched_tests-Sends :
      Sends k (weight bytes) Anything 1024000000 (run_sched_tests prio_stress_sched_tests)
  unfolding run_sched_tests do_prio_stress_sched_tests
  prio_stress_sched_tests-Sends =
      Sends-sleep k _ 1024000000 10 _
        (on_streams-Sends k _ 1000 10 10240 _ (λ stream. send_asoc_msg-Sends k _ 10240 stream 0 0))

  prio_small_sched_tests-Sends :
      Sends k (weight bytes) Anything 6400000 (run_sched_tests prio_small_sched_tests)
  unfolding run_sched_tests do_prio_small_sched_tests
  prio_small_sched_tests-Sends =
      Sends-sleep k _ 6400000 10 _
        (on_streams-Sends k _ 1000 10 64 _ (λ stream. send_asoc_msg-Sends k _ 64 stream 0 0))

  sn_cases-Fills :
      All (λ c. Fills k (full c.do_assert_tests) (run_sched_tests c.do_sched_tests)) sn_cases
  unfolding sn_cases
  sn_cases-Fills = assumption (
    tt, prio_sched_tests-Sends, prio_sched_tests_x-Sends, prio_sched_tests_y-Sends,
    prio_stress_sched_tests-Sends, prio_small_sched_tests-Sends,
  )

-- Whatever the kernel answers, the traffic of a performance case returns and has sent just the number
-- of messages, or of bytes, at which the receiver's check prints the throughput, or it exits with
-- status -1 right after it has printed which call failed.
pub performance_volume :
    (k : Kernel) (s : Context) (i : ℕ) (c : SnCase) (measure : Measure) (total : ℕ)
    → get_elem? sn_cases i ≡ some c
    → full c.do_assert_tests ≡ some (measure, total)
    → Ends
        (λ _ _ log. volume (weight measure) log ≡ total)
        IsReported
        Never
        (run_sched_tests c.do_sched_tests k s [])
performance_volume k s i c measure total at_i e =
    let fills =
      All-get_elem? (λ c. Fills k (full c.do_assert_tests) (run_sched_tests c.do_sched_tests))
        sn_cases i c (sn_cases-Fills k) at_i in
    sent_from_start k (weight measure) Anything total _ s (rw e at fills) tt
