-- ===== src/Prsctp/Policy/Messages.antt =====
-- What each test of sctp_pr.c with one thread does: its messages, its pauses, the rules and the buffer.
use Prim.Native.Nat.{bit_or}
use sctp_tests.Prelude.{
  ℕ, ◌-◌, ◌≡◌, refl, pos, Bool, true, false, some, List, [], ◌∷◌, ◌++◌, get_elem?, ◌==◌,
}
use sctp_tests.Posix.{
  Call, Kernel, Outcome, M, SockOpt, setsockopt, sendmsg, sleep, system, printf, drop_output_data,
  flush, pure, emit, index, or_fault, sequence, ◌>>=◌,
}
use sctp_tests.Posix.Rules.{call_rules}
use sctp_tests.Posix.Triple.{Keeps-bind, Keeps-pure}
use sctp_tests.Posix.Tells.{Tells, Tells-then, Tells-must, Tells-must_send, Tells-emit}
use sctp_tests.Harness.{Context, cmd_set_strreset, cmd_close_asoc, send_asoc_msg}
use sctp_tests.Prsctp.Cases.{
  PrCase, sn_cases, case_at, current_case, TestPr, test_pr, test_pr_b, test_pr_c, test_pr_x,
  test_pr_bx, test_pr_cx,
}
use sctp_tests.Prsctp.Traffic.{
  close_asoc_streams, reopen_steps, if_dropped, reopen_asoc_streams, do_setup_so_sndbuf, do_test_pr,
  do_test_pr_b, do_test_pr_c, do_test_pr_x, do_test_pr_bx, do_test_pr_cx, run_test_pr,
}
use sctp_tests.Prsctp.Policy.{Event, buffer, path, pause, put, noted}

-- A test with one thread.
abbrev pub IsAlone : TestPr → Type 0
IsAlone TestPr.null = ⊥
IsAlone TestPr.test_pr_cxx = ⊥
IsAlone TestPr.test_pr_cxxx = ⊥
IsAlone _ = Unit

abbrev message : ℕ → ℕ → ℕ → Event
message len flags value = put (record { len = len; flags = flags; value = value })

-- sn_reopen_asoc_streams(), the newest first
abbrev reopened : List Event
reopened = pause 10 ∷ path false ∷ []

-- What a test does for a case, the newest first.
abbrev pub events_of : PrCase → TestPr → List Event
events_of c test_pr =
    pause 10
    ∷ path false
    ∷ message 1000 0 0
    ∷ pause 10
    ∷ message c.length c.flags c.value
    ∷ path true
    ∷ []
events_of c test_pr_b =
    pause 10
    ∷ path false
    ∷ message 1000 1 0
    ∷ pause 10
    ∷ message c.length (bit_or c.flags 1) c.value
    ∷ path true
    ∷ []
events_of c test_pr_c =
    pause 10
    ∷ path false
    ∷ message 100 0 0
    ∷ message 100 1 0
    ∷ pause 10
    ∷ message 100 (bit_or c.flags 1) c.value
    ∷ path true
    ∷ []
events_of c test_pr_x =
    pause 10
    ∷ path false
    ∷ message 1000 c.flags (c.value - 1)
    ∷ message c.length c.flags c.value
    ∷ path true
    ∷ buffer 2500
    ∷ []
events_of c test_pr_bx =
    pause 10
    ∷ path false
    ∷ message 1000 (bit_or c.flags 1) (c.value - 1)
    ∷ message c.length (bit_or c.flags 1) c.value
    ∷ path true
    ∷ buffer 2500
    ∷ []
events_of c test_pr_cx =
    pause 10
    ∷ path false
    ∷ message 1000 c.flags (c.value - 1)
    ∷ message 1000 (bit_or c.flags 1) (c.value - 1)
    ∷ message c.length (bit_or c.flags 1) c.value
    ∷ path true
    ∷ buffer 2500
    ∷ []
events_of c _ = []

module _ (k : Kernel) (i : ℕ) (c : PrCase) (at_i : get_elem? sn_cases i ≡ some c)
    (drops : (c.drop == 0) ≡ false) where
  abbrev pub AtCase : Context → Type 0
  AtCase s = s.case_no ≡ pos i

  abbrev pub TellsAll : List Event → M Context (Unit {0}) → Type 0
  TellsAll new m = Tells noted k AtCase new m

  current_case_lem :
      (s : Context) (log : List Call)
      → s.case_no ≡ pos i
      → current_case k s log ≡ Outcome.returned c s log
  unfolding current_case case_at index or_fault ◌>>=◌
  current_case_lem s log e = rw (e, at_i)

  then_case :
      (new : List Event) (f : PrCase → M Context (Unit {0}))
      → TellsAll new (f c)
      → TellsAll new (current_case >>= f)
  unfolding ◌>>=◌
  then_case new f h es = record {
    at = λ s log (p, q). rw (current_case_lem s log q) ((h es).at s log (p, q));
  }

  done : (c : Call) → TellsAll (noted c) (emit c)
  done c = Tells-emit noted k AtCase c

  -- an action, then another
  then_do :
      (a b : List Event) (m n : M Context (Unit {0}))
      → TellsAll a m
      → TellsAll b n
      → TellsAll (b ++ a) (m >>= λ _. n)
  then_do a b m n hm hn = Tells-then noted k AtCase a b m _ hm (λ _. hn)

  message-Tells :
      (len stream flags value : ℕ)
      → (len == cmd_set_strreset) ≡ false
      → (len == cmd_close_asoc) ≡ false
      → TellsAll (message len flags value ∷ []) (send_asoc_msg len stream flags value)
  unfolding send_asoc_msg
  message-Tells len stream flags value e f es = Keeps-bind _ _ (search call_rules) λ s.
      rw (e, f) at
        (Tells-must_send noted k AtCase (sendmsg s.fd len flags stream value) "sendmsg" es)

  sndbuf : TellsAll (buffer 2500 ∷ []) do_setup_so_sndbuf
  unfolding do_setup_so_sndbuf
  sndbuf es =
      Keeps-bind _ _ (search call_rules)
        λ s. Tells-must noted k AtCase (setsockopt s.fd (SockOpt.so_sndbuf 2500)) "setsockopt" es

  close : TellsAll (path true ∷ []) close_asoc_streams
  unfolding close_asoc_streams
  close = then_case (path true ∷ []) _ (
      rw drops
        (then_do (path true ∷ []) [] _ _ (done (system drop_output_data)) (done (printf _ []))))

  nothing : TellsAll [] (pure tt)
  nothing es = Keeps-pure tt

  reopen : TellsAll reopened reopen_asoc_streams
  unfolding reopen_asoc_streams if_dropped reopen_steps sequence
  reopen = then_case reopened _ (
      rw drops (
        then_do (path false ∷ []) (pause 10 ∷ []) _ _ (done (system flush)) (
          then_do [] (pause 10 ∷ []) _ _ (done (printf _ []))
            (then_do (pause 10 ∷ []) [] _ _ (done (sleep 10)) nothing))))

  -- how the tests begin
  opened :
      (new : List Event) (f : PrCase → M Context (Unit {0}))
      → TellsAll new (f c)
      → TellsAll (new ++ (path true ∷ [])) (close_asoc_streams >>= λ _. current_case >>= f)
  opened new f h = then_do (path true ∷ []) new _ _ close (then_case new f h)

  opened_x :
      (new : List Event) (f : PrCase → M Context (Unit {0}))
      → TellsAll new (f c)
      → TellsAll
          ((new ++ (path true ∷ [])) ++ (buffer 2500 ∷ []))
          (do_setup_so_sndbuf >>= λ _. close_asoc_streams >>= λ _. current_case >>= f)
  opened_x new f h =
      then_do (buffer 2500 ∷ []) (new ++ (path true ∷ [])) _ _ sndbuf (opened new f h)

  send_then :
      (len flags value : ℕ) (new : List Event) (m : M Context (Unit {0}))
      → (len == cmd_set_strreset) ≡ false
      → (len == cmd_close_asoc) ≡ false
      → TellsAll new m
      → TellsAll
          (new ++ (message len flags value ∷ []))
          (send_asoc_msg len 1 flags value >>= λ _. m)
  send_then len flags value new m e f h =
      then_do (message len flags value ∷ []) new _ _ (message-Tells len 1 flags value e f) h

  wait_then :
      (new : List Event) (m : M Context (Unit {0}))
      → TellsAll new m
      → TellsAll (new ++ (pause 10 ∷ [])) (emit (sleep 10) >>= λ _. m)
  wait_then new m h = then_do (pause 10 ∷ []) new _ _ (done (sleep 10)) h

  -- the last message
  send_last :
      (len flags value : ℕ)
      → (len == cmd_set_strreset) ≡ false
      → (len == cmd_close_asoc) ≡ false
      → TellsAll
          (pause 10 ∷ path false ∷ message len flags value ∷ [])
          (send_asoc_msg len 1 flags value >>= λ _. reopen_asoc_streams)
  send_last len flags value e f = send_then len flags value reopened _ e f reopen

  module _ (no_reset : (c.length == cmd_set_strreset) ≡ false)
      (no_close : (c.length == cmd_close_asoc) ≡ false) where
    -- a message with a policy, a pause and a message without one
    one_waits :
        (flags other : ℕ)
        → TellsAll
            (pause 10
              ∷ path false
              ∷ message 1000 other 0
              ∷ pause 10
              ∷ message c.length flags c.value
              ∷ [])
            (send_asoc_msg c.length 1 flags c.value >>= λ _.
              emit (sleep 10) >>= λ _. send_asoc_msg 1000 1 other 0 >>= λ _. reopen_asoc_streams)
    one_waits flags other =
        send_then c.length flags c.value
          (pause 10 ∷ path false ∷ message 1000 other 0 ∷ pause 10 ∷ []) _ no_reset no_close
          (wait_then (pause 10 ∷ path false ∷ message 1000 other 0 ∷ []) _
            (send_last 1000 other 0 refl refl))

    -- a message of a low priority and one of a high
    two_priorities :
        (flags : ℕ)
        → TellsAll
            (pause 10
              ∷ path false
              ∷ message 1000 flags (c.value - 1)
              ∷ message c.length flags c.value
              ∷ [])
            (send_asoc_msg c.length 1 flags c.value >>= λ _.
              send_asoc_msg 1000 1 flags (c.value - 1) >>= λ _. reopen_asoc_streams)
    two_priorities flags =
        send_then c.length flags c.value
          (pause 10 ∷ path false ∷ message 1000 flags (c.value - 1) ∷ []) _ no_reset no_close
          (send_last 1000 flags (c.value - 1) refl refl)

    pub run_test_pr-Tells :
        (schedule : List Bool) (t : TestPr)
        → IsAlone t
        → TellsAll (events_of c t) (run_test_pr schedule t)
    unfolding run_test_pr do_test_pr do_test_pr_b do_test_pr_c do_test_pr_x do_test_pr_bx
        do_test_pr_cx
    run_test_pr-Tells schedule TestPr.null h = elim h [ ]
    run_test_pr-Tells schedule TestPr.test_pr_cxx h = elim h [ ]
    run_test_pr-Tells schedule TestPr.test_pr_cxxx h = elim h [ ]
    run_test_pr-Tells schedule test_pr h =
        opened
          (pause 10
            ∷ path false
            ∷ message 1000 0 0
            ∷ pause 10
            ∷ message c.length c.flags c.value
            ∷ [])
          _ (one_waits c.flags 0)
    run_test_pr-Tells schedule test_pr_b h =
        opened
          (pause 10
            ∷ path false
            ∷ message 1000 1 0
            ∷ pause 10
            ∷ message c.length (bit_or c.flags 1) c.value
            ∷ [])
          _ (one_waits (bit_or c.flags 1) 1)
    run_test_pr-Tells schedule test_pr_c h =
        opened
          (pause 10
            ∷ path false
            ∷ message 100 0 0
            ∷ message 100 1 0
            ∷ pause 10
            ∷ message 100 (bit_or c.flags 1) c.value
            ∷ [])
          _
          (send_then 100 (bit_or c.flags 1) c.value
            (pause 10 ∷ path false ∷ message 100 0 0 ∷ message 100 1 0 ∷ pause 10 ∷ []) _ refl refl
            (wait_then (pause 10 ∷ path false ∷ message 100 0 0 ∷ message 100 1 0 ∷ []) _ (
              send_then 100 1 0 (pause 10 ∷ path false ∷ message 100 0 0 ∷ []) _ refl refl
                (send_last 100 0 0 refl refl))))
    run_test_pr-Tells schedule test_pr_x h =
        opened_x
          (pause 10
            ∷ path false
            ∷ message 1000 c.flags (c.value - 1)
            ∷ message c.length c.flags c.value
            ∷ [])
          _ (two_priorities c.flags)
    run_test_pr-Tells schedule test_pr_bx h =
        opened_x
          (pause 10
            ∷ path false
            ∷ message 1000 (bit_or c.flags 1) (c.value - 1)
            ∷ message c.length (bit_or c.flags 1) c.value
            ∷ [])
          _ (two_priorities (bit_or c.flags 1))
    run_test_pr-Tells schedule test_pr_cx h =
        opened_x
          (pause 10
            ∷ path false
            ∷ message 1000 c.flags (c.value - 1)
            ∷ message 1000 (bit_or c.flags 1) (c.value - 1)
            ∷ message c.length (bit_or c.flags 1) c.value
            ∷ [])
          _
          (send_then c.length (bit_or c.flags 1) c.value
            (pause 10
              ∷ path false
              ∷ message 1000 c.flags (c.value - 1)
              ∷ message 1000 (bit_or c.flags 1) (c.value - 1)
              ∷ [])
            _ no_reset no_close
            (send_then 1000 (bit_or c.flags 1) (c.value - 1)
              (pause 10 ∷ path false ∷ message 1000 c.flags (c.value - 1) ∷ []) _ refl refl
              (send_last 1000 c.flags (c.value - 1) refl refl)))
