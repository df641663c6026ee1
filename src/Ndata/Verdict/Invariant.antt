-- ===== src/Ndata/Verdict/Invariant.antt =====
-- The invariant of the receiving loop in the conformance cases of sctp_ndata.c.
use sctp_tests.Prelude.{
  ℕ, ◌+◌, ◌≤◌, ◌≡◌, sym, ◌∙◌, pos, true, false, some, List, [], ◌∷◌, length, get_elem?, drop, arith,
  ◌==◌, if◌then◌else◌,
}
use sctp_tests.Posix.{Call, Kernel}
use sctp_tests.Posix.Triple.{Ends, Never, Ends-map}
use sctp_tests.Harness.{Context, cmd_set_strreset, cmd_close_asoc}
use sctp_tests.Harness.Peer.{Message, receptions}
use sctp_tests.Harness.Script.{
  has_close, data_of, streams, data_message, reset_message, close_message,
}
use sctp_tests.Harness.Loop.{IsLoopInvariant}
use sctp_tests.Ndata.Cases.{SnCase, assert_tests, sn_cases}
use sctp_tests.Ndata.Program.{check}
use sctp_tests.Ndata.Verdict.Check.{
  agrees, get_elem?-drop, head_of_room, verdict_step, Counted, check-Ends,
}

module _ (i : ℕ) (c : SnCase) (at_i : get_elem? sn_cases i ≡ some c) where
  module _ (asserts : c.do_assert_tests ≡ assert_tests) where
    -- The verdict will be `v`, and there is room for what is still to come.
    pub record Expects (v : ℕ) (rest : List Message) (s : Context) : Type 0 where
      pub is_case : s.case_no ≡ pos i
      pub room : length (streams (data_of rest)) ≤ length (drop s.cb0 c.sched_sids)
      pub verdict :
          (if agrees (streams (data_of rest)) (drop s.cb0 c.sched_sids) then s.cb1 else 1) ≡ v
      pub closes : has_close rest ≡ true

    next_Expects :
        (v len sid y : ℕ) (ys : List ℕ) (rest : List Message) (s : Context)
        → (len == cmd_set_strreset) ≡ false
        → (len == cmd_close_asoc) ≡ false
        → drop s.cb0 c.sched_sids ≡ y ∷ ys
        → Expects v ((len, sid) ∷ rest) s
        → Expects v rest (record s {
          sri_stream = sid;
          cb2 = len;
          cb0 = s.cb0 + 1;
          cb1 = if sid == y then s.cb1 else 1;
        })
    next_Expects v len sid y ys rest s e f h r =
        let (p, q, _) = data_message len sid rest e f in
        let (_, next_drop) = get_elem?-drop s.cb0 c.sched_sids y ys h in
        record {
          is_case = r.is_case;
          room = rw next_drop (omega (arith, rw (p, h) at r.room));
          verdict =
              rw next_drop
                (verdict_step sid y s.cb1 v (streams (data_of rest)) ys (rw (p, h) at r.verdict));
          closes = sym q ∙ r.closes;
        }

    counts_Expects :
        (k : Kernel) (v len sid : ℕ) (rest : List Message) (s : Context) (log : List Call)
        → (len == cmd_set_strreset) ≡ false
        → (len == cmd_close_asoc) ≡ false
        → Expects v ((len, sid) ∷ rest) s
        → Ends
            (λ _ s' log'. Expects v rest s' × (receptions log' ≡ receptions log))
            (λ _. Never)
            Never
            (check k (record s { sri_stream = sid; cb2 = len }) log)
    counts_Expects k v len sid rest s log e f r =
        let (p, _, _) = data_message len sid rest e f in
        let (y, ys, h) =
          head_of_room (drop s.cb0 c.sched_sids) (length (streams (data_of rest)))
            (rw p at r.room) in
        let t : Context = record s { sri_stream = sid; cb2 = len } in
        Ends-map (Counted y t log)
          (λ _ s' log'. Expects v rest s' × (receptions log' ≡ receptions log)) (λ _. Never) Never
          (check k t log) (check-Ends i c at_i asserts k t log y ys r.is_case h)
          (λ _ s' log' (same, read). (rw same (next_Expects v len sid y ys rest s e f h r), read))

    closes_Expects :
        (v len sid : ℕ) (rest : List Message) (s : Context)
        → (len == cmd_set_strreset) ≡ false
        → (len == cmd_close_asoc) ≡ true
        → Expects v ((len, sid) ∷ rest) s
        → s.cb1 ≡ v
    unfolding agrees
    closes_Expects v len sid rest s e f r = rw (close_message len sid rest e f) at r.verdict

    resets_Expects :
        (v len sid id : ℕ) (rest : List Message) (s : Context)
        → (len == cmd_set_strreset) ≡ true
        → Expects v ((len, sid) ∷ rest) s
        → Expects v rest (record s { sri_stream = sid; asoc_id = id })
    resets_Expects v len sid id rest s e r =
        let (p, q, _) = reset_message len sid rest e in
        record {
          is_case = r.is_case;
          room = rw p at r.room;
          verdict = rw p at r.verdict;
          closes = sym q ∙ r.closes;
        }

    Expects-ends : (v : ℕ) (s : Context) → ¬ Expects v [] s
    unfolding has_close
    Expects-ends v s r = cc (r.closes)

    pub Expects-IsLoopInvariant :
        (k : Kernel) (v : ℕ) → IsLoopInvariant k check (Expects v) (λ s. s.cb1 ≡ v)
    Expects-IsLoopInvariant k v = record {
      counts = counts_Expects k v;
      resets = resets_Expects v;
      closes = closes_Expects v;
      ends = Expects-ends v;
    }
