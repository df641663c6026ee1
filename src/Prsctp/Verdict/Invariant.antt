-- ===== src/Prsctp/Verdict/Invariant.antt =====
-- The invariant of the receiving loop in sctp_pr.c.
use sctp_tests.Prelude.{
  ℕ, ◌+◌, ◌<◌, ◌^◌, ◌≡◌, ◌≢◌, ◌≤◌, sym, ◌∙◌, ap, pos, true, false, some, List, [], ◌∷◌, get_elem?,
  arith, ◌==◌,
}
use sctp_tests.Posix.{Call, Kernel}
use sctp_tests.Posix.Triple.{Ends, Never, Ends-map}
use sctp_tests.Harness.{Context, cmd_set_strreset, cmd_close_asoc}
use sctp_tests.Harness.Peer.{Message, receptions}
use sctp_tests.Harness.Script.{
  has_close, has_reset, data_of, lengths, sum, data_message, reset_message, close_message,
}
use sctp_tests.Harness.Loop.{IsLoopInvariant}
use sctp_tests.Prsctp.Cases.{CheckPr, PrCase, sn_cases}
use sctp_tests.Prsctp.Checks.{cb4}
use sctp_tests.Prsctp.Score.{Score, score_of, score, scores}
use sctp_tests.Prsctp.Program.{check}
use sctp_tests.Prsctp.Verdict.Check.{Scored, check-Ends}

module _ (i : ℕ) (c : PrCase) (at_i : get_elem? sn_cases i ≡ some c) where
  -- The status will be `v`, and the sum of all lengths fits eight bytes.
  pub record Expects (v : ℕ) (rest : List Message) (s : Context) : Type 0 where
    pub is_case : s.case_no ≡ pos i
    pub room : cb4 s + sum (lengths (data_of rest)) < 2 ^ 63
    pub verdict : (scores c.do_check_pr (lengths (data_of rest)) (score_of s)).status ≡ v
    pub closes : has_close rest ≡ true
    pub stays : has_reset rest ≡ false

  -- The sum of the lengths, after one more message of a case that adds them up.
  total_le : (which : CheckPr) (len : ℕ) (r : Score) → (score which len r).total ≤ r.total + len
  total_le CheckPr.null len r = omega arith
  total_le CheckPr.check_pr len r = omega arith
  total_le CheckPr.check_pr_c len r = omega arith
  total_le CheckPr.check_pr_cx len r = omega arith
  total_le CheckPr.check_pr_cxx len r = omega arith

  module _ (checks : c.do_check_pr ≢ CheckPr.null) where
    next_Expects :
        (v len sid : ℕ) (rest : List Message) (s s' : Context)
        → (len == cmd_set_strreset) ≡ false
        → (len == cmd_close_asoc) ≡ false
        → Expects v ((len, sid) ∷ rest) s
        → score_of s' ≡ score c.do_check_pr len (score_of s)
        → s'.case_no ≡ s.case_no
        → Expects v rest s'
    unfolding scores
    next_Expects v len sid rest s s' e f r same kept =
        let (p, q, t) = data_message len sid rest e f in
        let grown : cb4 s' ≡ (score c.do_check_pr len (score_of s)).total =
          ap (λ x. x.total) same in
        let bound = total_le c.do_check_pr len (score_of s) in
        let before : cb4 s + (len + sum (lengths (data_of rest))) < 2 ^ 63 = rw p at r.room in
        record {
          is_case = kept ∙ r.is_case;
          room = omega arith;
          verdict = rw same (rw p at r.verdict);
          closes = sym q ∙ r.closes;
          stays = sym t ∙ r.stays;
        }

    counts_Expects :
        (k : Kernel) (v len sid : ℕ) (rest : List Message) (s : Context) (log : List Call)
        → (len == cmd_set_strreset) ≡ false
        → (len == cmd_close_asoc) ≡ false
        → Expects v ((len, sid) ∷ rest) s
        → Ends
            (λ _ s' log'. Expects v rest s' × (receptions log' ≡ receptions log))
            (λ _. Never)
            Never
            (check k (record s { sri_stream = sid; cb2 = len }) log)
    counts_Expects k v len sid rest s log e f r =
        let (p, _, _) = data_message len sid rest e f in
        let t : Context = record s { sri_stream = sid; cb2 = len } in
        let before : cb4 s + (len + sum (lengths (data_of rest))) < 2 ^ 63 = rw p at r.room in
        Ends-map (Scored c.do_check_pr t log)
          (λ _ s' log'. Expects v rest s' × (receptions log' ≡ receptions log)) (λ _. Never) Never
          (check k t log) (check-Ends i c at_i k t log r.is_case checks (omega arith))
          (λ _ s' log' (same, kept, read). (next_Expects v len sid rest s s' e f r same kept, read))

    closes_Expects :
        (v len sid : ℕ) (rest : List Message) (s : Context)
        → (len == cmd_set_strreset) ≡ false
        → (len == cmd_close_asoc) ≡ true
        → Expects v ((len, sid) ∷ rest) s
        → s.cb1 ≡ v
    unfolding scores
    closes_Expects v len sid rest s e f r = rw (close_message len sid rest e f) at r.verdict

    resets_Expects :
        (v len sid id : ℕ) (rest : List Message) (s : Context)
        → (len == cmd_set_strreset) ≡ true
        → Expects v ((len, sid) ∷ rest) s
        → Expects v rest (record s { sri_stream = sid; asoc_id = id })
    resets_Expects v len sid id rest s e r =
        let (_, _, t) = reset_message len sid rest e in cc (t, r.stays)

    Expects-ends : (v : ℕ) (s : Context) → ¬ Expects v [] s
    unfolding has_close
    Expects-ends v s r = cc (r.closes)

    pub Expects-IsLoopInvariant :
        (k : Kernel) (v : ℕ) → IsLoopInvariant k check (Expects v) (λ s. s.cb1 ≡ v)
    Expects-IsLoopInvariant k v = record {
      counts = counts_Expects k v;
      resets = resets_Expects v;
      closes = closes_Expects v;
      ends = Expects-ends v;
    }
