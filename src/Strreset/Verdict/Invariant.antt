-- ===== src/Strreset/Verdict/Invariant.antt =====
-- The invariant of the receiving loop in strreset.c.
use sctp_tests.Prelude.{
  ℕ, ◌+◌, ◌*◌, ◌≡◌, ◌≢◌, sym, ◌∙◌, pos, true, false, some, List, [], ◌∷◌, get_elem?, ◌==◌,
  if◌then◌else◌,
}
use sctp_tests.Posix.{Call, Kernel}
use sctp_tests.Posix.Triple.{Ends, Never, Ends-map}
use sctp_tests.Harness.{Context, cmd_set_strreset, cmd_close_asoc}
use sctp_tests.Harness.Peer.{Message, receptions}
use sctp_tests.Harness.Script.{
  has_close, data_of, lengths, data_message, reset_message, close_message,
}
use sctp_tests.Harness.Loop.{IsLoopInvariant}
use sctp_tests.Strreset.Cases.{CheckReset, ResetCase, sn_cases}
use sctp_tests.Strreset.Program.{check}
use sctp_tests.Strreset.Verdict.Check.{messages, reaches, Totalled, verdict_step, check-Ends}

module _ (i : ℕ) (c : ResetCase) (at_i : get_elem? sn_cases i ≡ some c) where
  abbrev total : ℕ
  total = messages c.do_check_pr * c.value

  -- The status will be `v`.
  pub record Expects (v : ℕ) (rest : List Message) (s : Context) : Type 0 where
    pub is_case : s.case_no ≡ pos i
    pub verdict : (if reaches total s.cb3 (lengths (data_of rest)) then 0 else s.cb1) ≡ v
    pub closes : has_close rest ≡ true

  module _ (checks : c.do_check_pr ≢ CheckReset.null) where
    next_Expects :
        (v len sid : ℕ) (rest : List Message) (s : Context)
        → (len == cmd_set_strreset) ≡ false
        → (len == cmd_close_asoc) ≡ false
        → Expects v ((len, sid) ∷ rest) s
        → Expects v rest (record s {
          sri_stream = sid;
          cb2 = len;
          cb3 = s.cb3 + len;
          cb1 = if s.cb3 + len == total then 0 else s.cb1;
        })
    next_Expects v len sid rest s e f r =
        let (p, q, _) = data_message len sid rest e f in
        record {
          is_case = r.is_case;
          verdict =
              verdict_step total s.cb3 len s.cb1 v (lengths (data_of rest)) (rw p at r.verdict);
          closes = sym q ∙ r.closes;
        }

    counts_Expects :
        (k : Kernel) (v len sid : ℕ) (rest : List Message) (s : Context) (log : List Call)
        → (len == cmd_set_strreset) ≡ false
        → (len == cmd_close_asoc) ≡ false
        → Expects v ((len, sid) ∷ rest) s
        → Ends
            (λ _ s' log'. Expects v rest s' × (receptions log' ≡ receptions log))
            (λ _. Never)
            Never
            (check k (record s { sri_stream = sid; cb2 = len }) log)
    counts_Expects k v len sid rest s log e f r =
        let t : Context = record s { sri_stream = sid; cb2 = len } in
        Ends-map (Totalled total t log)
          (λ _ s' log'. Expects v rest s' × (receptions log' ≡ receptions log)) (λ _. Never) Never
          (check k t log) (check-Ends i c at_i k t log r.is_case checks)
          (λ _ s' log' (same, read). (rw same (next_Expects v len sid rest s e f r), read))

    closes_Expects :
        (v len sid : ℕ) (rest : List Message) (s : Context)
        → (len == cmd_set_strreset) ≡ false
        → (len == cmd_close_asoc) ≡ true
        → Expects v ((len, sid) ∷ rest) s
        → s.cb1 ≡ v
    unfolding reaches
    closes_Expects v len sid rest s e f r = rw (close_message len sid rest e f) at r.verdict

    resets_Expects :
        (v len sid id : ℕ) (rest : List Message) (s : Context)
        → (len == cmd_set_strreset) ≡ true
        → Expects v ((len, sid) ∷ rest) s
        → Expects v rest (record s { sri_stream = sid; asoc_id = id })
    resets_Expects v len sid id rest s e r =
        let (p, q, _) = reset_message len sid rest e in
        record { is_case = r.is_case; verdict = rw p at r.verdict; closes = sym q ∙ r.closes }

    Expects-ends : (v : ℕ) (s : Context) → ¬ Expects v [] s
    unfolding has_close
    Expects-ends v s r = cc (r.closes)

    pub Expects-IsLoopInvariant :
        (k : Kernel) (v : ℕ) → IsLoopInvariant k check (Expects v) (λ s. s.cb1 ≡ v)
    Expects-IsLoopInvariant k v = record {
      counts = counts_Expects k v;
      resets = resets_Expects v;
      closes = closes_Expects v;
      ends = Expects-ends v;
    }
