-- ===== src/Prsctp/Verdict.antt =====
-- The verdict of the receiver of sctp_pr.c, from the messages that it gets.
mod Check
mod Invariant
use sctp_tests.Prelude.{
  ℕ, zero, ◌+◌, ◌<◌, ◌^◌, ◌≡◌, ◌≢◌, ◌≤◌, refl, ap, String, pos, true, false, some, List, [], ◌∷◌,
  length, get_elem?, arith, if◌then◌else◌,
}
use sctp_tests.Posix.{Call, Kernel, Outcome, gets, emit, ◌>>=◌}
use sctp_tests.Posix.Triple.{Ends, Never, Triple, Triple-then}
use sctp_tests.Harness.{Context, zeroed, create_listen_sk, enable_sk_recvinfo, serve}
use sctp_tests.Harness.Peer.{Message, receptions, Delivers}
use sctp_tests.Harness.Script.{has_close, has_reset, data_of, lengths, sum}
use sctp_tests.Harness.Quiet.{create_listen_sk-Quiet, enable_sk_recvinfo-Quiet}
use sctp_tests.Harness.Loop.{serve-Ends}
use sctp_tests.Prsctp.Cases.{CheckPr, PrCase, sn_cases}
use sctp_tests.Prsctp.Score.{Score, score_of, scores, start, passes, scores-start}
use sctp_tests.Prsctp.Checks.{cb4}
use sctp_tests.Prsctp.Program.{check, do_server}
use Invariant.{Expects, Expects-IsLoopInvariant}

module _ (i : ℕ) (c : PrCase) (at_i : get_elem? sn_cases i ≡ some c)
    (checks : c.do_check_pr ≢ CheckPr.null) where
  abbrev Fresh : Context → Type 0
  Fresh s = (s.case_no ≡ pos i) × (s.cb3 ≡ 0) × (s.cb1 ≡ 1) × (cb4 s ≡ 0)

  module _ (k : Kernel) (script : List Message) (d : Delivers k script) where
    abbrev expected : ℕ
    expected = if passes c.do_check_pr (lengths (data_of script)) then 0 else 1

    start_Expects :
        (s : Context)
        → has_close script ≡ true
        → has_reset script ≡ false
        → sum (lengths (data_of script)) < 2 ^ 63
        → Fresh s
        → Expects i c at_i expected script s
    start_Expects s closes stays room (e, f, g, h) = record {
      is_case = e;
      room = omega arith;
      verdict = rw (f, g, h) (scores-start c.do_check_pr (lengths (data_of script)));
      closes = closes;
      stays = stays;
    }

    serve_verdict :
        (fuel : ℕ)
        → has_close script ≡ true
        → has_reset script ≡ false
        → sum (lengths (data_of script)) < 2 ^ 63
        → length script ≤ fuel
        → Triple k
            (λ s log. Fresh s × (receptions log ≡ 0))
            (λ _ s _. s.cb1 ≡ expected)
            (λ _. Never)
            Never
            (serve 1 check fuel)
    serve_verdict fuel closes stays room fits = record {
      at = λ s log (fresh, e).
          serve-Ends k script d 1 check (Expects i c at_i expected) (λ t. t.cb1 ≡ expected)
            (Expects-IsLoopInvariant i c at_i checks k expected) script fuel s log fits (rw e)
            (start_Expects s closes stays room fresh);
    }

    status_Triple :
        Triple {S = Context} k
          (λ s _. s.cb1 ≡ expected)
          (λ status _ _. status ≡ pos expected)
          (λ _. Never)
          Never
          (gets (λ s. pos s.cb1))
    unfolding gets
    status_Triple = record { at = λ s log h. ap pos h }

    -- On a kernel that delivers messages with a command to close among them, before which no command
    -- allows resets and the lengths of the data stay below 2 ^ 63 in sum, the receiver of a case
    -- whose check is not null terminates. It returns 0 if the lengths pass the case's check, else 1.
    pub policy_verdict :
        (fuel : ℕ) (ip port : String)
        → has_close script ≡ true
        → has_reset script ≡ false
        → sum (lengths (data_of script)) < 2 ^ 63
        → length script ≤ fuel
        → Ends
            (λ status _ _.
              status ≡ pos (if passes c.do_check_pr (lengths (data_of script)) then 0 else 1))
            (λ _. Never)
            Never
            (do_server fuel ip port (pos i) k zeroed [])
    unfolding do_server ◌>>=◌
    policy_verdict fuel ip port closes stays room fits =
        (Triple-then (create_listen_sk ip port) _
            (create_listen_sk-Quiet k script d Fresh 0 ip port (λ fd s h. h))
            λ _. Triple-then enable_sk_recvinfo _ (enable_sk_recvinfo-Quiet k script d Fresh 0) λ _.
              Triple-then (serve 1 check fuel) _ (serve_verdict fuel closes stays room fits)
                λ _. status_Triple).at
          (record zeroed { case_no = pos i; cb1 = 1 }) [] ((refl, refl, refl, refl), refl)
