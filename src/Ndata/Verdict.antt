-- ===== src/Ndata/Verdict.antt =====
-- The verdict of the receiver of sctp_ndata.c in the conformance cases, from the messages that it
-- gets.
pub mod Check
mod Invariant
unfoldable pub use Check.{agrees}
use sctp_tests.Prelude.{
  ℕ, zero, suc, ◌+◌, ◌≤◌, ◌≡◌, refl, ap, sym, ◌∙◌, String, pos, Bool, true, false, ◌&&◌, some, List,
  [], ◌∷◌, inl, inr, length, get_elem?, drop, arith, Bool-cases, ◌==◌, if◌then◌else◌,
}
use native.Mathlib.Numerals.{add-one}
use sctp_tests.Posix.{Call, Kernel, Outcome, gets, index, or_fault, emit, ◌>>=◌}
use sctp_tests.Posix.Triple.{Ends, Never, Ends-map, Triple, Triple-then}
use sctp_tests.Harness.{
  Context, zeroed, cmd_set_strreset, cmd_close_asoc, create_listen_sk, enable_sk_recvinfo, serve,
}
use sctp_tests.Harness.Peer.{Message, receptions, Delivers}
use sctp_tests.Harness.Script.{
  has_close, data_of, streams, data_message, reset_message, close_message,
}
use sctp_tests.Harness.Quiet.{create_listen_sk-Quiet, enable_sk_recvinfo-Quiet}
use sctp_tests.Harness.Loop.{IsLoopInvariant, serve-Ends}
use sctp_tests.Ndata.Cases.{SnCase, assert_tests, sn_cases, case_at, current_case}
use sctp_tests.Ndata.Checks.{note_sid, do_assert_tests, run_assert_tests}
use sctp_tests.Ndata.Program.{check, enable_reset_stream_req, do_server}
use Invariant.{Expects, Expects-IsLoopInvariant}

module _ (i : ℕ) (c : SnCase) (at_i : get_elem? sn_cases i ≡ some c) where
  module _ (asserts : c.do_assert_tests ≡ assert_tests) where
    abbrev Fresh : Context → Type 0
    Fresh s = (s.case_no ≡ pos i) × (s.cb0 ≡ 0) × (s.cb1 ≡ 0)

    module _ (k : Kernel) (script : List Message) (d : Delivers k script) where
      abbrev expected : ℕ
      expected = if agrees (streams (data_of script)) c.sched_sids then 0 else 1

      start_Expects :
          (s : Context)
          → has_close script ≡ true
          → length (streams (data_of script)) ≤ length c.sched_sids
          → Fresh s
          → Expects i c at_i asserts expected script s
      start_Expects s closes room (e, f, g) = record {
        is_case = e;
        room = rw f room;
        verdict = rw (f, g);
        closes = closes;
      }

      serve_verdict :
          (fuel : ℕ)
          → has_close script ≡ true
          → length (streams (data_of script)) ≤ length c.sched_sids
          → length script ≤ fuel
          → Triple k
              (λ s log. Fresh s × (receptions log ≡ 0))
              (λ _ s _. s.cb1 ≡ expected)
              (λ _. Never)
              Never
              (serve enable_reset_stream_req check fuel)
      serve_verdict fuel closes room fits = record {
        at = λ s log (fresh, e).
            serve-Ends k script d enable_reset_stream_req check (Expects i c at_i asserts expected)
              (λ t. t.cb1 ≡ expected) (Expects-IsLoopInvariant i c at_i asserts k expected) script
              fuel s log fits (rw e) (start_Expects s closes room fresh);
      }

      status_Triple :
          Triple {S = Context} k
            (λ s _. s.cb1 ≡ expected)
            (λ status _ _. status ≡ pos expected)
            (λ _. Never)
            Never
            (gets (λ s. pos s.cb1))
      unfolding gets
      status_Triple = record { at = λ s log h. ap pos h }

      -- On a kernel that delivers messages with a command to close among them, and no more data
      -- messages before it than the case lists, the receiver of a conformance case terminates, and
      -- returns 0 if the streams of its data messages are a beginning of the case's list, else 1.
      pub server_verdict :
          (fuel : ℕ) (ip port : String)
          → has_close script ≡ true
          → length (streams (data_of script)) ≤ length c.sched_sids
          → length script ≤ fuel
          → Ends
              (λ status _ _.
                status ≡ pos (if agrees (streams (data_of script)) c.sched_sids then 0 else 1))
              (λ _. Never)
              Never
              (do_server fuel ip port (pos i) k zeroed [])
      unfolding do_server ◌>>=◌
      server_verdict fuel ip port closes room fits =
          (Triple-then (create_listen_sk ip port) _
              (create_listen_sk-Quiet k script d Fresh 0 ip port (λ fd s h. h))
              λ _.
                Triple-then enable_sk_recvinfo _ (enable_sk_recvinfo-Quiet k script d Fresh 0) λ _.
                  Triple-then (serve enable_reset_stream_req check fuel) _
                    (serve_verdict fuel closes room fits) λ _. status_Triple).at
            (record zeroed { case_no = pos i }) [] ((refl, refl, refl), refl)
