-- ===== src/Strreset/Verdict.antt =====
-- The verdict of the receiver of strreset.c, from the messages that it gets.
mod Check
mod Invariant
unfoldable pub use Check.{messages, reaches}
use sctp_tests.Prelude.{
  ℕ, ◌*◌, ◌≤◌, ◌≡◌, ◌≢◌, refl, ap, String, pos, true, some, List, [], length, get_elem?,
  if◌then◌else◌,
}
use sctp_tests.Posix.{Call, Kernel, gets, ◌>>=◌}
use sctp_tests.Posix.Triple.{Ends, Never, Triple, Triple-then}
use sctp_tests.Harness.{Context, zeroed, create_listen_sk, enable_sk_recvinfo, serve}
use sctp_tests.Harness.Peer.{Message, receptions, Delivers}
use sctp_tests.Harness.Script.{has_close, data_of, lengths}
use sctp_tests.Harness.Quiet.{create_listen_sk-Quiet, enable_sk_recvinfo-Quiet}
use sctp_tests.Harness.Loop.{serve-Ends}
use sctp_tests.Strreset.Cases.{CheckReset, ResetCase, sn_cases}
use sctp_tests.Strreset.Shared.{enable_strreset_mask}
use sctp_tests.Strreset.Program.{check, do_server}
use Invariant.{Expects, Expects-IsLoopInvariant}

module _ (i : ℕ) (c : ResetCase) (at_i : get_elem? sn_cases i ≡ some c)
    (checks : c.do_check_pr ≢ CheckReset.null) where
  abbrev Fresh : Context → Type 0
  Fresh s = (s.case_no ≡ pos i) × (s.cb3 ≡ 0) × (s.cb1 ≡ 1)

  module _ (k : Kernel) (script : List Message) (d : Delivers k script) where
    abbrev expected : ℕ
    expected =
        if reaches (messages c.do_check_pr * c.value) 0 (lengths (data_of script)) then 0 else 1

    start_Expects :
        (s : Context) → has_close script ≡ true → Fresh s → Expects i c at_i expected script s
    start_Expects s closes (e, f, g) = record { is_case = e; verdict = rw (f, g); closes = closes }

    serve_verdict :
        (fuel : ℕ)
        → has_close script ≡ true
        → length script ≤ fuel
        → Triple k
            (λ s log. Fresh s × (receptions log ≡ 0))
            (λ _ s _. s.cb1 ≡ expected)
            (λ _. Never)
            Never
            (serve enable_strreset_mask check fuel)
    serve_verdict fuel closes fits = record {
      at = λ s log (fresh, e).
          serve-Ends k script d enable_strreset_mask check (Expects i c at_i expected)
            (λ t. t.cb1 ≡ expected) (Expects-IsLoopInvariant i c at_i checks k expected) script fuel
            s log fits (rw e) (start_Expects s closes fresh);
    }

    status_Triple :
        Triple {S = Context} k
          (λ s _. s.cb1 ≡ expected)
          (λ status _ _. status ≡ pos expected)
          (λ _. Never)
          Never
          (gets (λ s. pos s.cb1))
    unfolding gets
    status_Triple = record { at = λ s log h. ap pos h }

    -- On a kernel that delivers messages with a command to close among them, the receiver of a case
    -- whose check is not null terminates. It returns 0 if after some data message the lengths of the
    -- data so far add up to just the check's number of messages times the case's length, else 1.
    pub reset_verdict :
        (fuel : ℕ) (ip port : String)
        → has_close script ≡ true
        → length script ≤ fuel
        → Ends
            (λ status _ _.
              status
              ≡ pos (
                  if reaches (messages c.do_check_pr * c.value) 0 (lengths (data_of script))
                  then 0
                  else 1))
            (λ _. Never)
            Never
            (do_server fuel ip port (pos i) k zeroed [])
    unfolding do_server ◌>>=◌
    reset_verdict fuel ip port closes fits =
        (Triple-then (create_listen_sk ip port) _
            (create_listen_sk-Quiet k script d Fresh 0 ip port (λ fd s h. h))
            λ _. Triple-then enable_sk_recvinfo _ (enable_sk_recvinfo-Quiet k script d Fresh 0) λ _.
              Triple-then (serve enable_strreset_mask check fuel) _ (serve_verdict fuel closes fits)
                λ _. status_Triple).at
          (record zeroed { case_no = pos i; cb1 = 1 }) [] ((refl, refl, refl), refl)
