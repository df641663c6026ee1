-- ===== src/PeelOff/Tests.antt =====
-- Runs of the model of the client of peeloffbusy, and its theorems at concrete inputs.
use sctp_tests.Prelude.{◌≡◌, ◌≤◌, refl, pos, true, false, [], ◌∷◌, if◌then◌else◌}
use sctp_tests.Posix.{trace_of, emit, interleave, with_thread, sequence, ◌>>=◌}
use sctp_tests.Posix.Triple.{Ends, Never}
use sctp_tests.Posix.Started.{Unstarted}
use sctp_tests.Posix.Dropping.{dropping, blocked}
use sctp_tests.Posix.Volume.{volume}
use sctp_tests.Harness.Peer.{scripted}
use sctp_tests.PeelOff.{
  Busy, get_asoc_id, if_associated, peel, peeloff_sctp, send_round, main_steps, finish,
  return_status, run_threads, main,
}
use sctp_tests.PeelOff.Verdict.{broken, once, main-Judged}
use sctp_tests.PeelOff.Firewall.{main-Flushed}

abbrev start : Busy
start = record { pass = true; associd = 7 }

main-Judged_example :
    Ends
      (λ status _ log.
        (status ≡ (if broken (scripted []) log then pos 0 else pos 1)) × (volume once log ≤ 100))
      (λ _. Never)
      (Unstarted (scripted []))
      (main (true ∷ false ∷ true ∷ []) "10.0.0.1" "8888" (scripted []) start [])
main-Judged_example = main-Judged (scripted []) (true ∷ false ∷ true ∷ []) "10.0.0.1" "8888" start

main-Flushed_example :
    Ends
      (λ _ _ log. blocked (scripted []) log ≡ false)
      (λ _. Never)
      Never
      (main (false ∷ true ∷ true ∷ []) "10.0.0.1" "8888" (scripted []) start [])
main-Flushed_example =
    main-Flushed (scripted []) (true ∷ true ∷ []) "10.0.0.1" "8888" start (λ log. refl)
      (λ log rule. refl)

-- The second thread ends before main() hands its rule to iptables: the rule stays.
rule_left :
    dropping
      (trace_of (main (true ∷ true ∷ true ∷ true ∷ []) "10.0.0.1" "8888" (scripted []) start []))
    ≡ true
unfolding main run_threads with_thread interleave main_steps peeloff_sctp get_asoc_id if_associated
    peel sequence send_round finish return_status emit ◌>>=◌
rule_left = refl
