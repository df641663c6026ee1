-- ===== src/HashTable/Tests.antt =====
-- Runs of the model of the client of sctphashtable, and its theorems at concrete inputs.
use sctp_tests.Prelude.{ℕ, ◌*◌, ◌≡◌, ◌≤◌, ◌<◌, refl, ℤ, pos, ◌⊎◌, []}
use sctp_tests.Posix.Triple.{Ends}
use sctp_tests.Posix.Dropping.{AnyExit}
use sctp_tests.Harness.{atoi}
use sctp_tests.Harness.Peer.{scripted}
use sctp_tests.HashTable.{Perf, rounds_of, address, decimal, decimal_from, run}
use sctp_tests.HashTable.Bounds.{Quits, run-Returns}
use sctp_tests.HashTable.Closings.{Settled, run-Settled}
use sctp_tests.Posix.Volume.{volume}
use sctp_tests.HashTable.Messages.{run-Sent}
use sctp_tests.HashTable.Decode.{decoded, decoded-address}

abbrev start : Perf
start = record { fds = λ i j. pos 0; total_len = 0 }

address_17_3 : address 2 17 3 ≡ "172.16.17.3"
unfolding address decimal decimal_from
address_17_3 = refl

decoded-address_example : decoded 2 (address 2 17 3) ≡ (17, 3)
decoded-address_example = decoded-address 2 17 3

run-Returns_example :
    Ends
      (λ status _ _. (rounds_of (atoi "12") ≤ 50) × ((status ≡ pos 0) ⊎ (status ≡ pos 1)))
      Quits
      (λ _. 50 < rounds_of (atoi "12"))
      (run "10.0.0.1" "8888" "7777" "12" (scripted []) start [])
run-Returns_example = run-Returns (scripted []) "12" "10.0.0.1" "8888" "7777" start []

abbrev each_byte : ℕ → ℕ
each_byte len = len

abbrev each : ℤ → ℕ
each fd = 1

run-Settled_example :
    Ends
      (Settled (scripted []) each)
      AnyExit
      (λ _. Unit {0})
      (run "10.0.0.1" "8888" "7777" "12" (scripted []) start [])
run-Settled_example = run-Settled (scripted []) each "10.0.0.1" "8888" "7777" "12" start

run-Sent_example :
    Ends
      (λ _ _ log. volume each_byte log ≡ 100000 * 1)
      AnyExit
      (λ _. Unit {0})
      (run "10.0.0.1" "8888" "7777" "12" (scripted []) start [])
run-Sent_example = run-Sent (scripted []) each_byte "10.0.0.1" "8888" "7777" "12" start
