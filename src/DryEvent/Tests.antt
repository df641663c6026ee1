-- ===== src/DryEvent/Tests.antt =====
-- Runs of the model of sctp-dry-event.c, and its theorems at concrete inputs.
use sctp_tests.Prelude.{
  ℕ, ℤ, negsuc, ◌≡◌, refl, pos, is_negative, true, false, List, [], ◌∷◌, arith,
}
use sctp_tests.Posix.{Call, Outcome, ◌>>=◌}
use sctp_tests.Posix.Triple.{Ends, Never}
use sctp_tests.DryEvent.{rounds, server_mainloop, run_client, read_data, take_message, show_message}
use sctp_tests.DryEvent.Counts.{responses, data_received}
use sctp_tests.DryEvent.Arrivals.{Arrival, delivering, delivering-Brings}
use sctp_tests.DryEvent.Responses.{Midway, server_mainloop-Answered}
use sctp_tests.DryEvent.Descriptors.{Abandoned, AtMostOneOpen, server_mainloop-Abandoned}
use sctp_tests.DryEvent.Client.{GaveUp, client_errors}
use sctp_tests.DryEvent.Reply.{has_reply, client_stops}
use sctp_tests.DryEvent.Service.{ends_well, data_before_end, rounds_answer}

-- data, a notification, data, and the end of the stream
abbrev two_messages : List Arrival
two_messages = (false, 24, 0) ∷ (true, 20, 0) ∷ (false, 3, 1) ∷ (false, 0, 0) ∷ []

two_messages_answered : data_before_end two_messages ≡ 2
unfolding data_before_end
two_messages_answered = refl

rounds_answer_example :
    Ends
      (λ _ _ log. responses log ≡ data_before_end two_messages)
      (λ _. Never)
      Never
      (rounds 4 (pos 5) (delivering two_messages) tt [])
unfolding ends_well
rounds_answer_example =
    rounds_answer (delivering two_messages) two_messages 4 (pos 5) (delivering-Brings two_messages)
      refl (omega arith)

client_stops_example :
    Ends
      (λ status _ log. (status ≡ pos 0) × (responses log ≡ 1))
      (λ _. Never)
      Never
      (run_client 4 (delivering two_messages) tt [])
unfolding has_reply
client_stops_example =
    client_stops (delivering two_messages) two_messages 4 (delivering-Brings two_messages) refl
      (omega arith)

client_errors_example :
    Ends
      (λ status _ log. (status ≡ pos 0) × (responses log ≡ 1))
      GaveUp
      (λ log. responses log ≡ 1)
      (run_client 2 (delivering []) tt [])
client_errors_example = client_errors (delivering []) 2

server_mainloop-Answered_example :
    Ends
      (λ _ _ log. responses log ≡ data_received (delivering two_messages) log)
      (λ _. Never)
      (Midway (delivering two_messages))
      (server_mainloop 3 9 (pos 4) true (delivering two_messages) tt [])
server_mainloop-Answered_example =
    server_mainloop-Answered (delivering two_messages) 3 9 (pos 4) true tt [] refl

-- each socket weighs its number
abbrev by_number : ℤ → ℕ
by_number (pos n) = n
by_number (negsuc n) = 0

server_mainloop-Abandoned_example :
    Ends
      (λ rc _ log. (is_negative rc ≡ true) × Abandoned (delivering two_messages) by_number log)
      (λ _. Never)
      (AtMostOneOpen (delivering two_messages) by_number)
      (server_mainloop 3 9 (pos 4) false (delivering two_messages) tt [])
server_mainloop-Abandoned_example =
    server_mainloop-Abandoned (delivering two_messages) by_number 3 9 (pos 4) false tt [] refl

-- a message that fills the buffer is written past its end
abbrev full_buffer : List Arrival
full_buffer = (false, 1024, 0) ∷ []

full_buffer_faults :
    read_data (pos 5) (delivering full_buffer) tt []
    ≡ Outcome.faulted (Call.recvmsg (pos 5) 1024 ∷ [])
unfolding read_data take_message show_message ◌>>=◌
full_buffer_faults = refl
