-- ===== src/DryEvent/Client.antt =====
-- The client of sctp-dry-event.c: what it sends, how it ends, and that it ends.
use sctp_tests.Prelude.{
  ℕ, zero, suc, ◌≡◌, refl, String, ℤ, pos, negsuc, is_zero, is_negative, false, ◌||◌, List, [], ◌∷◌,
  arith, if◌then◌else◌,
}
use sctp_tests.Posix.{
  Call, Kernel, Received, failed, got, perror, send, M, call, pure, exit, fault, out_of_fuel, close,
  emit, print, ◌>>=◌, ◌>>◌,
}
use sctp_tests.Posix.Triple.{
  Ends, Triple, Triple-then, Triple-if, Triple-elim, Keeps, Keeps-pure, Keeps-bind, keeps_rules,
}
use sctp_tests.Posix.Rules.{Adds, call_rules}
use sctp_tests.DryEvent.{
  or_return, or_report, make_nodelay, create_sctp_socket, create_sctp_socket_client, show_message,
  take_message, read_data, send_data, wait_for_response, receive_response, send_message, run_client,
}
use sctp_tests.DryEvent.Counts.{responses}

-- The last call has reported a failure.
abbrev pub LastReported : List Call → Type 0
LastReported (perror what ∷ log) = Unit
LastReported _ = ⊥

-- The program has exited with status 1, right after a report.
abbrev pub GaveUp : ℤ → List Call → Type 0
GaveUp status log = (status ≡ pos 1) × LastReported log

module _ (k : Kernel) where
  -- So many messages have been sent.
  abbrev SentSo : ℕ → Unit {0} → List Call → Type 0
  SentSo n s log = responses log ≡ n

  abbrev SentOne : List Call → Type 0
  SentOne log = responses log ≡ 1

  abbrev IsSilent : Call → Type 0
  IsSilent (send fd len ppid sid flags) = ⊥
  IsSilent _ = Unit

  silent : (n : ℕ) (c : Call) → IsSilent c → Adds (SentSo n) c
  silent n (Call.send fd len ppid sid flags) h = elim h [ ]
  silent n _ h = record { at = λ s log p. p }

  abbrev Quietly : {A : Type 0} → ℕ → M (Unit {0}) A → Type 0
  Quietly n m = Keeps k (SentSo n) GaveUp SentOne m

  or_return-Quietly :
      (rc : ℤ) (later : M (Unit {0}) ℤ) → Quietly 0 later → Quietly 0 (or_return rc later)
  unfolding or_return
  or_return-Quietly rc later h = search keeps_rules

  or_report-Quietly :
      (what : String) (rc : ℤ) (later : M (Unit {0}) ℤ)
      → Quietly 0 later
      → Quietly 0 (or_report what rc later)
  unfolding or_report
  or_report-Quietly what rc later h = search (call_rules, silent, tt)

  make_nodelay-Quietly : (fd : ℤ) → Quietly 0 (make_nodelay fd)
  unfolding make_nodelay
  make_nodelay-Quietly fd = search (call_rules, silent, tt, or_report-Quietly)

  create_sctp_socket-Quietly : Quietly 0 create_sctp_socket
  unfolding create_sctp_socket
  create_sctp_socket-Quietly =
      search (call_rules, silent, tt, or_report-Quietly, or_return-Quietly, make_nodelay-Quietly)
        depth 9

  create_client-Quietly : (ip port : ℕ) → Quietly 0 (create_sctp_socket_client ip port)
  unfolding create_sctp_socket_client
  create_client-Quietly ip port =
      search
        (call_rules, silent, tt, or_report-Quietly, or_return-Quietly, create_sctp_socket-Quietly)
        depth 12

  -- after sctp_send()
  abbrev SendDone : ℤ → Unit {0} → List Call → Type 0
  SendDone (pos n) s log = responses log ≡ 1
  SendDone (negsuc n) s log = LastReported log

  sent_one :
      (fd : ℤ) → Triple k (SentSo 0) (λ _. SentSo 1) GaveUp SentOne (call (send fd 24 23 0 0x4000))
  unfolding call
  sent_one fd = record { at = λ s log h. omega arith }

  after_send :
      (rc : ℤ)
      → Triple k (SentSo 1) SendDone GaveUp SentOne (
          if is_negative rc || is_zero rc
          then (do emit (perror "sctp_send"); pure rc)
          else pure (pos 0))
  unfolding emit call pure ◌>>=◌
  after_send (pos zero) = record { at = λ s log h. h }
  after_send (pos (suc n)) =
      let e : is_zero (pos (suc n)) ≡ false = ground arith in record { at = λ s log h. rw e h }
  after_send (negsuc n) = record { at = λ s log h. tt }

  send_data-SendDone : (fd : ℤ) → Triple k (SentSo 0) SendDone GaveUp SentOne (send_data fd)
  unfolding send_data
  send_data-SendDone fd = Triple-then _ _ (sent_one fd) after_send

  fault-Quietly : {A : Type 0} → Quietly 1 (fault {S = Unit {0}} {A = A})
  unfolding fault
  fault-Quietly = record { at = λ s log h. h }

  show_message-Quietly : (len sid : ℕ) → Quietly 1 (show_message len sid)
  unfolding show_message
  show_message-Quietly len sid = search (call_rules, silent, tt, fault-Quietly)

  take_message-Quietly : (m : Received) → Quietly 1 (take_message m)
  unfolding take_message
  take_message-Quietly failed = search (call_rules, silent, tt)
  take_message-Quietly (got zero sid) = search (call_rules, silent, tt)
  take_message-Quietly (got (suc n) sid) = search (keeps_rules, show_message-Quietly)

  read_data-Quietly : (fd : ℤ) → Quietly 1 (read_data fd)
  unfolding read_data
  read_data-Quietly fd = search (call_rules, silent, tt, take_message-Quietly)

  wait-Quietly : (n : ℕ) (fd : ℤ) → Quietly 1 (wait_for_response n fd)
  unfolding wait_for_response out_of_fuel
  wait-Quietly zero fd = record { at = λ s log h. h }
  wait-Quietly (suc n) fd =
      Keeps-bind (read_data fd) _ (read_data-Quietly fd)
        λ rc. Triple-elim (is_zero rc) _ _ (wait-Quietly n fd) (Keeps-pure tt)

  -- How the client returns.
  abbrev pub SentOnce : ℤ → Unit {0} → List Call → Type 0
  SentOnce status s log = (status ≡ pos 0) × (responses log ≡ 1)

  return_zero : Triple k (SentSo 1) SentOnce GaveUp SentOne (pure (pos 0))
  unfolding pure
  return_zero = record { at = λ s log h. (refl, h) }

  receive_response-SentOnce :
      (fuel : ℕ) (fd : ℤ) → Triple k (SentSo 1) SentOnce GaveUp SentOne (receive_response fuel fd)
  unfolding receive_response
  receive_response-SentOnce fuel fd =
      Keeps-bind (print _ []) _ (search (call_rules, silent, tt)) λ _.
        Keeps-bind (wait_for_response fuel fd) _ (wait-Quietly fuel fd)
          λ _. Keeps-bind (emit (close fd)) _ (search (call_rules, silent, tt)) λ _. return_zero

  respond_or_exit :
      (fuel : ℕ) (fd rc : ℤ)
      → Triple k
          (SendDone rc)
          SentOnce
          GaveUp
          SentOne
          (if is_negative rc then exit (pos 1) else receive_response fuel fd)
  unfolding exit
  respond_or_exit fuel fd (pos n) = receive_response-SentOnce fuel fd
  respond_or_exit fuel fd (negsuc n) = record { at = λ s log h. (refl, h) }

  send_message-SentOnce :
      (fuel : ℕ) (fd : ℤ) → Triple k (SentSo 0) SentOnce GaveUp SentOne (send_message fuel fd)
  unfolding send_message
  send_message-SentOnce fuel fd =
      Keeps-bind (print _ []) _ (search (call_rules, silent, tt))
        λ _. Triple-then (send_data fd) _ (send_data-SendDone fd) (respond_or_exit fuel fd)

  give_up :
      Triple k
        (SentSo 0)
        SentOnce
        GaveUp
        SentOne
        (do emit (perror "Error creating client socket"); exit (pos 1))
  unfolding emit call pure exit ◌>>=◌
  give_up = record { at = λ s log h. (refl, tt) }

  pub run_client-SentOnce :
      (fuel : ℕ) → Triple k (SentSo 0) SentOnce GaveUp SentOne (run_client fuel)
  unfolding run_client
  run_client-SentOnce fuel = Keeps-bind (print _ []) _ (search (call_rules, silent, tt)) λ _.
      Keeps-bind (create_sctp_socket_client _ _) _ (create_client-Quietly _ _)
        λ fd. Triple-if (is_negative fd) _ _ give_up (send_message-SentOnce fuel fd)

-- Whatever the kernel answers, the client returns only 0, and then it has called sctp_send() just once; or it
-- exits with status 1 right after it has reported a failure. When it is cut short, by undefined
-- behaviour or at the end of its fuel, it has called sctp_send() once.
pub client_errors :
    (k : Kernel) (fuel : ℕ)
    → Ends
        (λ status _ log. (status ≡ pos 0) × (responses log ≡ 1))
        GaveUp
        (λ log. responses log ≡ 1)
        (run_client fuel k tt [])
client_errors k fuel = (run_client-SentOnce k fuel).at tt [] refl
