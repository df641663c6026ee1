-- ===== src/DryEvent/Reply.antt =====
-- The client of sctp-dry-event.c ends when it hears something from the server.
use sctp_tests.Prelude.{
  ℕ, zero, suc, ◌≤◌, ◌≡◌, refl, String, ℤ, pos, is_zero, is_negative, true, false, Bool, List, [],
  ◌∷◌, drop, length, arith,
}
use sctp_tests.Posix.{
  Call, Kernel, Outcome, returned, exited, faulted, running, recvmsg, send, setsockopt, socket,
  stream, bind_inet, connect_inet, close, SockOpt, M, call, pure, continue, emit, print, ◌>>=◌,
}
use sctp_tests.Posix.Triple.{Ends, Never, Triple, Triple-then}
use sctp_tests.Harness.Loop.{drop-suc}
use sctp_tests.DryEvent.{
  or_return, or_report, htons, make_nodelay, create_sctp_socket, create_sctp_socket_client,
  read_data, send_data, wait_for_response, receive_response, send_message, run_client,
}
use sctp_tests.DryEvent.Counts.{responses}
use sctp_tests.DryEvent.Client.{GaveUp, client_errors}
use sctp_tests.DryEvent.Arrivals.{
  Arrival, Brings, Reading, ignored, ended, shown, overlong, reading, IsResult, Exchanged,
  read_data_lem, send_data_lem,
}

abbrev heard : Reading → Bool → Bool
heard ignored later = later
heard shown later = true
heard ended later = true
heard overlong later = false

-- After notifications only, a message of data comes that does not fill the buffer, or the end of the stream.
unfoldable pub has_reply : List Arrival → Bool
has_reply [] = false
has_reply (a ∷ rest) = heard (reading a) (has_reply rest)

module _ (k : Kernel) (script : List Arrival) (b : Brings k script) where
  abbrev Returns : Outcome (Unit {0}) (Unit {0}) → Type 0
  Returns o = Ends (λ _ _ _. Unit {0}) (λ _. Never) Never o

  after_read :
      (r : Reading) (later : Bool) (n m : ℕ) (next : M (Unit {0}) (Unit {0}))
      (o : Outcome (Unit {0}) ℤ)
      → heard r later ≡ true
      → Ends (λ rc _ log. IsResult r rc × Exchanged n m log) (λ _. Never) (λ _. r ≡ overlong) o
      → ((s : Unit {0}) (log : List Call)
          → later ≡ true
          → Exchanged n m log
          → Returns (next k s log))
      → Returns (continue o (λ rc. elim (is_zero rc) [ true ↦ next | false ↦ pure tt ]) k)
  unfolding pure
  after_read ignored later n m next (returned rc s log) w (e, h) ih = rw e (ih s log w h)
  after_read shown later n m next (returned rc s log) w (e, h) ih = rw e tt
  after_read ended later n m next (returned rc s log) w (e, h) ih = rw e tt
  after_read overlong later n m next o w h ih = cc
  after_read r later n m next (exited c log) w h ih = h
  after_read ignored later n m next (faulted log) w h ih = cc
  after_read shown later n m next (faulted log) w h ih = cc
  after_read ended later n m next (faulted log) w h ih = cc
  after_read ignored later n m next (running log) w h ih = cc
  after_read shown later n m next (running log) w h ih = cc
  after_read ended later n m next (running log) w h ih = cc

  wait_Returns :
      (rest : List Arrival) (fuel : ℕ) (fd : ℤ) (n m : ℕ) (s : Unit {0}) (log : List Call)
      → has_reply rest ≡ true
      → length rest ≤ fuel
      → drop n script ≡ rest
      → Exchanged n m log
      → Returns (wait_for_response fuel fd k s log)
  unfolding wait_for_response ◌>>=◌ has_reply
  wait_Returns [] fuel fd n m s log w room e h = cc
  wait_Returns (a ∷ rest) zero fd n m s log w room e h = absurd (omega arith)
  wait_Returns ((flag, len, sid) ∷ rest) (suc fuel) fd n m s log w room e h =
      after_read (reading (flag, len, sid)) (has_reply rest) (suc n) m (wait_for_response fuel fd)
        (read_data fd k s log) w (read_data_lem k script b fd flag len sid rest n m s log e h)
        λ s' log' w' h'.
          wait_Returns rest fuel fd (suc n) m s' log' w' (omega arith)
            (drop-suc n script (flag, len, sid) rest e) h'

  -- Nothing has been received yet, and nothing sent.
  abbrev Idle : Unit {0} → List Call → Type 0
  Idle s log = Exchanged 0 0 log

  abbrev Good : ℤ → Unit {0} → List Call → Type 0
  Good rc s log = (is_negative rc ≡ false) × Exchanged 0 0 log

  abbrev Creates : M (Unit {0}) ℤ → Type 0
  Creates m = Triple k Idle Good (λ _. Never) Never m

  -- A call that neither sends nor receives.
  abbrev IsOther : Call → Type 0
  IsOther (recvmsg fd size) = ⊥
  IsOther (send fd len ppid sid flags) = ⊥
  IsOther _ = Unit

  other : (c : Call) (log : List Call) → IsOther c → Exchanged 0 0 log → Exchanged 0 0 (c ∷ log)
  other (Call.recvmsg fd size) log h e = elim h [ ]
  other (Call.send fd len ppid sid flags) log h e = elim h [ ]
  other _ log h e = e

  call_Good : (c : Call) → IsOther c → Creates (call c)
  unfolding call
  call_Good c o = record { at = λ s log h. (b.succeeds log c, other c log o h) }

  or_report-Good :
      (what : String) (rc : ℤ) (later : M (Unit {0}) ℤ)
      → (is_negative rc ≡ false → Creates later)
      → Triple k (Good rc) Good (λ _. Never) Never (or_report what rc later)
  unfolding or_report
  or_report-Good what rc later f = record { at = λ s log (e, h). rw e ((f e).at s log h) }

  or_return-Good :
      (rc : ℤ) (later : M (Unit {0}) ℤ)
      → (is_negative rc ≡ false → Creates later)
      → Triple k (Good rc) Good (λ _. Never) Never (or_return rc later)
  unfolding or_return
  or_return-Good rc later f = record { at = λ s log (e, h). rw e ((f e).at s log h) }

  pure_Good : (rc : ℤ) → is_negative rc ≡ false → Creates (pure rc)
  unfolding pure
  pure_Good rc e = record { at = λ s log h. (e, h) }

  make_nodelay_Good : (fd : ℤ) → Creates (make_nodelay fd)
  unfolding make_nodelay
  make_nodelay_Good fd =
      Triple-then _ _ (call_Good (setsockopt fd (SockOpt.nodelay 1)) tt)
        λ rc. or_report-Good _ rc _ λ e. pure_Good (pos 0) refl

  create_sctp_socket_Good : Creates create_sctp_socket
  unfolding create_sctp_socket
  create_sctp_socket_Good = Triple-then _ _ (call_Good (socket stream) tt) λ fd.
      or_report-Good _ fd _
        λ e. Triple-then _ _ (make_nodelay_Good fd) λ rc. or_return-Good rc _ (λ _. pure_Good fd e)

  create_client_Good : (ip port : ℕ) → Creates (create_sctp_socket_client ip port)
  unfolding create_sctp_socket_client
  create_client_Good ip port = Triple-then _ _ create_sctp_socket_Good λ fd.
      or_return-Good fd _ λ e. Triple-then _ _ (call_Good (bind_inet fd 0x7F000002 3333) tt) λ rc.
        or_report-Good _ rc _ λ _.
          Triple-then _ _ (call_Good (connect_inet fd ip (htons port)) tt)
            λ rc. or_report-Good _ rc _ λ _. pure_Good fd e

  abbrev Finishes : {A : Type 0} → (Unit {0} → List Call → Type 0) → M (Unit {0}) A → Type 0
  Finishes P m = Triple k P (λ _ _ _. Unit {0}) (λ _. Never) Never m

  silent_end : {A : Type 0} (a : A) → Finishes (λ _ _. Unit {0}) (pure a)
  unfolding pure
  silent_end a = record { at = λ s log h. tt }

  close_end : (fd : ℤ) → Finishes (λ _ _. Unit {0}) (emit (close fd))
  unfolding emit call pure ◌>>=◌
  close_end fd = record { at = λ s log h. tt }

  printed :
      (n m : ℕ) (format : String)
      → Triple k
          (λ _. Exchanged n m)
          (λ _ _. Exchanged n m)
          (λ _. Never)
          Never
          (print {S = Unit {0}} format [])
  unfolding emit ◌>>=◌
  printed n m format = record { at = λ s log h. h }

  receive_response-Finishes :
      (fuel : ℕ) (fd : ℤ)
      → has_reply script ≡ true
      → length script ≤ fuel
      → Finishes (λ _. Exchanged 0 1) (receive_response fuel fd)
  unfolding receive_response
  receive_response-Finishes fuel fd w room = Triple-then _ _ (printed 0 1 _) λ _.
      Triple-then (wait_for_response fuel fd) _ waits
        λ _. Triple-then _ _ (close_end fd) λ _. silent_end (pos 0)
    where
      waits : Finishes (λ _. Exchanged 0 1) (wait_for_response fuel fd)
      waits = record { at = λ s log h. wait_Returns script fuel fd 0 1 s log w room refl h }

  -- the same, once there is a socket
  send_message-Finishes :
      (fuel : ℕ) (fd : ℤ)
      → has_reply script ≡ true
      → length script ≤ fuel
      → Finishes Idle (send_message fuel fd)
  unfolding send_message
  send_message-Finishes fuel fd w room = Triple-then _ _ (printed 0 0 _) λ _.
      Triple-then (send_data fd) _ sends λ rc. record {
        at = λ s log (e, h). rw e ((receive_response-Finishes fuel fd w room).at s log h);
      }
    where
      sends :
          Triple k Idle
            (λ rc _ log. (is_negative rc ≡ false) × Exchanged 0 1 log)
            (λ _. Never)
            Never
            (send_data fd)
      sends = record { at = λ s log h. send_data_lem k Never script b fd 0 0 s log h }

  run_client-Finishes :
      (fuel : ℕ) → has_reply script ≡ true → length script ≤ fuel → Finishes Idle (run_client fuel)
  unfolding run_client
  run_client-Finishes fuel w room = Triple-then _ _ (printed 0 0 _) λ _.
      Triple-then _ _ (create_client_Good 0x7f000001 2905) λ fd. record {
        at = λ s log (e, h). rw e ((send_message-Finishes fuel fd w room).at s log h);
      }

returns_so :
    {S A : Type 0} (Q : A → S → List Call → Type 0) (E : ℤ → List Call → Type 0)
    (F : List Call → Type 0) (o : Outcome S A)
    → Ends (λ _ _ _. Unit {0}) (λ _. Never) Never o
    → Ends Q E F o
    → Ends Q (λ _. Never) Never o
returns_so Q E F (returned a s log) h p = p
returns_so Q E F (exited c log) h p = h
returns_so Q E F (faulted log) h p = h
returns_so Q E F (running log) h p = h

-- On a kernel on which no call fails and which delivers messages, of which the first that is not a
-- notification is the end of the stream or data that does not fill the buffer, the client ends, given
-- as much fuel as there are messages: it returns 0 and has called sctp_send() once.
pub client_stops :
    (k : Kernel) (script : List Arrival) (fuel : ℕ)
    → Brings k script
    → has_reply script ≡ true
    → length script ≤ fuel
    → Ends
        (λ status _ log. (status ≡ pos 0) × (responses log ≡ 1))
        (λ _. Never)
        Never
        (run_client fuel k tt [])
client_stops k script fuel b w room =
    returns_so _ GaveUp (λ log. responses log ≡ 1) (run_client fuel k tt [])
      ((run_client-Finishes k script b fuel w room).at tt [] (refl, refl)) (client_errors k fuel)
