-- ===== src/DryEvent/Descriptors.antt =====
-- The server of sctp-dry-event.c serves one connection at a time, and what it leaves open on return.
use sctp_tests.Prelude.{
  ◌+◌, ℕ, zero, suc, ◌≡◌, refl, String, ℤ, pos, negsuc, is_negative, Bool, true, false, List, ◌∷◌,
  ◌⊎◌, inl, inr, arith,
}
use sctp_tests.Posix.{
  Call, Kernel, Received, failed, got, accept, close, perror, setsockopt, ioctl, SockOpt, M, pure,
  call, fault, out_of_fuel, emit, ◌>>=◌,
}
use sctp_tests.Posix.Triple.{
  Ends, Never, Triple, Triple-then, Triple-if, Triple-elim, Keeps-pure, Keeps-bind, keeps_rules,
}
use sctp_tests.Posix.Rules.{Adds, call_rules}
use sctp_tests.DryEvent.{
  or_return, or_report, make_nonblock, make_nodelay, enable_events, show_message, take_message,
  read_data, send_data, respond, round, rounds, configure, server_mainloop,
}
use sctp_tests.DryEvent.Counts.{accepted, closed, last_accepted}

module _ (k : Kernel) (w : ℤ → ℕ) where
  -- Each accepted socket has been closed.
  abbrev pub AllClosed : Unit {0} → List Call → Type 0
  AllClosed s log = accepted k w log ≡ closed w log

  -- Each but the last has been closed.
  abbrev pub OneOpen : Unit {0} → List Call → Type 0
  OneOpen s log = accepted k w log ≡ w (last_accepted k log) + closed w log

  abbrev pub AtMostOneOpen : List Call → Type 0
  AtMostOneOpen log = AllClosed tt log ⊎ OneOpen tt log

  -- If accept() was the last call, it has failed, and each accepted socket has been closed. Else the failure
  -- of a call was reported last, and just the last accepted socket is open.
  abbrev pub Abandoned : List Call → Type 0
  Abandoned (accept fd ∷ log) =
      (is_negative (k.result log (accept fd)) ≡ true) × AllClosed tt (accept fd ∷ log)
  Abandoned (perror what ∷ log) = OneOpen tt log
  Abandoned _ = ⊥

  -- The connection `conn` is the last one accepted, and it is open.
  abbrev Serving : ℤ → Unit {0} → List Call → Type 0
  Serving conn s log = (accepted k w log ≡ w conn + closed w log) × (last_accepted k log ≡ conn)

  -- By the result of a step that prepares a connection.
  abbrev Stage : ℤ → ℤ → Unit {0} → List Call → Type 0
  Stage conn (pos n) s log = Serving conn s log
  Stage conn (negsuc n) s log = Abandoned log

  abbrev Steps :
      {A : Type 0}
      → (Unit {0} → List Call → Type 0)
      → (A → Unit {0} → List Call → Type 0)
      → M (Unit {0}) A
      → Type 0
  Steps P Q m = Triple k P Q (λ _. Never) AtMostOneOpen m

  one_open : (conn : ℤ) (s : Unit {0}) (log : List Call) → Serving conn s log → OneOpen tt log
  one_open conn s log (p, q) = rw q p

  accept-Stage : (srv_fd : ℤ) → Steps AllClosed (λ conn. Stage conn conn) (call (accept srv_fd))
  unfolding call
  accept-Stage srv_fd = record {
    at = λ s log h. by_result (k.result log (accept srv_fd)) s log refl h;
  }
    where
      by_result :
          (rc : ℤ) (s : Unit {0}) (log : List Call)
          → k.result log (accept srv_fd) ≡ rc
          → AllClosed s log
          → Stage rc rc s (accept srv_fd ∷ log)
      by_result (pos n) s log e h = rw e (omega (arith, h), refl)
      by_result (negsuc n) s log e h = rw e (refl, omega (arith, h))

  -- A call that does neither accept nor close.
  abbrev IsLocal : Call → Type 0
  IsLocal (accept fd) = ⊥
  IsLocal (close fd) = ⊥
  IsLocal _ = Unit

  module _ (conn : ℤ) where
    abbrev Serves : {A : Type 0} → M (Unit {0}) A → Type 0
    Serves m = Steps (Serving conn) (λ _. Serving conn) m

    local : (c : Call) → IsLocal c → Adds (Serving conn) c
    local (Call.accept fd) h = elim h [ ]
    local (Call.close fd) h = elim h [ ]
    local _ h = record { at = λ s log p. p }

    or_report-Stage :
        (what : String) (rc : ℤ)
        → Steps (Serving conn) (Stage conn) (or_report what rc (pure (pos 0)))
    unfolding or_report pure emit call ◌>>=◌
    or_report-Stage what (pos n) = record { at = λ s log h. h }
    or_report-Stage what (negsuc n) = record { at = one_open conn }

    or_return-Stage :
        (rc : ℤ) (later : M (Unit {0}) ℤ)
        → Steps (Serving conn) (Stage conn) later
        → Steps (Stage conn rc) (Stage conn) (or_return rc later)
    unfolding or_return pure
    or_return-Stage (pos n) later h = h
    or_return-Stage (negsuc n) later h = record { at = λ s log p. p }

    local_call : (c : Call) → IsLocal c → Steps (Serving conn) (λ _. Serving conn) (call c)
    local_call c h = search (call_rules, local)

    make_nonblock-Stage : (fd : ℤ) → Steps (Serving conn) (Stage conn) (make_nonblock fd)
    unfolding make_nonblock
    make_nonblock-Stage fd = Keeps-bind (call (ioctl fd)) _ (local_call _ tt) (or_report-Stage _)

    make_nodelay-Stage : (fd : ℤ) → Steps (Serving conn) (Stage conn) (make_nodelay fd)
    unfolding make_nodelay
    make_nodelay-Stage fd =
        Keeps-bind (call (setsockopt fd (SockOpt.nodelay 1))) _ (local_call _ tt)
          (or_report-Stage _)

    enable_events-Stage : (fd : ℤ) → Steps (Serving conn) (Stage conn) (enable_events fd)
    unfolding enable_events
    enable_events-Stage fd =
        Keeps-bind (call (setsockopt fd (SockOpt.events 1 1))) _ (local_call _ tt)
          (or_report-Stage _)

    plain : Steps (Serving conn) (Stage conn) (pure (pos 0))
    unfolding pure
    plain = record { at = λ s log h. h }

    configure-Stage : (dry : Bool) (fd : ℤ) → Steps (Serving conn) (Stage conn) (configure dry fd)
    unfolding configure
    configure-Stage dry fd =
        Triple-then _ _ (Triple-if dry _ _ (enable_events-Stage fd) plain) λ rc.
          or_return-Stage rc _ (
            Triple-then _ _ (make_nodelay-Stage fd)
              λ rc. or_return-Stage rc _ (make_nonblock-Stage fd))

    fault-Serving :
        {A : Type 0} → Steps (Serving conn) (λ _. Serving conn) (fault {S = Unit {0}} {A = A})
    unfolding fault
    fault-Serving = record { at = λ s log h. inr (one_open conn s log h) }

    show_message-Serving :
        (len sid : ℕ) → Steps (Serving conn) (λ _. Serving conn) (show_message len sid)
    unfolding show_message
    show_message-Serving len sid = search (call_rules, local, tt, fault-Serving)

    take_message-Serving :
        (m : Received) → Steps (Serving conn) (λ _. Serving conn) (take_message m)
    unfolding take_message
    take_message-Serving failed = search (call_rules, local, tt)
    take_message-Serving (got zero sid) = search (call_rules, local, tt)
    take_message-Serving (got (suc n) sid) = search (keeps_rules, show_message-Serving)

    read_data-Serving : (fd : ℤ) → Steps (Serving conn) (λ _. Serving conn) (read_data fd)
    unfolding read_data
    read_data-Serving fd = search (call_rules, local, tt, take_message-Serving)

    send_data-Serving : (fd : ℤ) → Steps (Serving conn) (λ _. Serving conn) (send_data fd)
    unfolding send_data
    send_data-Serving fd = search (call_rules, local, tt)

    respond-Serving : (fd rc : ℤ) → Steps (Serving conn) (λ _. Serving conn) (respond fd rc)
    unfolding respond
    respond-Serving fd rc = search (call_rules, local, tt, send_data-Serving) depth 9

    round-Serving : (fd : ℤ) → Steps (Serving conn) (λ _. Serving conn) (round fd)
    unfolding round
    round-Serving fd = search (call_rules, local, tt, read_data-Serving, respond-Serving) depth 9

    rounds-Serving : (n : ℕ) (fd : ℤ) → Steps (Serving conn) (λ _. Serving conn) (rounds n fd)
    unfolding rounds out_of_fuel
    rounds-Serving zero fd = record { at = λ s log h. inr (one_open conn s log h) }
    rounds-Serving (suc n) fd =
        Keeps-bind (round fd) _ (round-Serving fd)
          λ more. Triple-elim more _ _ (rounds-Serving n fd) (Keeps-pure tt)

    close-AllClosed : Steps (Serving conn) (λ _. AllClosed) (emit (close conn))
    unfolding emit call pure ◌>>=◌
    close-AllClosed = record { at = λ s log (p, q). p }

  -- After the preparation of a connection: it is served, or the loop returns.
  abbrev Ended : ℤ → Unit {0} → List Call → Type 0
  Ended rc s log = (is_negative rc ≡ true) × Abandoned log

  by-Stage :
      (conn rc : ℤ) (m : M (Unit {0}) ℤ)
      → Steps (Serving conn) Ended m
      → Steps (Stage conn rc) Ended (elim (is_negative rc) [ true ↦ pure rc | false ↦ m ])
  unfolding pure
  by-Stage conn (pos n) m h = h
  by-Stage conn (negsuc n) m h = record { at = λ s log p. (refl, p) }

  mainloop_over :
      (n limit : ℕ) (srv_fd : ℤ) (dry : Bool)
      → Triple k AllClosed Ended (λ _. Never) AtMostOneOpen (server_mainloop n limit srv_fd dry)
  unfolding server_mainloop out_of_fuel
  mainloop_over zero limit srv_fd dry = record { at = λ s log h. inl h }
  mainloop_over (suc n) limit srv_fd dry = Triple-then _ _ (accept-Stage srv_fd) λ fd.
      Triple-then _ _ (or_return-Stage fd fd _ (configure-Stage fd dry fd)) λ rc. by-Stage fd rc _ (
        Keeps-bind (rounds limit fd) _ (rounds-Serving fd limit fd) λ _.
          Triple-then (emit (close fd)) _ (close-AllClosed fd)
            λ _. mainloop_over n limit srv_fd dry)

  -- For every weight that is given to the sockets: if each accepted socket has been closed before, the
  -- server's loop returns only a negative result. If accept() was then the last call, it has failed, and
  -- each accepted socket has been closed; else a failure was just reported, and of the accepted
  -- sockets all but the last have been closed. The loop does not exit. When it is cut short, by
  -- undefined behaviour or at the end of its fuel, all accepted sockets, or all but the last, have been
  -- closed. The kernel may answer in any way.
  pub server_mainloop-Abandoned :
      (n limit : ℕ) (srv_fd : ℤ) (dry : Bool) (s : Unit {0}) (log : List Call)
      → accepted k w log ≡ closed w log
      → Ends
          (λ rc _ log'. (is_negative rc ≡ true) × Abandoned log')
          (λ _. Never)
          AtMostOneOpen
          (server_mainloop n limit srv_fd dry k s log)
  server_mainloop-Abandoned n limit srv_fd dry s log h =
      (mainloop_over n limit srv_fd dry).at s log h
