-- ===== src/DryEvent/Responses.antt =====
-- The server of sctp-dry-event.c answers each data message once.
use sctp_tests.Prelude.{
  ℕ, zero, suc, ◌+◌, ◌≡◌, refl, String, ℤ, pos, negsuc, is_negative, Bool, true, false, List, [],
  ◌∷◌, ◌⊎◌, inl, inr, ◌==◌, ltb, Bool-cases, arith, if◌then◌else◌,
}
use sctp_tests.Posix.{
  Call, Kernel, Received, failed, got, recvmsg, send, M, pure, call, out_of_fuel, emit, print,
  accept, close, ◌>>=◌, ◌>>◌,
}
use sctp_tests.Posix.Triple.{
  Ends, Never, Triple, Triple-then, Triple-elim, Keeps, Keeps-pure, Keeps-bind, keeps_rules,
}
use sctp_tests.Posix.Rules.{Adds, call_rules}
use sctp_tests.DryEvent.{
  or_return, or_report, make_nonblock, make_nodelay, enable_events, eagain, buffer_size,
  show_message, take_message, read_data, send_data, is_one, respond, round, rounds, configure,
  server_mainloop,
}
use sctp_tests.DryEvent.Counts.{responses, data_in, data_received}

module _ (k : Kernel) where
  -- Each data message has been answered.
  abbrev pub Answered : Unit {0} → List Call → Type 0
  Answered s log = responses log ≡ data_received k log

  -- The result of read_data() says whether one more answer is due.
  abbrev Owes : ℤ → Unit {0} → List Call → Type 0
  Owes rc s log = responses log + (if is_one rc then 1 else 0) ≡ data_received k log

  -- In mid-run, the last data message may be without its answer.
  abbrev pub Midway : List Call → Type 0
  Midway log = (responses log ≡ data_received k log) ⊎ (suc (responses log) ≡ data_received k log)

  take_message-Owes :
      (m : Received) (s : Unit {0}) (log : List Call)
      → responses log + data_in m (k.notification log) ≡ data_received k log
      → Ends Owes (λ _. Never) Midway (take_message m k s log)
  unfolding take_message ◌>>=◌ emit show_message
  take_message-Owes failed s log h = elim (Bool-cases (k.errno log == eagain)) [
    | inl e ↦ rw e h
    | inr e ↦ rw e h
  ]
  take_message-Owes (got zero sid) s log h = h
  take_message-Owes (got (suc n) sid) s log h = elim (Bool-cases (k.notification log)) [
    | inl e ↦ rw e (rw e at h)
    | inr e ↦ elim (Bool-cases (ltb (suc n) buffer_size)) [
      | inl f ↦ rw (e, f) (rw e at h)
      | inr f ↦ rw (e, f) (inr (let h' = rw e at h in omega arith))
    ]
  ]

  read_data-Owes : (fd : ℤ) → Triple k Answered Owes (λ _. Never) Midway (read_data fd)
  unfolding read_data ◌>>=◌
  read_data-Owes fd = record {
    at = λ s log h.
        take_message-Owes (k.received log) s (recvmsg fd buffer_size ∷ log) (omega arith);
  }

  -- A call that neither sends nor receives.
  abbrev IsIdle : Call → Type 0
  IsIdle (recvmsg fd size) = ⊥
  IsIdle (send fd len ppid sid flags) = ⊥
  IsIdle _ = Unit

  idle : (c : Call) (rc : ℤ) → IsIdle c → Adds (Owes rc) c
  idle (Call.recvmsg fd size) rc h = elim h [ ]
  idle (Call.send fd len ppid sid flags) rc h = elim h [ ]
  idle _ rc h = record { at = λ s log p. p }

  idle_call : (c : Call) → IsIdle c → Adds Answered c
  idle_call (Call.recvmsg fd size) h = elim h [ ]
  idle_call (Call.send fd len ppid sid flags) h = elim h [ ]
  idle_call _ h = record { at = λ s log p. p }

  -- An action that neither sends nor receives.
  abbrev Idle : {A : Type 0} → M (Unit {0}) A → Type 0
  Idle m = Keeps k Answered (λ _. Never) Midway m

  or_return-Idle : (rc : ℤ) (later : M (Unit {0}) ℤ) → Idle later → Idle (or_return rc later)
  unfolding or_return
  or_return-Idle rc later h = search keeps_rules

  or_report-Idle :
      (what : String) (rc : ℤ) (later : M (Unit {0}) ℤ)
      → Idle later
      → Idle (or_report what rc later)
  unfolding or_report
  or_report-Idle what rc later h = search (call_rules, idle_call, tt)

  make_nonblock-Idle : (fd : ℤ) → Idle (make_nonblock fd)
  unfolding make_nonblock
  make_nonblock-Idle fd = search (call_rules, idle_call, tt, or_report-Idle)

  make_nodelay-Idle : (fd : ℤ) → Idle (make_nodelay fd)
  unfolding make_nodelay
  make_nodelay-Idle fd = search (call_rules, idle_call, tt, or_report-Idle)

  enable_events-Idle : (fd : ℤ) → Idle (enable_events fd)
  unfolding enable_events
  enable_events-Idle fd = search (call_rules, idle_call, tt, or_report-Idle)

  configure-Idle : (dry : Bool) (fd : ℤ) → Idle (configure dry fd)
  unfolding configure
  configure-Idle dry fd =
      search
        (keeps_rules, or_return-Idle, make_nodelay-Idle, make_nonblock-Idle, enable_events-Idle)

  send_data-Answered :
      (fd : ℤ) → Triple k (Owes (pos 1)) (λ _. Answered) (λ _. Never) Midway (send_data fd)
  unfolding send_data
  send_data-Answered fd =
      Triple-then (call (send fd 24 23 0 0x4000)) _ sent (λ rc. search (call_rules, idle_call, tt))
    where
      sent :
          Triple k
            (Owes (pos 1))
            (λ _. Answered)
            (λ _. Never)
            Midway
            (call (send fd 24 23 0 0x4000))
      sent = unfold call in record { at = λ s log h. omega arith }

  no_answer :
      (rc : ℤ) (b : Bool)
      → is_one rc ≡ false
      → Triple k (Owes rc) (λ _. Answered) (λ _. Never) Midway (pure b)
  unfolding pure
  no_answer rc b e = record { at = λ s log h. let h' = rw e at h in omega arith }

  print_idle :
      (format : String) (args : List ℤ)
      → Triple k (Owes (pos 1)) (λ _. Owes (pos 1)) (λ _. Never) Midway (print format args)
  unfolding emit ◌>>=◌
  print_idle format args = record { at = λ s log h. h }

  answer :
      (fd : ℤ) (f : ℤ → Bool)
      → Triple k
          (Owes (pos 1))
          (λ _. Answered)
          (λ _. Never)
          Midway
          (do print "Sending Response\n" []; rc ← send_data fd; pure (f rc))
  answer fd f =
      Triple-then (print _ []) _ (print_idle _ [])
        (λ _. Triple-then (send_data fd) _ (send_data-Answered fd) (λ rc. search keeps_rules))

  respond-Answered :
      (fd rc : ℤ) → Triple k (Owes rc) (λ _. Answered) (λ _. Never) Midway (respond fd rc)
  unfolding respond
  respond-Answered fd (pos zero) = no_answer (pos 0) true refl
  respond-Answered fd (pos (suc zero)) = answer fd _
  respond-Answered fd (pos (suc (suc n))) =
      let e : is_one (pos (suc (suc n))) ≡ false = ground arith in
      rw e (no_answer (pos (suc (suc n))) true e)
  respond-Answered fd (negsuc n) = no_answer (negsuc n) false refl

  read-Answered : (fd : ℤ) → Idle (do rc ← read_data fd; respond fd rc)
  read-Answered fd = Triple-then (read_data fd) _ (read_data-Owes fd) (respond-Answered fd)

  round-Answered : (fd : ℤ) → Idle (round fd)
  unfolding round
  round-Answered fd = search (call_rules, idle_call, tt, read-Answered) depth 9

  stop : {A : Type 0} → Idle {A = A} out_of_fuel
  unfolding out_of_fuel
  stop = record { at = λ s log h. inl h }

  rounds-Answered : (n : ℕ) (fd : ℤ) → Idle (rounds n fd)
  unfolding rounds
  rounds-Answered zero fd = stop
  rounds-Answered (suc n) fd =
      Keeps-bind (round fd) _ (round-Answered fd)
        λ more. Triple-elim more _ _ (rounds-Answered n fd) (Keeps-pure tt)

  mainloop-Keeps :
      (n limit : ℕ) (srv_fd : ℤ) (dry : Bool)
      → Keeps k Answered (λ _. Never) Midway (server_mainloop n limit srv_fd dry)
  unfolding server_mainloop
  mainloop-Keeps zero limit srv_fd dry = stop
  mainloop-Keeps (suc n) limit srv_fd dry =
      Keeps-bind (call (accept srv_fd)) _ (search (call_rules, idle_call, tt)) λ fd.
        Keeps-bind (or_return fd _) _ (search (or_return-Idle, configure-Idle)) λ rc.
          Triple-elim (is_negative rc) _ _ (Keeps-pure rc) (
            Keeps-bind (rounds limit fd) _ (rounds-Answered limit fd) λ _.
              Keeps-bind (emit (close fd)) _ (search (call_rules, idle_call, tt))
                λ _. mainloop-Keeps n limit srv_fd dry)

  -- If each data message received before has been answered by one call of sctp_send(), so has each one when
  -- the server's loop returns, whatever the kernel answers. It does not exit. When it is cut short, by
  -- undefined behaviour or at the end of its fuel, at most the last one has not been answered.
  pub server_mainloop-Answered :
      (n limit : ℕ) (srv_fd : ℤ) (dry : Bool) (s : Unit {0}) (log : List Call)
      → responses log ≡ data_received k log
      → Ends
          (λ _ _ log'. responses log' ≡ data_received k log')
          (λ _. Never)
          Midway
          (server_mainloop n limit srv_fd dry k s log)
  server_mainloop-Answered n limit srv_fd dry s log h =
      (mainloop-Keeps n limit srv_fd dry).at s log h
