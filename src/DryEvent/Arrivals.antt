-- ===== src/DryEvent/Arrivals.antt =====
-- What arrives at a socket of sctp-dry-event.c, message by message.
use sctp_tests.Prelude.{
  ℕ, zero, suc, ◌≡◌, refl, ℤ, pos, Bool, true, false, List, [], ◌∷◌, drop, is_negative, is_zero,
  ltb, minus_one, ap, inl, inr, Bool-cases, if◌then◌else◌,
}
use sctp_tests.Posix.{
  Call, Kernel, Received, Outcome, failed, got, recvmsg, send, select, emit, ◌>>=◌,
}
use sctp_tests.Posix.Triple.{Ends, Never}
use sctp_tests.Harness.Peer.{receptions}
use sctp_tests.DryEvent.{
  buffer_size, show_message, take_message, read_data, send_data, msg_nosignal,
}
use sctp_tests.DryEvent.Counts.{responses}

-- Whether it is a notification, its length and its stream; a length of 0 is the end of the stream.
abbrev pub Arrival : Type 0
Arrival = Bool × ℕ × ℕ

abbrev pub arrives : List Arrival → Received
arrives [] = failed
arrives ((notification, len, sid) ∷ rest) = got len sid

abbrev pub notifies : List Arrival → Bool
notifies [] = false
notifies ((notification, len, sid) ∷ rest) = notification

-- A kernel that delivers these messages one by one, on which no call fails, and whose select() answers when there is
-- something to read.
pub record Brings (k : Kernel) (script : List Arrival) : Type 0 where
  pub receives : (log : List Call) → k.received log ≡ arrives (drop (receptions log) script)
  pub flags :
      (fd : ℤ) (size : ℕ) (log : List Call)
      → k.notification (recvmsg fd size ∷ log) ≡ notifies (drop (receptions log) script)
  pub succeeds : (log : List Call) (c : Call) → is_negative (k.result log c) ≡ false
  pub selects :
      (fd : ℤ) (log : List Call)
      → (k.result log (select fd) ≡ pos 1) × (k.value log (select fd) ≡ 1)

abbrev pub delivering : List Arrival → Kernel
delivering script = record {
  result = λ log c. pos 1;
  value = λ log c. 1;
  received = λ log. arrives (drop (receptions log) script);
  notification =
      λ log. elim log [ [] ↦ false | c ∷ before ↦ notifies (drop (receptions before) script) ];
  ppid = λ log. 23;
  errno = λ log. 0;
  random = λ log. 7;
  clock = λ log. 5;
}

pub delivering-Brings : (script : List Arrival) → Brings (delivering script) script
delivering-Brings script = record {
  receives = λ log. refl;
  flags = λ fd size log. refl;
  succeeds = λ log c. refl;
  selects = λ fd log. (refl, refl);
}

-- What read_data() makes of it.
pub data Reading : Type 0 where
  ignored ended shown overlong : Reading

abbrev pub reading : Arrival → Reading
reading (notification, zero, sid) = ended
reading (true, suc n, sid) = ignored
reading (false, suc n, sid) = if ltb (suc n) buffer_size then shown else overlong

-- The result of read_data().
abbrev pub IsResult : Reading → ℤ → Type 0
IsResult ignored rc = rc ≡ pos 0
IsResult ended rc = rc ≡ minus_one
IsResult shown rc = rc ≡ pos 1
IsResult overlong rc = ⊥

-- So many messages have been received and sent.
abbrev pub Exchanged : ℕ → ℕ → List Call → Type 0
Exchanged n m log = (receptions log ≡ n) × (responses log ≡ m)

module _ (k : Kernel) where
  abbrev Taken : ℕ → ℕ → Reading → Outcome (Unit {0}) ℤ → Type 0
  Taken n m r o =
      Ends (λ rc _ log. IsResult r rc × Exchanged n m log) (λ _. Never) (λ _. r ≡ overlong) o

  take_message_lem :
      (flag : Bool) (len sid n m : ℕ) (s : Unit {0}) (log : List Call)
      → k.notification log ≡ flag
      → Exchanged n m log
      → Taken n m (reading (flag, len, sid)) (take_message (got len sid) k s log)
  unfolding take_message ◌>>=◌ emit show_message
  take_message_lem b zero sid n m s log e h = (refl, h)
  take_message_lem true (suc l) sid n m s log e h = rw e (refl, h)
  take_message_lem false (suc l) sid n m s log e h = elim (Bool-cases (ltb (suc l) buffer_size)) [
    | inl f ↦ rw (e, f) (refl, h)
    | inr f ↦ rw (e, f) refl
  ]

  pub read_data_lem :
      (script : List Arrival)
      → Brings k script
      → (fd : ℤ) (flag : Bool) (len sid : ℕ) (rest : List Arrival) (n m : ℕ) (s : Unit {0})
        (log : List Call)
      → drop n script ≡ (flag, len, sid) ∷ rest
      → Exchanged n m log
      → Taken (suc n) m (reading (flag, len, sid)) (read_data fd k s log)
  unfolding read_data ◌>>=◌
  read_data_lem script b fd flag len sid rest n m s log e (h, i) =
      let r : k.received log ≡ got len sid = rw (b.receives log, h, e) in
      let f : k.notification (recvmsg fd buffer_size ∷ log) ≡ flag =
        rw (b.flags fd buffer_size log, h, e) in
      rw r (
        take_message_lem flag len sid (suc n) m s (recvmsg fd buffer_size ∷ log) f
          (ap (λ j. suc j) h, i))

  pub send_data_lem :
      (F : List Call → Type 0) (script : List Arrival)
      → Brings k script
      → (fd : ℤ) (n m : ℕ) (s : Unit {0}) (log : List Call) → Exchanged n m log
      → Ends
          (λ rc _ log'. (is_negative rc ≡ false) × Exchanged n (suc m) log')
          (λ _. Never)
          F
          (send_data fd k s log)
  unfolding send_data ◌>>=◌ emit
  send_data_lem F script b fd n m s log (h, i) =
      let sent : is_negative (k.result log (send fd 24 23 0 msg_nosignal)) ≡ false =
        b.succeeds log _ in
      elim (Bool-cases (is_zero (k.result log (send fd 24 23 0 msg_nosignal)))) [
        | inl e ↦ rw (sent, e) (sent, (h, ap (λ j. suc j) i))
        | inr e ↦ rw (sent, e) (refl, (h, ap (λ j. suc j) i))
      ]
