-- ===== src/DryEvent/Counts.antt =====
-- What the calls of sctp-dry-event.c add up to: messages sent and received, sockets accepted and closed.
use sctp_tests.Prelude.{
  ℤ, minus_one, ℕ, zero, suc, ◌+◌, is_negative, Bool, List, [], ◌∷◌, if◌then◌else◌,
}
use sctp_tests.Posix.{Call, Kernel, Received, failed, got, accept, close, recvmsg, send}

-- How often sctp_send() was called.
abbrev pub responses : List Call → ℕ
responses [] = 0
responses (send fd len ppid sid flags ∷ log) = suc (responses log)
responses (_ ∷ log) = responses log

-- 1 for data, which is not a notification and not empty.
abbrev pub data_in : Received → Bool → ℕ
data_in failed notification = 0
data_in (got zero sid) notification = 0
data_in (got (suc n) sid) notification = if notification then 0 else 1

-- How many of the messages that the kernel has delivered are data.
abbrev pub data_received : Kernel → List Call → ℕ
data_received k [] = 0
data_received k (recvmsg fd size ∷ log) =
    data_in (k.received log) (k.notification (recvmsg fd size ∷ log)) + data_received k log
data_received k (_ ∷ log) = data_received k log

-- What the sockets weigh that accept() has returned, each as often as it was returned.
abbrev pub accepted : Kernel → (ℤ → ℕ) → List Call → ℕ
accepted k w [] = 0
accepted k w (accept fd ∷ log) =
    let rc = k.result log (accept fd) in
    let older = accepted k w log in (if is_negative rc then 0 else w rc) + older
accepted k w (_ ∷ log) = accepted k w log

-- What the sockets weigh that were given to close().
abbrev pub closed : (ℤ → ℕ) → List Call → ℕ
closed w [] = 0
closed w (close fd ∷ log) = w fd + closed w log
closed w (_ ∷ log) = closed w log

-- What accept() returned last, and -1 before that.
abbrev pub last_accepted : Kernel → List Call → ℤ
last_accepted k [] = minus_one
last_accepted k (accept fd ∷ log) = k.result log (accept fd)
last_accepted k (_ ∷ log) = last_accepted k log
