-- ===== src/DryEvent/Transfer.antt =====
-- read_data() and send_data() of sctp-dry-event.c.
use sctp_tests.Prelude.{
  ℕ, zero, suc, ℤ, pos, minus_one, is_negative, is_zero, ◌||◌, [], ◌∷◌, ◌==◌, ltb, if◌then◌else◌,
}
use sctp_tests.Posix.{
  Kernel, Received, failed, got, eprintf, perror, send, call, recv, ask, pure, fault, emit, print,
  ◌>>=◌, ◌>>◌,
}
use sctp_tests.DryEvent.Setup.{Dry}

abbrev pub eagain : ℕ
eagain = 11

-- sizeof(buf)
abbrev pub buffer_size : ℕ
buffer_size = 1024

-- `buf[rc] = '\0'`, and the rest of read_data(); buf[1024] is past the end of the buffer
unfoldable pub show_message : ℕ → ℕ → Dry ℤ
show_message len sid = do
  ppid ← ask Kernel.ppid
  if ltb len buffer_size
      then (do
        print "Received %u bytes on PPID %u / Stream %u: %s\n" (pos len ∷ pos ppid ∷ pos sid ∷ [])
        pure (pos 1))
      else fault

unfoldable pub take_message : Received → Dry ℤ
take_message failed = do
  errno ← ask Kernel.errno
  if errno == eagain then pure (pos 0) else do emit (perror "sctp_recvmsg"); pure minus_one
take_message (got zero sid) = do emit (eprintf "sctp_recvmsg: short read\n"); pure minus_one
take_message (got (suc n) sid) = do
  notification ← ask Kernel.notification
  if notification then pure (pos 0) else show_message (suc n) sid

unfoldable pub read_data : ℤ → Dry ℤ
read_data fd = do message ← recv fd buffer_size; take_message message

-- MSG_NOSIGNAL
abbrev pub msg_nosignal : ℕ
msg_nosignal = 0x4000

unfoldable pub send_data : ℤ → Dry ℤ
send_data fd = do
  rc ← call (send fd 24 23 0 msg_nosignal)
  if is_negative rc || is_zero rc then (do emit (perror "sctp_send"); pure rc) else pure (pos 0)
