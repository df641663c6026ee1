-- ===== src/Harness/Command.antt =====
-- Messages and commands between the two ends: a message's length is the command.
use sctp_tests.Prelude.{ℕ, pos, [], ◌∷◌}
use sctp_tests.Posix.{
  M, Received, failed, got, sendmsg, close, sleep, recv, gets, modify, pure, emit, must_send, die,
  print, ◌>>=◌, ◌>>◌,
}
use sctp_tests.Harness.State.{Context, cmd_set_strreset, cmd_close_asoc, cmd_ack}

-- sn_send_asoc_msg(), whose last argument is the timetolive of sctp_sendmsg(); sctp_ndata.c has no
-- such argument and passes 0
unfoldable pub send_asoc_msg : ℕ → ℕ → ℕ → ℕ → M Context (Unit {0})
send_asoc_msg msg_len sid flags value = do
  s ← gets (λ s. s)
  must_send (sendmsg s.fd msg_len flags sid value) "sendmsg"

-- the reply to a command, as sn_send_asoc_cmd() reads it
unfoldable pub reply_read : ℕ → Received → M Context (Unit {0})
reply_read expected failed = die "recvmsg"
reply_read expected (got len sid) =
    print "recv_len: %d, expected: %d\n" (pos len ∷ pos expected ∷ [])

-- sn_send_asoc_cmd(), with the length that its message says it expects
unfoldable pub send_asoc_cmd : ℕ → ℕ → M Context (Unit {0})
send_asoc_cmd msg_len expected = do
  s ← gets (λ s. s)
  must_send (sendmsg s.fd msg_len 0 0 0) "sendmsg"
  answer ← recv s.fd 1024
  reply_read expected answer

-- what sn_get_peer_cmd() does with what it received
unfoldable pub command_read : Received → M Context ℕ
command_read failed = die "recvmsg"
command_read (got len sid) = do modify (λ s. record s { sri_stream = sid }); pure len

-- sn_get_peer_cmd()
unfoldable pub get_peer_cmd : M Context ℕ
get_peer_cmd = do s ← gets (λ s. s); message ← recv s.fd 20480; command_read message

-- sn_send_peer_ack()
unfoldable pub send_peer_ack : M Context (Unit {0})
send_peer_ack = send_asoc_msg cmd_ack 0 0 0

-- sn_enable_peer_strreset()
unfoldable pub enable_peer_strreset : ℕ → M Context (Unit {0})
enable_peer_strreset expected = send_asoc_cmd cmd_set_strreset expected

-- sn_close_asoc_sk()
unfoldable pub close_asoc_sk : ℕ → M Context (Unit {0})
close_asoc_sk expected = do
  send_asoc_cmd cmd_close_asoc expected
  s ← gets (λ s. s)
  emit (close s.fd)
  print "closed asoc done\n" []
  emit (sleep 5)
