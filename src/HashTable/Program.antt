-- ===== src/HashTable/Program.antt =====
-- main() of the client.
use sctp_tests.Prelude.{
  ℕ, ◌+◌, ◌-◌, ◌%◌, ◌^◌, String, ℤ, pos, negsuc, minus_one, is_minus_one, sub_ℕ, Bool, false, List,
  [], ◌∷◌, ltb, if◌then◌else◌,
}
use sctp_tests.Posix.{
  M, getaddrinfo, bind, connect, sendmsg, close, sleep, call, now, gets, modify, pure, exit,
  for_range, emit, print, die, must_send, fetch, ◌>>=◌, ◌>>◌,
}
use sctp_tests.Harness.{atoi}
use sctp_tests.HashTable.Address.{address}
use sctp_tests.HashTable.Assocs.{Perf, load, open_socket, rounds_of, create_assocs}

-- `total_len += send_len`, of an unsigned long of 64 bits and an int
abbrev pub add_len : ℕ → ℤ → ℕ
add_len total (pos n) = (total + n) % 2 ^ 64
add_len total (negsuc n) = (total + (2 ^ 64 - (n + 1))) % 2 ^ 64

-- LOOPS
abbrev pub loops : ℕ
loops = 100000

-- one round of the loop that sends
unfoldable pub send_one : ℤ → M Perf (Unit {0})
send_one fd = do
  send_len ← call (sendmsg fd 1 0 0 0)
  if is_minus_one send_len
      then die "sctp_sendmsg"
      else modify (λ s. record s { total_len = add_len s.total_len send_len })

-- from `start = time(NULL)` to the printf() of the result, which is time_spent
unfoldable pub measure : ℤ → M Perf ℤ
measure fd = do
  start ← now
  for_range loops 0 (λ _. send_one fd)
  end ← now
  s ← gets (λ s. s)
  print "time is %lf, send pkt is %lu\n" (sub_ℕ end start ∷ pos s.total_len ∷ [])
  pure (sub_ℕ end start)

-- `close(fds[i-1][j-1])` for all of the table
unfoldable pub close_assocs : ℤ → M Perf (Unit {0})
close_assocs cnt =
    for_range (rounds_of cnt) 1
      λ i. for_range (rounds_of cnt) 1 λ j. do fd ← load (i - 1) (j - 1); emit (close fd)

-- `time_spent > 1000`
abbrev pub is_slow : ℤ → Bool
is_slow (pos n) = ltb 1000 n
is_slow (negsuc n) = false

-- main(), from the test of time_spent
unfoldable pub finish : ℤ → ℤ → ℤ → M Perf ℤ
finish fd cnt time_spent =
    if is_slow time_spent
    then (do print "Expect spending less than 1000 seconds\n" []; pure (pos 1))
    else do close_assocs cnt; emit (close fd); emit (sleep 30); pure (pos 0)

-- main() with four arguments
unfoldable pub run : String → String → String → String → M Perf ℤ
run remote_addr remote_port local_port addr_cnt = do
  family ← fetch (getaddrinfo remote_addr remote_port) "getaddrinfo"
  local_family ← fetch (getaddrinfo (address family 253 253) local_port) "getaddrinfo"
  fd ← open_socket
  must_send (bind fd) "bind"
  must_send (connect fd) "connect"
  create_assocs local_family local_port (atoi addr_cnt)
  time_spent ← measure fd
  finish fd (atoi addr_cnt) time_spent

unfoldable pub main : List String → M Perf ℤ
main (name ∷ remote_addr ∷ remote_port ∷ local_port ∷ addr_cnt ∷ []) =
    run remote_addr remote_port local_port addr_cnt
main _ = do
  print "Usage: %s <remote_addr> <remote_port> <local_port> <addr_cnt>\n" []
  exit minus_one
