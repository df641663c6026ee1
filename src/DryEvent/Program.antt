-- ===== src/DryEvent/Program.antt =====
-- server_mainloop() and main() of sctp-dry-event.c.
use text.Mathlib.Text.{◌==◌ as str_eq}
use sctp_tests.Prelude.{
  ℕ, zero, suc, String, ℤ, pos, negsuc, is_negative, is_zero, Bool, true, false, not, List, [], ◌∷◌,
  ◌==◌, if◌then◌else◌,
}
use sctp_tests.Posix.{
  accept, close, select, perror, call, call_value, exit, pure, out_of_fuel, emit, print, ◌>>=◌,
  ◌>>◌,
}
use sctp_tests.DryEvent.Setup.{
  Dry, or_return, make_nonblock, make_nodelay, enable_events, create_sctp_socket_server,
  create_sctp_socket_client,
}
use sctp_tests.DryEvent.Transfer.{read_data, send_data}

abbrev pub is_one : ℤ → Bool
is_one (pos n) = n == 1
is_one (negsuc n) = false

-- from `if (rc < 0) break;` on; the result is false on `break`
unfoldable pub respond : ℤ → ℤ → Dry Bool
respond fd rc =
    if is_negative rc
    then pure false
    else if is_one rc
    then (do print "Sending Response\n" []; rc ← send_data fd; pure (not (is_negative rc)))
    else pure true

-- one round of the inner loop of server_mainloop(); the result is false on `break`
unfoldable pub round : ℤ → Dry Bool
round fd = do
  (rc, is_set) ← call_value (select fd)
  if is_zero rc
      then pure true
      else if is_negative rc
      then (do emit (perror "select"); pure false)
      else if is_set == 0
      then pure true
      else do rc ← read_data fd; respond fd rc

-- the inner loop, for at most so many rounds
unfoldable pub rounds : ℕ → ℤ → Dry (Unit {0})
rounds zero fd = out_of_fuel
rounds (suc n) fd = do more ← round fd; elim more [ true ↦ rounds n fd | false ↦ pure tt ]

-- what is done with an accepted socket before the inner loop
unfoldable pub configure : Bool → ℤ → Dry ℤ
configure enable_dry_events fd = do
  rc ← if enable_dry_events then enable_events fd else pure (pos 0)
  or_return rc (do rc ← make_nodelay fd; or_return rc (make_nonblock fd))

-- for at most so many connections, of at most `limit` rounds each
unfoldable pub server_mainloop : ℕ → ℕ → ℤ → Bool → Dry ℤ
server_mainloop zero limit srv_fd enable_dry_events = out_of_fuel
server_mainloop (suc n) limit srv_fd enable_dry_events = do
  fd ← call (accept srv_fd)
  rc ← or_return fd (configure enable_dry_events fd)
  elim (is_negative rc) [
    | true ↦ pure rc
    | false ↦ rounds limit fd >>= λ _.
        emit (close fd) >>= λ _. server_mainloop n limit srv_fd enable_dry_events
  ]

-- `while (read_data(fd) == 0) { }`
unfoldable pub wait_for_response : ℕ → ℤ → Dry (Unit {0})
wait_for_response zero fd = out_of_fuel
wait_for_response (suc n) fd = do
  rc ← read_data fd
  elim (is_zero rc) [ true ↦ wait_for_response n fd | false ↦ pure tt ]

abbrev usage : String
usage =
    "You can call this program the following ways:\nsctp-dry-event client\n\t* Run in client mode, connect to server\n\t* Send a single 24byte DATA message\n\t* Wait indefinitely for any response\nsctp-dry-event server\n\t* Run in server mode, wait for client connection\n\t* Do a non-blocking read\n\t* Send a response back to the client\n\t* Close the socket and re-start\nsctp-dry-event server dry\n\t* Run in server mode like above, but activate SENDER_DRY_EVENT\n\tIf you connect the client in this mode, there are high chances \n\tthat the server will not get out of the select() of the non-blocking\n\tread, which is the bug this tool is designed to point out\n"

unfoldable pub print_usage_and_exit : {A : Type 0} → ℕ → Dry A
print_usage_and_exit rc = do print usage []; exit (pos rc)

-- main() in server mode; it ends without a `return`, which is a return of 0
unfoldable pub run_server : ℕ → ℕ → Bool → Dry ℤ
run_server fuel limit enable_dry = do
  print (if enable_dry then "Running SCTP Server WITH DRY EVENTS\n" else "Running SCTP Server\n") []
  fd ← create_sctp_socket_server 2905
  if is_negative fd
      then (do emit (perror "Error creating server socket"); exit (pos 1))
      else do server_mainloop fuel limit fd enable_dry; pure (pos 0)

-- main() in client mode, from where the message is sent
unfoldable pub receive_response : ℕ → ℤ → Dry ℤ
receive_response fuel fd = do
  print "Waiting for response...\n" []
  wait_for_response fuel fd
  emit (close fd)
  pure (pos 0)

-- main() in client mode, with the connected socket
unfoldable pub send_message : ℕ → ℤ → Dry ℤ
send_message fuel fd = do
  print "Connected, sending data...\n" []
  rc ← send_data fd
  if is_negative rc then exit (pos 1) else receive_response fuel fd

-- main() in client mode
unfoldable pub run_client : ℕ → Dry ℤ
run_client fuel = do
  print "Connecting SCTP Client\n" []
  fd ← create_sctp_socket_client 0x7f000001 2905
  if is_negative fd
      then (do emit (perror "Error creating client socket"); exit (pos 1))
      else send_message fuel fd

-- the arguments of main() after "server"
unfoldable pub server_mode : ℕ → ℕ → List String → Dry ℤ
server_mode fuel limit [] = run_server fuel limit false
server_mode fuel limit (option ∷ others) =
    if str_eq option "dry" then run_server fuel limit true else print_usage_and_exit 1

unfoldable pub main : ℕ → ℕ → List String → Dry ℤ
main fuel limit (name ∷ mode ∷ others) =
    if str_eq mode "server"
    then server_mode fuel limit others
    else if str_eq mode "client"
    then run_client fuel
    else print_usage_and_exit 1
main fuel limit _ = print_usage_and_exit 0
