-- ===== src/DryEvent/Setup.antt =====
-- The functions of sctp-dry-event.c that create and configure a socket.
use sctp_tests.Prelude.{ℕ, String, ◌+◌, ◌*◌, ◌/◌, ◌%◌, ℤ, pos, is_negative, if◌then◌else◌}
use sctp_tests.Posix.{
  M, SockOpt, ioctl, setsockopt, socket, stream, bind_inet, connect_inet, listen, perror, pure,
  call, emit, ◌>>=◌, ◌>>◌,
}

-- The program keeps nothing between its functions but the two buffers, whose contents are left out.
abbrev pub Dry : Type 0 → Type 0
Dry = M (Unit {0})

-- `if (rc < 0) return rc;`, and what comes after it
unfoldable pub or_return : ℤ → Dry ℤ → Dry ℤ
or_return rc later = if is_negative rc then pure rc else later

-- `if (rc < 0) { perror(what); return rc; }`
unfoldable pub or_report : String → ℤ → Dry ℤ → Dry ℤ
or_report what rc later = if is_negative rc then (do emit (perror what); pure rc) else later

-- htons() on a little-endian machine
abbrev pub htons : ℕ → ℕ
htons port = port % 256 * 256 + port / 256 % 256

unfoldable pub make_nonblock : ℤ → Dry ℤ
make_nonblock fd = do rc ← call (ioctl fd); or_report "ioctl(FIONBIO)" rc (pure (pos 0))

unfoldable pub make_nodelay : ℤ → Dry ℤ
make_nodelay fd = do
  rc ← call (setsockopt fd (SockOpt.nodelay 1))
  or_report "setsockoopt(NODELAY)" rc (pure (pos 0))

unfoldable pub enable_events : ℤ → Dry ℤ
enable_events fd = do
  rc ← call (setsockopt fd (SockOpt.events 1 1))
  or_report "setsockopt(EVENTS)" rc (pure (pos 0))

unfoldable pub create_sctp_socket : Dry ℤ
create_sctp_socket = do
  fd ← call (socket stream)
  or_report "socket" fd (do rc ← make_nodelay fd; or_return rc (pure fd))

unfoldable pub create_sctp_socket_server : ℕ → Dry ℤ
create_sctp_socket_server port = do
  fd ← create_sctp_socket
  or_return fd (do
    rc ← call (bind_inet fd 0 (htons port))
    or_report "bind" rc (do rc ← call (listen fd 100); or_report "listen" rc (pure fd)))

-- the port of the client's own address is stored without htons()
unfoldable pub create_sctp_socket_client : ℕ → ℕ → Dry ℤ
create_sctp_socket_client srv_ip port = do
  fd ← create_sctp_socket
  or_return fd (do
    rc ← call (bind_inet fd 0x7F000002 3333)
    or_report "bind" rc
        (do rc ← call (connect_inet fd srv_ip (htons port)); or_report "connect" rc (pure fd)))
