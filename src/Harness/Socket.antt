-- ===== src/Harness/Socket.antt =====
-- The socket functions of the conformance programs.
use sctp_tests.Prelude.{ℕ, String, is_zero, if◌then◌else◌}
use sctp_tests.Posix.{
  M, SockOpt, GetOpt, getsockopt, setsockopt, getaddrinfo, socket, seqpacket, connect, bind, listen,
  perror, call, gets, modify, pure, emit, must, fetch, ◌>>=◌, ◌>>◌,
}
use sctp_tests.Harness.State.{Context}

-- sn_get_asoc_id()
unfoldable pub get_asoc_id : M Context ℕ
get_asoc_id = do s ← gets (λ s. s); fetch (getsockopt s.fd GetOpt.assoc_id_list) "getsockopt"

-- sn_enable_asoc_strreset(), for the requests that the program allows
unfoldable pub enable_asoc_strreset : ℕ → M Context (Unit {0})
enable_asoc_strreset allowed = do
  id ← get_asoc_id
  modify (λ s. record s { asoc_id = id })
  s ← gets (λ s. s)
  must (setsockopt s.fd (SockOpt.enable_stream_reset s.asoc_id allowed)) "setsockopt"

-- sn_enable_sk_recvinfo()
unfoldable pub enable_sk_recvinfo : M Context (Unit {0})
enable_sk_recvinfo = do s ← gets (λ s. s); must (setsockopt s.fd (SockOpt.events 1 0)) "setsockopt"

-- sn_do_setup_frag_interleave()
unfoldable pub do_setup_frag_interleave : M Context (Unit {0})
do_setup_frag_interleave = do
  s ← gets (λ s. s)
  must (setsockopt s.fd (SockOpt.fragment_interleave 1)) "setsockopt"

-- sizeof(struct sctp_assoc_value)
abbrev assoc_value_size : ℕ
assoc_value_size = 8

-- sn_do_setup_strm_interleave(): a refusal is reported, and not fatal
unfoldable pub do_setup_strm_interleave : M Context (Unit {0})
do_setup_strm_interleave = do
  s ← gets (λ s. s)
  r ← call (setsockopt s.fd (SockOpt.interleaving_supported s.asoc_id assoc_value_size))
  if is_zero r then pure tt else emit (perror "setsockopt")

-- sn_create_asoc_sk()
unfoldable pub create_asoc_sk : String → String → M Context (Unit {0})
create_asoc_sk ip port = do
  must (getaddrinfo ip port) "getaddrinfo"
  fd ← call (socket seqpacket)
  modify (λ s. record s { fd = fd })
  do_setup_frag_interleave
  do_setup_strm_interleave
  must (connect fd) "connect"
  id ← get_asoc_id
  modify (λ s. record s { asoc_id = id })

-- sn_create_listen_sk()
unfoldable pub create_listen_sk : String → String → M Context (Unit {0})
create_listen_sk ip port = do
  must (getaddrinfo ip port) "getaddrinfo"
  fd ← call (socket seqpacket)
  modify (λ s. record s { fd = fd })
  do_setup_frag_interleave
  do_setup_strm_interleave
  must (bind fd) "bind"
  must (listen fd 10) "listen"
