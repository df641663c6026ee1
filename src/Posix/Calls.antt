-- ===== src/Posix/Calls.antt =====
-- The calls that the programs make, with the arguments that they pass, and what a kernel answers.
-- Constants are those of linux/sctp.h and netinet/in.h.
use sctp_tests.Prelude.{ℕ, String, ℤ, Bool, List}

-- What setsockopt() is asked to set, by option name, with the fields of its argument.
pub data SockOpt : Type 0 where
  -- SCTP_STREAM_SCHEDULER: assoc_id, assoc_value
  stream_scheduler : ℕ → ℕ → SockOpt
  -- SCTP_STREAM_SCHEDULER_VALUE: assoc_id, stream_id, stream_value
  stream_scheduler_value : ℕ → ℕ → ℕ → SockOpt
  -- SCTP_ENABLE_STREAM_RESET: assoc_id, assoc_value
  enable_stream_reset : ℕ → ℕ → SockOpt
  -- SCTP_EVENTS: sctp_data_io_event, sctp_sender_dry_event
  events : ℕ → ℕ → SockOpt
  -- SCTP_FRAGMENT_INTERLEAVE
  fragment_interleave : ℕ → SockOpt
  -- SCTP_INTERLEAVING_SUPPORTED: assoc_id, assoc_value
  interleaving_supported : ℕ → ℕ → SockOpt
  -- SCTP_RESET_STREAMS: srs_assoc_id, srs_flags, srs_number_streams
  reset_streams : ℕ → ℕ → ℕ → SockOpt
  -- SCTP_RESET_ASSOC: assoc_id
  reset_assoc : ℕ → SockOpt
  -- SCTP_PR_SUPPORTED: assoc_id, assoc_value
  pr_supported : ℕ → ℕ → SockOpt
  -- SO_SNDBUF
  so_sndbuf : ℕ → SockOpt
  -- SCTP_NODELAY
  nodelay : ℕ → SockOpt

-- What getsockopt() is asked for.
pub data GetOpt : Type 0 where
  stream_scheduler : ℕ → GetOpt
  stream_scheduler_value : ℕ → ℕ → GetOpt
  assoc_id_list : GetOpt
  peeloff : ℕ → GetOpt

-- SOCK_SEQPACKET and SOCK_STREAM.
pub data SockType : Type 0 where
  seqpacket stream : SockType

-- The rules that the programs hand to iptables by system().
pub data Firewall : Type 0 where
  drop_input drop_output drop_output_data flush : Firewall

pub data Call : Type 0 where
  getaddrinfo : String → String → Call
  socket : SockType → Call
  setsockopt : ℤ → SockOpt → Call
  getsockopt : ℤ → GetOpt → Call
  connect : ℤ → Call
  bind : ℤ → Call
  listen : ℤ → ℕ → Call
  close : ℤ → Call
  -- sctp_sendmsg(): fd, msg_len, flags, stream_no, timetolive
  sendmsg : ℤ → ℕ → ℕ → ℕ → ℕ → Call
  -- sctp_recvmsg(): fd, size of the buffer
  recvmsg : ℤ → ℕ → Call
  system : Firewall → Call
  sleep : ℕ → Call
  time : Call
  srand : ℕ → Call
  rand : Call
  printf : String → List ℤ → Call
  -- fprintf(stderr, text)
  eprintf : String → Call
  -- bind() and connect() to an IPv4 address: fd, sin_addr in host order, sin_port as it is stored
  bind_inet : ℤ → ℕ → ℕ → Call
  connect_inet : ℤ → ℕ → ℕ → Call
  accept : ℤ → Call
  -- ioctl(fd, FIONBIO, 1)
  ioctl : ℤ → Call
  -- select() for reading of this one descriptor, without a limit in time
  select : ℤ → Call
  -- sctp_send(): fd, length, sinfo_ppid in host order, sinfo_stream, flags
  send : ℤ → ℕ → ℕ → ℕ → ℕ → Call
  -- signal(SIGPIPE, SIG_IGN)
  ignore_sigpipe : Call
  pthread_create pthread_join : Call
  perror : String → Call

-- What sctp_recvmsg() leaves: a failure (-1), or a message by its length and sinfo_stream.
pub data Received : Type 0 where
  failed : Received
  got : ℕ → ℕ → Received

-- A kernel and a C library, as far as the programs see them. An answer may depend on all calls
-- made so far, the newest first.
pub record Kernel : Type 0 where
  -- the result of a call that reports success or failure
  pub result : List Call → Call → ℤ
  -- the number that getsockopt() leaves in its argument; for getaddrinfo(), the
  -- family of the first address; for select(), whether FD_ISSET() holds
  pub value : List Call → Call → ℕ
  pub received : List Call → Received
  -- of the message just received: whether its flags have MSG_NOTIFICATION, and its sinfo_ppid
  pub notification : List Call → Bool
  pub ppid : List Call → ℕ
  -- errno as the last calls have left it
  pub errno : List Call → ℕ
  -- rand(), which is not negative
  pub random : List Call → ℕ
  -- time(), in seconds
  pub clock : List Call → ℕ
