-- ===== src/HashTable/Assocs.antt =====
-- The table of sockets, and create_assocs().
use sctp_tests.Prelude.{
  ℕ, ◌-◌, String, ℤ, pos, negsuc, is_minus_one, Bool, ◌&&◌, ◌==◌, ltb, if◌then◌else◌,
}
use sctp_tests.Posix.{
  M, getaddrinfo, socket, seqpacket, bind, connect, eprintf, call, gets, modify, pure, exit, fault,
  for_range, emit, die, must_send, fetch, ◌>>=◌, ◌>>◌,
}
use sctp_tests.HashTable.Address.{address}

-- `static int fds[50][50]` and total_len of main()
pub record Perf : Type 0 where
  pub fds : ℕ → ℕ → ℤ
  pub total_len : ℕ

abbrev pub table_size : ℕ
table_size = 50

-- both indices are in bounds
abbrev pub fits : ℕ → ℕ → Bool
fits i j = ltb i table_size && ltb j table_size

abbrev pub put : ℕ → ℕ → ℤ → (ℕ → ℕ → ℤ) → ℕ → ℕ → ℤ
put i j fd table a b = if (a == i) && (b == j) then fd else table a b

-- `fds[i][j] = fd`
unfoldable pub store : ℕ → ℕ → ℤ → M Perf (Unit {0})
store i j fd = if fits i j then modify (λ s. record s { fds = put i j fd s.fds }) else fault

-- `fds[i][j]`
unfoldable pub load : ℕ → ℕ → M Perf ℤ
load i j = if fits i j then gets (λ s. s.fds i j) else fault

-- assert(res->ai_family == family): abort() ends the program with SIGABRT, which the shell reports as 134
unfoldable pub assert_family : ℕ → ℕ → M Perf (Unit {0})
assert_family found family =
    if found == family
    then pure tt
    else do emit (eprintf "Assertion `res->ai_family == family' failed."); exit (pos 134)

-- `if ((fd = socket(...)) == -1) { perror("socket"); exit(-1); }`
unfoldable pub open_socket : M Perf ℤ
open_socket = do fd ← call (socket seqpacket); if is_minus_one fd then die "socket" else pure fd

-- the body of the loops of create_assocs()
unfoldable pub create_assoc : ℕ → String → ℕ → ℕ → M Perf (Unit {0})
create_assoc family local_port i j = do
  found ← fetch (getaddrinfo (address family i j) local_port) "getaddrinfo"
  assert_family found family
  fd ← open_socket
  must_send (bind fd) "bind"
  must_send (connect fd) "connect"
  store (i - 1) (j - 1) fd

-- how often `for (i = 1; i <= cnt; i++)` goes round
abbrev pub rounds_of : ℤ → ℕ
rounds_of (pos n) = n
rounds_of (negsuc n) = 0

unfoldable pub create_assocs : ℕ → String → ℤ → M Perf (Unit {0})
create_assocs family local_port cnt =
    for_range (rounds_of cnt) 1
      λ i. for_range (rounds_of cnt) 1 λ j. create_assoc family local_port i j
