-- ===== src/Harness/Quiet.antt =====
-- The set-up of a receiver, and of a sender, on a kernel on which no call fails.
use sctp_tests.Prelude.{ℕ, String, ℤ, List}
use sctp_tests.Posix.{Kernel, modify}
use sctp_tests.Posix.Triple.{keeps_rules}
use sctp_tests.Harness.State.{Context}
use sctp_tests.Harness.Socket.{
  do_setup_frag_interleave, do_setup_strm_interleave, enable_sk_recvinfo, create_listen_sk,
}
use sctp_tests.Harness.Peer.{
  Message, Delivers, Quiet, Quiet-must, Quiet-socket, Quiet-setsockopt, Quiet-perror, Quiet-modify,
}

module _ (k : Kernel) (script : List Message) (d : Delivers k script) (I : Context → Type 0)
    (n : ℕ) where
  do_setup_frag_interleave-Quiet : Quiet k I n do_setup_frag_interleave
  unfolding do_setup_frag_interleave
  do_setup_frag_interleave-Quiet = search (keeps_rules, Quiet-must k script d, tt)

  do_setup_strm_interleave-Quiet : Quiet k I n do_setup_strm_interleave
  unfolding do_setup_strm_interleave
  do_setup_strm_interleave-Quiet = search (keeps_rules, Quiet-setsockopt, Quiet-perror)

  pub enable_sk_recvinfo-Quiet : Quiet k I n enable_sk_recvinfo
  unfolding enable_sk_recvinfo
  enable_sk_recvinfo-Quiet = search (keeps_rules, Quiet-must k script d, tt)

  store_fd :
      ((fd : ℤ) (s : Context) → I s → I (record s { fd = fd }))
      → (fd : ℤ) → Quiet k I n (modify (λ s. record s { fd = fd }))
  store_fd keep fd = Quiet-modify _ (keep fd)

  pub create_listen_sk-Quiet :
      (ip port : String)
      → ((fd : ℤ) (s : Context) → I s → I (record s { fd = fd }))
      → Quiet k I n (create_listen_sk ip port)
  unfolding create_listen_sk
  create_listen_sk-Quiet ip port keep =
      search
        (
          keeps_rules,
          Quiet-must k script d,
          Quiet-socket,
          do_setup_frag_interleave-Quiet,
          do_setup_strm_interleave-Quiet,
          store_fd keep,
          tt,
        )
        depth 12
