-- ===== src/Harness/Stable.antt =====
-- Invariants of the shared functions: what no call but system() touches, and no field of the context
-- that these functions write.
use sctp_tests.Prelude.{ℕ, String, ℤ, List}
use sctp_tests.Posix.{Call, Kernel, Received, failed, got, system, modify}
use sctp_tests.Posix.Rules.{Adds, Dies, call_rules}
use sctp_tests.Posix.Triple.{Keeps}
use sctp_tests.Harness.State.{Context}
use sctp_tests.Harness.Socket.{
  get_asoc_id, enable_asoc_strreset, enable_sk_recvinfo, do_setup_frag_interleave,
  do_setup_strm_interleave, create_asoc_sk, create_listen_sk,
}
use sctp_tests.Harness.Command.{
  send_asoc_msg, reply_read, send_asoc_cmd, command_read, get_peer_cmd, send_peer_ack,
  enable_peer_strreset, close_asoc_sk,
}

abbrev pub IsHarmless : Call → Type 0
IsHarmless (system rule) = ⊥
IsHarmless _ = Unit

pub record Stable (P : Context → List Call → Type 0) (E : ℤ → List Call → Type 0) : Type 0 where
  pub adds : (c : Call) → IsHarmless c → Adds P c
  pub dies : (what : String) → Dies P E what
  pub fd : (fd : ℤ) (s : Context) (log : List Call) → P s log → P (record s { fd = fd }) log
  pub asoc_id :
      (id : ℕ) (s : Context) (log : List Call) → P s log → P (record s { asoc_id = id }) log
  pub sri_stream :
      (sid : ℕ) (s : Context) (log : List Call) → P s log → P (record s { sri_stream = sid }) log

module _ (P : Context → List Call → Type 0) (E : ℤ → List Call → Type 0) (F : List Call → Type 0)
    (k : Kernel) (st : Stable P E) where
  store_fd-Keeps : (fd : ℤ) → Keeps k P E F (modify (λ s. record s { fd = fd }))
  unfolding modify
  store_fd-Keeps fd = record { at = st.fd fd }

  store_asoc_id-Keeps : (id : ℕ) → Keeps k P E F (modify (λ s. record s { asoc_id = id }))
  unfolding modify
  store_asoc_id-Keeps id = record { at = st.asoc_id id }

  store_sri_stream-Keeps : (sid : ℕ) → Keeps k P E F (modify (λ s. record s { sri_stream = sid }))
  unfolding modify
  store_sri_stream-Keeps sid = record { at = st.sri_stream sid }

  get_asoc_id-Keeps : Keeps k P E F get_asoc_id
  unfolding get_asoc_id
  get_asoc_id-Keeps = search (call_rules, st.adds, st.dies, tt) depth 8

  pub enable_asoc_strreset-Keeps : (allowed : ℕ) → Keeps k P E F (enable_asoc_strreset allowed)
  unfolding enable_asoc_strreset
  enable_asoc_strreset-Keeps allowed =
      search (call_rules, st.adds, st.dies, tt, get_asoc_id-Keeps, store_asoc_id-Keeps) depth 8

  pub enable_sk_recvinfo-Keeps : Keeps k P E F enable_sk_recvinfo
  unfolding enable_sk_recvinfo
  enable_sk_recvinfo-Keeps = search (call_rules, st.adds, st.dies, tt) depth 8

  pub create_asoc_sk-Keeps : (ip port : String) → Keeps k P E F (create_asoc_sk ip port)
  unfolding create_asoc_sk do_setup_frag_interleave do_setup_strm_interleave
  create_asoc_sk-Keeps ip port =
      search
        (call_rules, st.adds, st.dies, tt, get_asoc_id-Keeps, store_asoc_id-Keeps, store_fd-Keeps)
        depth 14

  pub create_listen_sk-Keeps : (ip port : String) → Keeps k P E F (create_listen_sk ip port)
  unfolding create_listen_sk do_setup_frag_interleave do_setup_strm_interleave
  create_listen_sk-Keeps ip port =
      search (call_rules, st.adds, st.dies, tt, store_fd-Keeps) depth 14

  pub send_asoc_msg-Keeps :
      (len sid flags value : ℕ) → Keeps k P E F (send_asoc_msg len sid flags value)
  unfolding send_asoc_msg
  send_asoc_msg-Keeps len sid flags value = search (call_rules, st.adds, st.dies, tt) depth 8

  reply_read-Keeps : (expected : ℕ) (answer : Received) → Keeps k P E F (reply_read expected answer)
  unfolding reply_read
  reply_read-Keeps expected failed = search (call_rules, st.dies)
  reply_read-Keeps expected (got len sid) = search (call_rules, st.adds, tt)

  pub send_asoc_cmd-Keeps : (len expected : ℕ) → Keeps k P E F (send_asoc_cmd len expected)
  unfolding send_asoc_cmd
  send_asoc_cmd-Keeps len expected =
      search (call_rules, st.adds, st.dies, tt, reply_read-Keeps) depth 8

  command_read-Keeps : (answer : Received) → Keeps k P E F (command_read answer)
  unfolding command_read
  command_read-Keeps failed = search (call_rules, st.dies)
  command_read-Keeps (got len sid) = search (call_rules, store_sri_stream-Keeps)

  pub get_peer_cmd-Keeps : Keeps k P E F get_peer_cmd
  unfolding get_peer_cmd
  get_peer_cmd-Keeps = search (call_rules, st.adds, tt, command_read-Keeps) depth 8

  pub send_peer_ack-Keeps : Keeps k P E F send_peer_ack
  unfolding send_peer_ack
  send_peer_ack-Keeps = send_asoc_msg-Keeps 13 0 0 0

  pub enable_peer_strreset-Keeps : (expected : ℕ) → Keeps k P E F (enable_peer_strreset expected)
  unfolding enable_peer_strreset
  enable_peer_strreset-Keeps expected = send_asoc_cmd-Keeps 11 expected

  pub close_asoc_sk-Keeps : (expected : ℕ) → Keeps k P E F (close_asoc_sk expected)
  unfolding close_asoc_sk
  close_asoc_sk-Keeps expected = search (call_rules, st.adds, tt, send_asoc_cmd-Keeps) depth 10
