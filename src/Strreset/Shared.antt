-- ===== src/Strreset/Shared.antt =====
-- The copies in strreset.c of the functions that the programs share, with the arguments by which they differ.
use sctp_tests.Prelude.{ℕ, String}
use sctp_tests.Posix.{M}
use sctp_tests.Harness
use sctp_tests.Harness.{Context, cmd_ack}

-- sn_create_asoc_sk()
abbrev pub create_asoc_sk : String → String → M Context (Unit {0})
create_asoc_sk = Harness.create_asoc_sk

-- sn_create_listen_sk()
abbrev pub create_listen_sk : String → String → M Context (Unit {0})
create_listen_sk = Harness.create_listen_sk

-- sn_enable_sk_recvinfo()
abbrev pub enable_sk_recvinfo : M Context (Unit {0})
enable_sk_recvinfo = Harness.enable_sk_recvinfo

-- sn_send_asoc_msg(), which takes the timetolive
abbrev pub send_asoc_msg : ℕ → ℕ → ℕ → ℕ → M Context (Unit {0})
send_asoc_msg = Harness.send_asoc_msg

-- sn_close_asoc_sk(), which prints 13 as the length that it expects
abbrev pub close_asoc_sk : M Context (Unit {0})
close_asoc_sk = Harness.close_asoc_sk cmd_ack

-- sn_enable_asoc_strreset(), which allows all requests: SCTP_ENABLE_STRRESET_MASK
abbrev pub enable_strreset_mask : ℕ
enable_strreset_mask = 7

abbrev pub enable_asoc_strreset : M Context (Unit {0})
enable_asoc_strreset = Harness.enable_asoc_strreset enable_strreset_mask

-- sn_enable_peer_strreset()
abbrev pub enable_peer_strreset : M Context (Unit {0})
enable_peer_strreset = Harness.enable_peer_strreset cmd_ack
