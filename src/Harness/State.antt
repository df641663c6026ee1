-- ===== src/Harness/State.antt =====
-- struct sn_context and the command lengths of the conformance programs.
use sctp_tests.Prelude.{ℕ, ℤ, pos}

-- `sched` (`c` in the other two programs) is `case_no`. `sri_stream` is `sri->sinfo_stream`, and
-- `asoc_pad` the four bytes between `asoc_id` and `sri` on a 64-bit machine. The address at which
-- `serv` points is left out: each program talks to one peer.
pub record Context : Type 0 where
  pub fd : ℤ
  pub case_no : ℤ
  pub cb0 : ℕ
  pub cb1 : ℕ
  pub cb2 : ℕ
  pub cb3 : ℕ
  pub asoc_id : ℕ
  pub asoc_pad : ℕ
  pub sri_stream : ℕ

-- memset(&snc, 0, sizeof(snc))
abbrev pub zeroed : Context
zeroed = record {
  fd = pos 0;
  case_no = pos 0;
  cb0 = 0;
  cb1 = 0;
  cb2 = 0;
  cb3 = 0;
  asoc_id = 0;
  asoc_pad = 0;
  sri_stream = 0;
}

-- A command is a message of one of these lengths.
abbrev pub cmd_set_strreset : ℕ
cmd_set_strreset = 11

abbrev pub cmd_close_asoc : ℕ
cmd_close_asoc = 12

abbrev pub cmd_ack : ℕ
cmd_ack = 13
