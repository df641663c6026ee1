-- ===== src/Harness/Serve.antt =====
-- The receiving loop of do_server().
use sctp_tests.Prelude.{ℕ, zero, suc, Bool, true, false, ◌==◌, if◌then◌else◌}
use sctp_tests.Posix.{M, modify, pure, out_of_fuel, ◌>>=◌, ◌>>◌}
use sctp_tests.Harness.State.{Context, cmd_set_strreset, cmd_close_asoc}
use sctp_tests.Harness.Socket.{enable_asoc_strreset}
use sctp_tests.Harness.Command.{get_peer_cmd, send_peer_ack}

-- `allowed` is the program's argument of sn_enable_asoc_strreset(), and `check` what it does with a
-- data message: the function that its table of cases names.
module _ (allowed : ℕ) (check : M Context (Unit {0})) where
  -- the body of the switch; the result is the test of the loop, since only closing sets cmd to -1
  unfoldable pub handle : ℕ → M Context Bool
  handle cmd =
      if cmd == cmd_set_strreset
      then (do enable_asoc_strreset allowed; send_peer_ack; pure true)
      else if cmd == cmd_close_asoc
      then (do send_peer_ack; pure false)
      else do modify (λ s. record s { cb2 = cmd }); check; pure true

  -- `while (cmd >= 0)`, for at most so many messages
  unfoldable pub serve : ℕ → M Context (Unit {0})
  serve zero = out_of_fuel
  serve (suc n) = do
    cmd ← get_peer_cmd
    more ← handle cmd
    elim more [ true ↦ serve n | false ↦ pure tt ]
