-- ===== src/PeelOff/Program.antt =====
-- The two threads and main() of the client.
use sctp_tests.Prelude.{
  ℕ, zero, suc, String, ℤ, pos, is_zero, is_minus_one, Bool, true, false, List, [], ◌∷◌, ◌==◌,
  if◌then◌else◌,
}
use sctp_tests.Posix.{
  M, Kernel, GetOpt, getaddrinfo, socket, seqpacket, connect, getsockopt, sendmsg, close, system,
  drop_output_data, flush, sleep, perror, ignore_sigpipe, call, call_value, ask, gets, modify, pure,
  emit, print, with_thread, ◌>>=◌, ◌>>◌,
}

-- `pass` of main(), by which it leaves its loop, and `associd` of peeloff_sctp()
pub record Busy : Type 0 where
  pub pass : Bool
  pub associd : ℕ

abbrev pub epipe : ℕ
epipe = 32

-- get_asoc_id()
unfoldable pub get_asoc_id : ℤ → M Busy ℕ
get_asoc_id fd = do
  (r, id) ← call_value (getsockopt fd GetOpt.assoc_id_list)
  if is_minus_one r then (do emit (perror "getsockopt"); pure 0) else pure id

-- what peeloff_sctp() does only with an association
unfoldable pub if_associated : M Busy (Unit {0}) → M Busy (Unit {0})
if_associated m = do s ← gets (λ s. s); if s.associd == 0 then pure tt else m

-- from the getsockopt() that peels off to the label
unfoldable pub peel : ℤ → ℕ → M Busy (Unit {0})
peel sctpsd associd = do
  newsd ← call (getsockopt sctpsd (GetOpt.peeloff associd))
  print "new sd %d\n" (newsd ∷ [])
  if is_minus_one newsd then emit (perror "getsockopt") else pure tt

-- peeloff_sctp(): a step makes one call of the kernel, with the output that follows
unfoldable pub peeloff_sctp : ℤ → List (M Busy (Unit {0}))
peeloff_sctp sctpsd =
    (do
      id ← get_asoc_id sctpsd
      modify (λ s. record s { associd = id })
      print "sd is %d, %d\n" (sctpsd ∷ pos id ∷ []))
    ∷ if_associated (emit (sleep 5))
    ∷ if_associated (do s ← gets (λ s. s); peel sctpsd s.associd)
    ∷ emit (system flush)
    ∷ []

-- one round of the loop of main(), which is left when pass has been set; errno is looked at whatever the
-- result of the call
unfoldable pub send_round : ℤ → M Busy (Unit {0})
send_round sctpsd = do
  s ← gets (λ s. s)
  if s.pass then pure tt else do
    call (sendmsg sctpsd 1024 0 0 0)
    errno ← ask Kernel.errno
    if errno == epipe then modify (λ s. record s { pass = true }) else pure tt

abbrev pub times {ℓ} : {A : Type ℓ} → ℕ → A → List A
times zero a = []
times (suc n) a = a ∷ times n a

-- main(), from pthread_create() to pthread_join()
unfoldable pub main_steps : ℤ → List (M Busy (Unit {0}))
main_steps sctpsd = emit (system drop_output_data) ∷ times 100 (send_round sctpsd)

-- `return !pass;`
unfoldable pub return_status : M Busy ℤ
return_status = do s ← gets (λ s. s); pure (if s.pass then pos 0 else pos 1)

-- main(), from the label on
unfoldable pub finish : ℤ → M Busy ℤ
finish sctpsd = do emit (close sctpsd); return_status

-- main(), with the connected socket
unfoldable pub run_threads : List Bool → ℤ → M Busy ℤ
run_threads schedule sctpsd = do
  with_thread schedule (main_steps sctpsd) (peeloff_sctp sctpsd)
  finish sctpsd

-- main() with an address and a port, from `int pass = 0` on, on a schedule of its two threads
unfoldable pub main : List Bool → String → String → M Busy ℤ
main schedule ip port = do
  modify (λ s. record s { pass = false })
  emit ignore_sigpipe
  err ← call (getaddrinfo ip port)
  if is_zero err
      then (do
        print "Starting SCTP client connection to %s:%s\n" []
        sctpsd ← call (socket seqpacket)
        err ← call (connect sctpsd)
        if is_minus_one err
            then (do emit (perror "connect"); finish sctpsd)
            else run_threads schedule sctpsd)
      else do emit (perror "getaddrinfo"); return_status
