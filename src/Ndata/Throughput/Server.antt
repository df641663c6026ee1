-- ===== src/Ndata/Throughput/Server.antt =====
-- The receiver of a performance case prints the throughput when the sum is reached.
use sctp_tests.Prelude.{
  ℕ, zero, suc, ◌+◌, ◌<◌, ◌≡◌, refl, String, ℤ, pos, Bool, true, false, some, List, ◌∷◌, [],
  get_elem?, ◌==◌, Bool-cases, inl, inr, arith,
}
use sctp_tests.Posix.{
  Call, Kernel, Outcome, Received, failed, got, recvmsg, printf, M, gets, modify, pure, out_of_fuel,
  die, exit, emit, ◌>>=◌, ◌>>◌,
}
use sctp_tests.Posix.Rules.{Adds, Dies, call_rules}
use sctp_tests.Posix.Triple.{
  Ends, Never, Ends-Never, Triple, Triple-then, Triple-elim, Keeps, Keeps-pure, Keeps-bind,
  continue-Ends, keeps_rules,
}
use sctp_tests.Harness.{
  Context, zeroed, cmd_set_strreset, cmd_close_asoc, get_asoc_id, enable_asoc_strreset,
  enable_sk_recvinfo, do_setup_frag_interleave, do_setup_strm_interleave, create_listen_sk,
  send_asoc_msg, send_peer_ack, command_read, get_peer_cmd, handle, serve,
}
use sctp_tests.Ndata.Cases.{SnCase, sn_cases}
use sctp_tests.Ndata.Program.{enable_reset_stream_req, check, do_server}
use sctp_tests.Ndata.Volume.{Measure, weight, full}
use sctp_tests.Ndata.Verdict.Check.{current_case_lem}
use sctp_tests.Ndata.Throughput.Counting.{is_command, measured, hits, perf_lines}
use sctp_tests.Ndata.Throughput.Check.{Reported, Due, perf_check}

module _ (k : Kernel) (m : Measure) (total : ℕ) (number : ℤ) where
  -- Lines printed when they were due.
  abbrev pub Agreed : List Call → Type 0
  Agreed log = perf_lines log ≡ hits k m total log

  abbrev Server : {A : Type 0} → M Context A → Type 0
  Server action = Keeps k (Reported k m total number) (λ _. Agreed) Agreed action

  -- A call that neither receives nor prints.
  abbrev IsPlain : Call → Type 0
  IsPlain (recvmsg fd size) = ⊥
  IsPlain (printf format args) = ⊥
  IsPlain _ = Unit

  adds : (c : Call) → IsPlain c → Adds (Reported k m total number) c
  adds (Call.recvmsg fd size) h = elim h [ ]
  adds (Call.printf format args) h = elim h [ ]
  adds _ h = record { at = λ s log p. p }

  dies : (what : String) → Dies (Reported k m total number) (λ _. Agreed) what
  dies what = record { at = λ s log (p, q, r, n). q }

  store_fd : (fd : ℤ) → Server (modify (λ s. record s { fd = fd }))
  unfolding modify
  store_fd fd = record { at = λ s log p. p }

  store_asoc_id : (id : ℕ) → Server (modify (λ s. record s { asoc_id = id }))
  unfolding modify
  store_asoc_id id = record { at = λ s log p. p }

  get_asoc_id-Server : Server get_asoc_id
  unfolding get_asoc_id
  get_asoc_id-Server = search (call_rules, adds, dies, tt) depth 8

  enable_asoc_strreset-Server : (allowed : ℕ) → Server (enable_asoc_strreset allowed)
  unfolding enable_asoc_strreset
  enable_asoc_strreset-Server allowed =
      search (call_rules, adds, dies, tt, get_asoc_id-Server, store_asoc_id) depth 9

  enable_sk_recvinfo-Server : Server enable_sk_recvinfo
  unfolding enable_sk_recvinfo
  enable_sk_recvinfo-Server = search (call_rules, adds, dies, tt) depth 8

  create_listen_sk-Server : (ip port : String) → Server (create_listen_sk ip port)
  unfolding create_listen_sk do_setup_frag_interleave do_setup_strm_interleave
  create_listen_sk-Server ip port = search (call_rules, adds, dies, tt, store_fd) depth 14

  send_peer_ack-Server : Server send_peer_ack
  unfolding send_peer_ack send_asoc_msg
  send_peer_ack-Server = search (call_rules, adds, dies, tt) depth 8

  -- What has just come, by whether it is a command: a message of data is still to be added.
  abbrev CameBy : Bool → ℕ → Context → List Call → Type 0
  CameBy true len s log = Reported k m total number s log
  CameBy false len s log = Due k m total number (weight m len) s log × (len < 20481)

  abbrev Came : ℕ → Context → List Call → Type 0
  Came len = CameBy (is_command len) len

  module _
      (fits : (log : List Call) (len sid : ℕ) → k.received log ≡ got len sid → len < 20481) where
    came :
        (fd : ℤ) (len sid : ℕ) (s : Context) (log : List Call)
        → k.received log ≡ got len sid
        → Reported k m total number s log
        → Came len s (recvmsg fd 20480 ∷ log)
    came fd len sid s log e (p, q, r, n) = elim (Bool-cases (is_command len)) [
      | inl c ↦ rw (c, e, c) (omega (arith, p), omega (arith, q), r, n)
      | inr c ↦
          (let sum : weight m len + measured k m log ≡ s.cb0 + weight m len = omega arith in
            rw (c, e, c, sum) ((refl, omega (arith, q), r, n), fits log len sid e))
    ]

    get_peer_cmd_lem :
        (len sid : ℕ) (s : Context) (log : List Call)
        → k.received log ≡ got len sid
        → get_peer_cmd k s log
          ≡ Outcome.returned len (record s { sri_stream = sid }) (recvmsg s.fd 20480 ∷ log)
    unfolding get_peer_cmd command_read ◌>>=◌
    get_peer_cmd_lem len sid s log e = rw e

    read :
        (message : Received) (s : Context) (log : List Call)
        → k.received log ≡ message
        → Reported k m total number s log
        → Ends Came (λ _. Agreed) Agreed (get_peer_cmd k s log)
    unfolding get_peer_cmd command_read die exit emit ◌>>=◌
    read failed s log e (p, q, r, n) = rw (e, e) (omega (arith, q))
    read (got len sid) s log e h =
        rw (get_peer_cmd_lem len sid s log e)
          (came s.fd len sid (record s { sri_stream = sid }) log e h)

    get_peer_cmd-Came : Triple k (Reported k m total number) Came (λ _. Agreed) Agreed get_peer_cmd
    get_peer_cmd-Came = record { at = λ s log h. read (k.received log) s log refl h }

  reset_branch : (allowed : ℕ) → Server (do enable_asoc_strreset allowed; send_peer_ack; pure true)
  reset_branch allowed = search (keeps_rules, enable_asoc_strreset-Server, send_peer_ack-Server)

  close_branch : Server (do send_peer_ack; pure false)
  close_branch = search (keeps_rules, send_peer_ack-Server)

module _ (k : Kernel) (ticks : (log : List Call) → 0 < k.clock log)
    (fits : (log : List Call) (len sid : ℕ) → k.received log ≡ got len sid → len < 20481) (i : ℕ)
    (c : SnCase) (m : Measure) (total : ℕ) (at_i : get_elem? sn_cases i ≡ some c)
    (e : full c.do_assert_tests ≡ some (m, total)) where
  check-Reported :
      (len : ℕ) (s : Context) (log : List Call)
      → CameBy k m total (pos i) false len s log
      → Ends
          (λ _. Reported k m total (pos i))
          (λ _. Never)
          Never
          (check k (record s { cb2 = len }) log)
  unfolding check ◌>>=◌
  check-Reported len s log ((p, q, r, n), small) =
      rw (current_case_lem i c at_i k (record s { cb2 = len }) log n) (
        perf_check k ticks (pos i) c.do_assert_tests m total (record s { cb2 = len }) log e small
          (p, q, r, n))

  handle-Reported :
      (len : ℕ)
      → Triple k
          (Came k m total (pos i) len)
          (λ _. Reported k m total (pos i))
          (λ _. Agreed k m total (pos i))
          (Agreed k m total (pos i))
          (handle enable_reset_stream_req check len)
  unfolding handle ◌>>=◌
  handle-Reported len = elim (Bool-cases (len == cmd_set_strreset)) [
    | inl f ↦ record {
      at = λ s log h.
          rw f ((reset_branch k m total (pos i) enable_reset_stream_req).at s log (rw f at h));
    }
    | inr f ↦ elim (Bool-cases (len == cmd_close_asoc)) [
      | inl g ↦ record {
        at = λ s log h. rw (f, g) ((close_branch k m total (pos i)).at s log (rw (f, g) at h));
      }
      | inr g ↦ record {
        at = λ s log h.
            rw (f, g)
              (continue-Ends (check k (record s { cb2 = len }) log) (λ _. pure true)
                (Ends-Never _ _ _ (check k (record s { cb2 = len }) log)
                  (check-Reported len s log (rw (f, g) at h)))
                (λ _. Keeps-pure true));
      }
    ]
  ]

  serve-Server : (fuel : ℕ) → Server k m total (pos i) (serve enable_reset_stream_req check fuel)
  unfolding serve out_of_fuel
  serve-Server zero = record { at = λ s log (p, q, r, n). q }
  serve-Server (suc fuel) =
      Triple-then get_peer_cmd _ (get_peer_cmd-Came k m total (pos i) fits) λ len.
        Triple-then (handle enable_reset_stream_req check len) _ (handle-Reported len)
          λ more. Triple-elim more _ _ (serve-Server fuel) (Keeps-pure tt)

  status_Agreed :
      Triple {S = Context} k
        (Reported k m total (pos i))
        (λ _ _. Agreed k m total (pos i))
        (λ _. Agreed k m total (pos i))
        (Agreed k m total (pos i))
        (gets (λ s. pos s.cb1))
  unfolding gets
  status_Agreed = record { at = λ s log (p, q, r, n). q }

  -- The receiver of a performance case, on a kernel whose clock is positive and whose messages fit
  -- the buffer of 20480 bytes, prints the throughput just when a data message brings the sum of
  -- messages, or of bytes, to the case's total: whether it returns, exits or is still running, it has
  -- done so once for each such message.
  pub do_server-Agreed :
      (fuel : ℕ) (ip port : String) (s : Context)
      → Ends
          (λ _ _ log. perf_lines log ≡ hits k m total log)
          (λ _ log. perf_lines log ≡ hits k m total log)
          (λ log. perf_lines log ≡ hits k m total log)
          (do_server fuel ip port (pos i) k s [])
  unfolding do_server modify ◌>>=◌
  do_server-Agreed fuel ip port s =
      (Keeps-bind (create_listen_sk ip port) _ (create_listen_sk-Server k m total (pos i) ip port)
          λ _. Keeps-bind enable_sk_recvinfo _ (enable_sk_recvinfo-Server k m total (pos i)) λ _.
            Keeps-bind (serve enable_reset_stream_req check fuel) _ (serve-Server fuel)
              λ _. status_Agreed).at
        (record zeroed { case_no = pos i }) [] (refl, refl, (λ _. refl), refl)
