-- ===== src/Harness/Loop.antt =====
-- The receiving loop on a kernel that delivers a list of messages: an invariant rule, which also
-- shows that the loop ends.
use sctp_tests.Prelude.{
  ℕ, zero, suc, ◌≤◌, ◌≡◌, refl, Bool, true, false, List, [], ◌∷◌, inl, inr, drop, length,
  Bool-cases, arith, ◌==◌,
}
use sctp_tests.Posix.{Call, Kernel, Outcome, recvmsg, M, modify, pure, ◌>>=◌, ◌>>◌}
use sctp_tests.Posix.Triple.{Ends, Never, Triple, Triple-then, continue-Ends, keeps_rules}
use sctp_tests.Harness.State.{Context, cmd_set_strreset, cmd_close_asoc}
use sctp_tests.Harness.Socket.{get_asoc_id, enable_asoc_strreset}
use sctp_tests.Harness.Command.{send_asoc_msg, send_peer_ack, command_read, get_peer_cmd}
use sctp_tests.Harness.Serve.{handle, serve}
use sctp_tests.Harness.Peer.{
  Message, receptions, Delivers, Quiet, Quiet-must, Quiet-send, Quiet-fetch,
}

-- `R rest s`: from the state `s`, with the messages `rest` still to come, all will be well.
pub record IsLoopInvariant (k : Kernel) (check : M Context (Unit {0}))
    (R : List Message → Context → Type 0) (Done : Context → Type 0) : Type 0 where
  pub counts :
      (len sid : ℕ) (rest : List Message) (s : Context) (log : List Call)
      → (len == cmd_set_strreset) ≡ false
      → (len == cmd_close_asoc) ≡ false
      → R ((len, sid) ∷ rest) s
      → Ends
          (λ _ s' log'. R rest s' × (receptions log' ≡ receptions log))
          (λ _. Never)
          Never
          (check k (record s { sri_stream = sid; cb2 = len }) log)
  pub resets :
      (len sid id : ℕ) (rest : List Message) (s : Context)
      → (len == cmd_set_strreset) ≡ true
      → R ((len, sid) ∷ rest) s
      → R rest (record s { sri_stream = sid; asoc_id = id })
  pub closes :
      (len sid : ℕ) (rest : List Message) (s : Context)
      → (len == cmd_set_strreset) ≡ false
      → (len == cmd_close_asoc) ≡ true
      → R ((len, sid) ∷ rest) s
      → Done (record s { sri_stream = sid })
  pub ends : (s : Context) → ¬ R [] s

pub drop-suc {ℓ} :
    {A : Type ℓ} (n : ℕ) (xs : List A) (x : A) (rest : List A)
    → drop n xs ≡ x ∷ rest
    → drop (suc n) xs ≡ rest
drop-suc zero [] x rest e = cc
drop-suc zero (y ∷ ys) x rest e = cc
drop-suc (suc n) [] x rest e = cc
drop-suc (suc n) (y ∷ ys) x rest e = drop-suc n ys x rest e

module _ (k : Kernel) (script : List Message) (d : Delivers k script) where
  get_peer_cmd_lem :
      (len sid : ℕ) (rest : List Message) (s : Context) (log : List Call)
      → drop (receptions log) script ≡ (len, sid) ∷ rest
      → get_peer_cmd k s log
        ≡ Outcome.returned len (record s { sri_stream = sid }) (recvmsg s.fd 20480 ∷ log)
  unfolding get_peer_cmd command_read ◌>>=◌
  get_peer_cmd_lem len sid rest s log e = rw (d.receives log, e)

  module _ (I : Context → Type 0) (n : ℕ) where
    send_peer_ack-Quiet : Quiet k I n send_peer_ack
    unfolding send_peer_ack send_asoc_msg
    send_peer_ack-Quiet = search (keeps_rules, Quiet-send k script d)

    get_asoc_id-Quiet : Quiet k I n get_asoc_id
    unfolding get_asoc_id
    get_asoc_id-Quiet = search (keeps_rules, Quiet-fetch k script d)

  -- what holds of a state whatever association id is stored in it
  abbrev ForAnyId : (Context → Type 0) → Context → Type 0
  ForAnyId I s = (id : ℕ) → I (record s { asoc_id = id })

  store_id :
      (I : Context → Type 0) (n id : ℕ)
      → Triple k
          (λ s log. ForAnyId I s × (receptions log ≡ n))
          (λ _ s log. I s × (receptions log ≡ n))
          (λ _. Never)
          Never
          (modify (λ s. record s { asoc_id = id }))
  unfolding modify
  store_id I n id = record { at = λ s log (h, e). (h id, e) }

  enable_asoc_strreset-Triple :
      (I : Context → Type 0) (n allowed : ℕ)
      → Triple k
          (λ s log. ForAnyId I s × (receptions log ≡ n))
          (λ _ s log. I s × (receptions log ≡ n))
          (λ _. Never)
          Never
          (enable_asoc_strreset allowed)
  unfolding enable_asoc_strreset
  enable_asoc_strreset-Triple I n allowed =
      Triple-then get_asoc_id _ (get_asoc_id-Quiet (ForAnyId I) n) λ id.
        Triple-then (modify _) _ (store_id I n id)
          λ _. search (keeps_rules, Quiet-must k script d, tt)

  module _ (allowed : ℕ) (check : M Context (Unit {0})) (R : List Message → Context → Type 0)
      (Done : Context → Type 0) (inv : IsLoopInvariant k check R Done) where
    -- what holds when one message has been handled
    abbrev After : ℕ → List Message → Bool → Context → List Call → Type 0
    After n rest true s log = R rest s × (receptions log ≡ n)
    After n rest false s log = Done s

    module _ (n : ℕ) (rest : List Message) where
      answer_After :
          (b : Bool) → Triple k (After n rest b) (After n rest) (λ _. Never) Never (pure b)
      unfolding pure
      answer_After b = record { at = λ s log h. h }

      ack_After :
          Triple k
            (λ s log. R rest s × (receptions log ≡ n))
            (After n rest)
            (λ _. Never)
            Never
            (do send_peer_ack; pure true)
      ack_After =
          Triple-then send_peer_ack _ (send_peer_ack-Quiet (R rest) n) (λ _. answer_After true)

      handle_reset :
          (len sid : ℕ) (s : Context) (log : List Call)
          → (len == cmd_set_strreset) ≡ true
          → R ((len, sid) ∷ rest) s
          → receptions log ≡ n
          → Ends
              (After n rest)
              (λ _. Never)
              Never
              (handle allowed check len k (record s { sri_stream = sid }) log)
      unfolding handle
      handle_reset len sid s log e r h = rw e (
          (Triple-then (enable_asoc_strreset allowed) _
              (enable_asoc_strreset-Triple (R rest) n allowed) (λ _. ack_After)).at
            (record s { sri_stream = sid }) log (λ id. inv.resets len sid id rest s e r, h))

      close_After :
          Triple k
            (λ s log. Done s × (receptions log ≡ n))
            (After n rest)
            (λ _. Never)
            Never
            (do send_peer_ack; pure false)
      close_After = Triple-then send_peer_ack _ (send_peer_ack-Quiet Done n) (λ _. done)
        where
          done :
              Triple k
                (λ s log. Done s × (receptions log ≡ n))
                (After n rest)
                (λ _. Never)
                Never
                (pure false)
          done = record { at = unfold pure in λ s log h. h.0 }

      handle_close :
          (len sid : ℕ) (s : Context) (log : List Call)
          → (len == cmd_set_strreset) ≡ false
          → (len == cmd_close_asoc) ≡ true
          → R ((len, sid) ∷ rest) s
          → receptions log ≡ n
          → Ends
              (After n rest)
              (λ _. Never)
              Never
              (handle allowed check len k (record s { sri_stream = sid }) log)
      unfolding handle
      handle_close len sid s log e f r h =
          rw (e, f)
            (close_After.at (record s { sri_stream = sid }) log
              (inv.closes len sid rest s e f r, h))

      handle_data :
          (len sid : ℕ) (s : Context) (log : List Call)
          → (len == cmd_set_strreset) ≡ false
          → (len == cmd_close_asoc) ≡ false
          → R ((len, sid) ∷ rest) s
          → receptions log ≡ n
          → Ends
              (After n rest)
              (λ _. Never)
              Never
              (handle allowed check len k (record s { sri_stream = sid }) log)
      unfolding handle ◌>>=◌
      handle_data len sid s log e f r h =
          rw (e, f)
            (continue-Ends (check k _ log) (λ _. pure true)
              (rw h at (inv.counts len sid rest s log e f r)) (λ _. answer_After true))

      handle-After :
          (len sid : ℕ) (s : Context) (log : List Call)
          → R ((len, sid) ∷ rest) s
          → receptions log ≡ n
          → Ends
              (After n rest)
              (λ _. Never)
              Never
              (handle allowed check len k (record s { sri_stream = sid }) log)
      handle-After len sid s log r h = elim (Bool-cases (len == cmd_set_strreset)) [
        | inl e ↦ handle_reset len sid s log e r h
        | inr e ↦ elim (Bool-cases (len == cmd_close_asoc)) [
          | inl f ↦ handle_close len sid s log e f r h
          | inr f ↦ handle_data len sid s log e f r h
        ]
      ]

    -- With as much fuel as there are messages, the loop ends, and in a state that is `Done`.
    pub serve-Ends :
        (rest : List Message) (fuel : ℕ) (s : Context) (log : List Call)
        → length rest ≤ fuel
        → drop (receptions log) script ≡ rest
        → R rest s
        → Ends (λ _ s' _. Done s') (λ _. Never) Never (serve allowed check fuel k s log)
    unfolding serve ◌>>=◌
    serve-Ends [] fuel s log room here r = absurd (inv.ends s r)
    serve-Ends (m ∷ rest) zero s log room here r = absurd (omega arith)
    serve-Ends ((len, sid) ∷ rest) (suc fuel) s log room here r =
        rw (get_peer_cmd_lem len sid rest s log here) (
          continue-Ends (handle allowed check len k _ _) _
            (handle-After (suc (receptions log)) rest len sid s _ r refl)
            (λ b. tail b (λ s' log' r' e.
              serve-Ends rest fuel s' log' (omega arith)
                (rw e (drop-suc (receptions log) script (len, sid) rest here)) r')))
      where
        tail :
            (b : Bool)
            → ((s' : Context) (log' : List Call)
                → R rest s'
                → receptions log' ≡ suc (receptions log)
                → Ends
                    (λ _ s'' _. Done s'')
                    (λ _. Never)
                    Never
                    (serve allowed check fuel k s' log'))
            → Triple k
                (After (suc (receptions log)) rest b)
                (λ _ s' _. Done s')
                (λ _. Never)
                Never
                (elim b [ true ↦ serve allowed check fuel | false ↦ pure tt ])
        tail true ih = record { at = λ s' log' h. ih s' log' h.0 h.1 }
        tail false ih = record { at = λ s' log' h. h }
