-- ===== src/PeelOff/Verdict.antt =====
-- The exit status of the client, and how much it sends.
use sctp_tests.Prelude.{
  ℕ, zero, suc, ◌-◌, ◌≤◌, ◌≡◌, refl, sym, ap, ◌∙◌, String, ℤ, pos, is_zero, is_minus_one, Bool,
  true, false, ◌||◌, List, [], ◌∷◌, length, Bool-cases, inl, inr, arith, ◌==◌, if◌then◌else◌,
}
use sctp_tests.Posix.{
  Call, Kernel, printf, ignore_sigpipe, socket, seqpacket, connect, pthread_create, pthread_join,
  sendmsg, perror, getaddrinfo, close, system, drop_output_data, M, call, pure, modify, emit,
  interleave, sequence, ◌>>=◌, ◌>>◌,
}
use sctp_tests.Posix.Triple.{
  Ends, Never, Triple, Triple-map, Triple-then, Triple-if, Keeps, Keeps-pure, Keeps-bind,
  keeps_rules,
}
use sctp_tests.Posix.Rules.{Adds, Keeps-emit, Keeps-call, call_rules}
use sctp_tests.Posix.Volume.{volume, IsSilent}
use sctp_tests.Posix.Started.{Unstarted, remains, with_thread-Unstarted}
use sctp_tests.Posix.Scheduled.{First, Second, interleave-Ended}
use sctp_tests.PeelOff.{
  Busy, epipe, get_asoc_id, if_associated, peel, peeloff_sctp, send_round, times, main_steps,
  finish, return_status, run_threads, main,
}

-- After some sctp_sendmsg() errno was EPIPE.
abbrev pub broken : Kernel → List Call → Bool
broken k [] = false
broken k (sendmsg fd len flags sid value ∷ log) =
    (k.errno (sendmsg fd len flags sid value ∷ log) == epipe) || broken k log
broken k (_ ∷ log) = broken k log

-- How many messages have been sent, each counting once.
abbrev pub once : ℕ → ℕ
once len = 1

module _ (k : Kernel) where
  -- When main() has done so many steps, the first of which sends nothing.
  abbrev Sound : ℕ → ℕ → Busy → List Call → Type 0
  Sound i j s log = (s.pass ≡ broken k log) × (volume once log ≤ i - 1)

  abbrev Keep : {A : Type 0} → ℕ → M Busy A → Type 0
  Keep i m = Keeps k (Sound i 0) (λ _. Never) (Unstarted k) m

  adds : (i : ℕ) (c : Call) → IsSilent c → Adds (Sound i 0) c
  adds i (Call.sendmsg fd len flags sid value) h = elim h [ ]
  adds i _ h = record { at = λ s log p. p }

  store_Keep : (i id : ℕ) → Keep i (modify (λ s. record s { associd = id }))
  unfolding modify
  store_Keep i id = record { at = λ s log p. p }

  module _ (i : ℕ) where
    keeps_Adds : (c : Call) → IsSilent c → Adds (Sound i 0) c
    keeps_Adds = adds i

    keeps_store : (id : ℕ) → Keep i (modify (λ s. record s { associd = id }))
    keeps_store = store_Keep i

    get_asoc_id-Keep : (fd : ℤ) → Keep i (get_asoc_id fd)
    unfolding get_asoc_id
    get_asoc_id-Keep fd = search (call_rules, keeps_Adds, tt)

    if_associated-Keep : (m : M Busy (Unit {0})) → Keep i m → Keep i (if_associated m)
    unfolding if_associated
    if_associated-Keep m h = search keeps_rules

    peel-Keep : (fd : ℤ) (id : ℕ) → Keep i (peel fd id)
    unfolding peel
    peel-Keep fd id = search (call_rules, keeps_Adds, tt)

  peeloff_Second : (fd : ℤ) → Second k (λ _. Never) (Unstarted k) Sound 0 (peeloff_sctp fd)
  unfolding peeloff_sctp
  peeloff_Second fd = (
    (λ i. search (call_rules, keeps_Adds, tt, get_asoc_id-Keep, keeps_store) depth 9),
    (
      (λ i. search (call_rules, keeps_Adds, tt, if_associated-Keep)),
      (
        (λ i. search (call_rules, keeps_Adds, tt, if_associated-Keep, peel-Keep)),
        ((λ i. search (call_rules, keeps_Adds, tt)), tt),
      ),
    ),
  )

  send_Sound :
      (i j : ℕ) (fd : ℤ)
      → Triple k
          (Sound (suc i) j)
          (λ _. Sound (suc (suc i)) j)
          (λ _. Never)
          (Unstarted k)
          (send_round fd)
  unfolding send_round ◌>>=◌
  send_Sound i j fd = record {
    at = λ s log (p, q). elim (Bool-cases s.pass) [
      | inl e ↦ rw e (sym e ∙ p, omega arith)
      | inr e ↦ rw e (elim (Bool-cases (k.errno (sendmsg fd 1024 0 0 0 ∷ log) == epipe)) [
        | inl f ↦ rw f (
            let g : broken k (sendmsg fd 1024 0 0 0 ∷ log) ≡ true = rw f refl in
            (sym g, omega arith))
        | inr f ↦ rw f (
            let g : broken k (sendmsg fd 1024 0 0 0 ∷ log) ≡ broken k log = rw f refl in
            (sym e ∙ p ∙ sym g, omega arith))
      ])
    ];
  }

  rounds_First :
      (i n : ℕ) (fd : ℤ)
      → First k (λ _. Never) (Unstarted k) Sound (suc i) (times n (send_round fd))
  rounds_First i zero fd = tt
  rounds_First i (suc n) fd = ((λ j. send_Sound i j fd), rounds_First (suc i) n fd)

  drop_Sound :
      (j : ℕ)
      → Triple k
          (Sound 0 j)
          (λ _. Sound 1 j)
          (λ _. Never)
          (Unstarted k)
          (emit (system drop_output_data))
  unfolding emit call pure ◌>>=◌
  drop_Sound j = record { at = λ s log (p, q). (p, omega arith) }

  length-times : (n : ℕ) (m : M Busy (Unit {0})) → length (times n m) ≡ n
  length-times zero m = refl
  length-times (suc n) m = ap (λ i. suc i) (length-times n m)

  threads_Sound :
      (schedule : List Bool) (fd : ℤ)
      → Triple k
          (Sound 0 0)
          (λ _. Sound 101 0)
          (λ _. Never)
          (Unstarted k)
          (interleave schedule (main_steps fd) (peeloff_sctp fd))
  unfolding main_steps
  threads_Sound schedule fd =
      let e : length (main_steps fd) ≡ 101 = ap (λ i. suc i) (length-times 100 (send_round fd)) in
      Triple-map (interleave schedule (main_steps fd) (peeloff_sctp fd))
        (interleave-Ended k (λ _. Never) (Unstarted k) Sound schedule 0 0 (main_steps fd)
          (peeloff_sctp fd) (drop_Sound, rounds_First 0 100 fd) (peeloff_Second fd))
        (λ _ _ _ (p, q). (p, omega (arith, e)))

  -- the exit status says whether the socket has been found broken
  abbrev pub Judged : ℤ → Busy → List Call → Type 0
  Judged status s log = (status ≡ (if broken k log then pos 0 else pos 1)) × (volume once log ≤ 100)

  return_Verdict :
      (i : ℕ) → i ≤ 101 → Triple k (Sound i 0) Judged (λ _. Never) (Unstarted k) return_status
  unfolding return_status ◌>>=◌
  return_Verdict i h = record { at = λ s log (p, q). (rw p refl, omega arith) }

  finish_Verdict :
      (i : ℕ) (fd : ℤ)
      → i ≤ 101
      → Triple k (Sound i 0) Judged (λ _. Never) (Unstarted k) (finish fd)
  unfolding finish
  finish_Verdict i fd h =
      Keeps-bind _ _ (Keeps-emit (close fd) (adds i (close fd) tt)) λ _. return_Verdict i h

  -- main() goes on without the second thread
  abbrev Lost : {A : Type 0} → M Busy A → Type 0
  Lost m = Keeps k (λ _. Unstarted k) (λ _. Never) (Unstarted k) m

  adds_lost : (c : Call) → Adds {S = Busy} (λ _. Unstarted k) c
  adds_lost c = record { at = λ s log h. remains k c log h }

  store-Lost : Lost (modify (λ s. record s { pass = true }))
  unfolding modify
  store-Lost = record { at = λ s log h. h }

  send_round-Lost : (fd : ℤ) → Lost (send_round fd)
  unfolding send_round
  send_round-Lost fd = search (call_rules, adds_lost, store-Lost) depth 9

  times-Lost : (n : ℕ) (fd : ℤ) → Lost (sequence (times n (send_round fd)))
  unfolding sequence
  times-Lost zero fd = Keeps-pure tt
  times-Lost (suc n) fd = Keeps-bind (send_round fd) _ (send_round-Lost fd) (λ _. times-Lost n fd)

  alone : (fd : ℤ) → Lost (sequence (main_steps fd))
  unfolding main_steps sequence
  alone fd = Keeps-bind _ _ (search (call_rules, adds_lost)) (λ _. times-Lost 100 fd)

  run_threads_Verdict :
      (schedule : List Bool) (fd : ℤ)
      → Triple k (Sound 0 0) Judged (λ _. Never) (Unstarted k) (run_threads schedule fd)
  unfolding run_threads
  run_threads_Verdict schedule fd =
      Triple-then _ _
        (with_thread-Unstarted schedule _ _ (adds 0 pthread_create tt) (threads_Sound schedule fd)
          (adds 101 pthread_join tt) (alone fd))
        (λ _. finish_Verdict 101 fd (omega arith))

  unconnected :
      (fd : ℤ)
      → Triple k
          (Sound 0 0)
          Judged
          (λ _. Never)
          (Unstarted k)
          (do emit (perror "connect"); finish fd)
  unconnected fd =
      Keeps-bind _ _ (Keeps-emit (perror _) (adds 0 (perror _) tt))
        λ _. finish_Verdict 0 fd (omega arith)

  start :
      Triple k
        (λ _ log. (broken k log ≡ false) × (volume once log ≤ 0))
        (λ _. Sound 0 0)
        (λ _. Never)
        (Unstarted k)
        (modify (λ s. record s { pass = false }))
  unfolding modify
  start = record { at = λ s log (p, q). (sym p, q) }

  main_rules :
      (schedule : List Bool) (ip port : String)
      → Triple k
          (λ _ log. (broken k log ≡ false) × (volume once log ≤ 0))
          Judged
          (λ _. Never)
          (Unstarted k)
          (main schedule ip port)
  unfolding main
  main_rules schedule ip port = Triple-then _ _ start λ _.
      Keeps-bind _ _ (Keeps-emit ignore_sigpipe (adds 0 ignore_sigpipe tt)) λ _.
        Keeps-bind _ _ (Keeps-call (getaddrinfo ip port) (adds 0 (getaddrinfo ip port) tt)) λ err.
          Triple-if (is_zero err) _ _
            (Keeps-bind _ _ (Keeps-emit (printf _ []) (adds 0 (printf _ []) tt)) λ _.
              Keeps-bind _ _ (Keeps-call (socket seqpacket) (adds 0 (socket seqpacket) tt)) λ fd.
                Keeps-bind _ _ (Keeps-call (connect fd) (adds 0 (connect fd) tt)) λ err.
                  Triple-if (is_minus_one err) _ _ (unconnected fd)
                    (run_threads_Verdict schedule fd))
            (Keeps-bind _ _ (Keeps-emit (perror _) (adds 0 (perror _) tt))
              λ _. return_Verdict 0 (omega arith))

-- Whatever the kernel answers, and in whatever order the two threads run, the client ends: it returns 0 if
-- errno was EPIPE after some call of sctp_sendmsg(), else 1, and it has made at most 100 such calls. Its
-- behaviour is undefined only when pthread_create() has failed.
pub main-Judged :
    (k : Kernel) (schedule : List Bool) (ip port : String) (s : Busy)
    → Ends
        (λ status _ log.
          (status ≡ (if broken k log then pos 0 else pos 1)) × (volume once log ≤ 100))
        (λ _. Never)
        (Unstarted k)
        (main schedule ip port k s [])
main-Judged k schedule ip port s = (main_rules k schedule ip port).at s [] (refl, omega arith)
