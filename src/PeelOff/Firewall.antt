-- ===== src/PeelOff/Firewall.antt =====
-- Whether the client leaves a rule of iptables behind.
use sctp_tests.Prelude.{ℕ, zero, suc, ◌≡◌, ◌∙◌, refl, String, ℤ, Bool, false, List, [], ◌∷◌}
use sctp_tests.Posix.{
  Call, Kernel, pthread_create, pthread_join, system, sleep, flush, drop_output_data, M, call, pure,
  modify, emit, interleave, ◌>>=◌,
}
use sctp_tests.Posix.Dropping.{dropping, blocked, Obeys, blocked-dropping}
use sctp_tests.Posix.Triple.{
  Ends, Ends-map, Never, Triple, Triple-then, Keeps, Keeps-gets, Keeps-bind, keeps_rules,
}
use sctp_tests.Posix.Rules.{Adds, Keeps-emit, call_rules}
use sctp_tests.Posix.Started.{Starts, with_thread-Triple}
use sctp_tests.Posix.Scheduled.{First, Second, interleave-Ended}
use sctp_tests.PeelOff.{
  Busy, get_asoc_id, if_associated, peel, peeloff_sctp, send_round, times, main_steps, finish,
  return_status, run_threads, main,
}

module _ (k : Kernel) (starts : Starts k) where
  -- When the second thread has done so many steps, the last of which removes the rule.
  abbrev pub Flushed : ℕ → Busy → List Call → Type 0
  Flushed (suc (suc (suc (suc j)))) s log = dropping log ≡ false
  Flushed _ s log = Unit

  -- A call that hands no rule to iptables.
  abbrev IsPlain : Call → Type 0
  IsPlain (system rule) = ⊥
  IsPlain _ = Unit

  plain :
      (c : Call) (log : List Call) → IsPlain c → dropping log ≡ false → dropping (c ∷ log) ≡ false
  plain (Call.system rule) log h e = elim h [ ]
  plain _ log h e = e

  Flushed-plain :
      (j : ℕ) (s : Busy) (c : Call) (log : List Call)
      → IsPlain c
      → Flushed j s log
      → Flushed j s (c ∷ log)
  Flushed-plain zero s c log h e = tt
  Flushed-plain (suc zero) s c log h e = tt
  Flushed-plain (suc (suc zero)) s c log h e = tt
  Flushed-plain (suc (suc (suc zero))) s c log h e = tt
  Flushed-plain (suc (suc (suc (suc j)))) s c log h e = plain c log h e

  Flushed-modify : (j : ℕ) (s s' : Busy) (log : List Call) → Flushed j s log → Flushed j s' log
  Flushed-modify zero s s' log e = tt
  Flushed-modify (suc zero) s s' log e = tt
  Flushed-modify (suc (suc zero)) s s' log e = tt
  Flushed-modify (suc (suc (suc zero))) s s' log e = tt
  Flushed-modify (suc (suc (suc (suc j)))) s s' log e = e

  abbrev Keep : {A : Type 0} → ℕ → M Busy A → Type 0
  Keep j m = Keeps k (Flushed j) (λ _. Never) Never m

  module _ (j : ℕ) where
    adds : (c : Call) → IsPlain c → Adds (Flushed j) c
    adds c h = record { at = λ s log e. Flushed-plain j s c log h e }

    modifies : (f : Busy → Busy) → Keep j (modify f)
    unfolding modify
    modifies f = record { at = λ s log e. Flushed-modify j s (f s) log e }

    get_asoc_id-Keep : (fd : ℤ) → Keep j (get_asoc_id fd)
    unfolding get_asoc_id
    get_asoc_id-Keep fd = search (call_rules, adds, tt) depth 9

    peel-Keep : (fd : ℤ) (id : ℕ) → Keep j (peel fd id)
    unfolding peel
    peel-Keep fd id = search (call_rules, adds, tt)

    if_associated-Keep : (m : M Busy (Unit {0})) → Keep j m → Keep j (if_associated m)
    unfolding if_associated
    if_associated-Keep m h = search keeps_rules

    send_round-Keep : (fd : ℤ) → Keep j (send_round fd)
    unfolding send_round
    send_round-Keep fd = search (call_rules, adds, tt, modifies) depth 9

    return_Keep : Keep j return_status
    unfolding return_status
    return_Keep = search keeps_rules

    finish-Keep : (fd : ℤ) → Keep j (finish fd)
    unfolding finish
    finish-Keep fd = search (call_rules, adds, tt, return_Keep)

  -- the steps of the second thread before the last
  Adds-early : (c : Call) → IsPlain c → Adds (Flushed 0) c
  Adds-early = adds 0

  modifies_early : (f : Busy → Busy) → Keep 0 (modify f)
  modifies_early = modifies 0

  flush_Flushed : Triple k (Flushed 3) (λ _. Flushed 4) (λ _. Never) Never (emit (system flush))
  unfolding emit call pure ◌>>=◌
  flush_Flushed = record { at = λ s log h. refl }

  peeloff_Second : (fd : ℤ) → Second k (λ _. Never) Never (λ _. Flushed) 0 (peeloff_sctp fd)
  unfolding peeloff_sctp
  peeloff_Second fd = (
    (λ i. search (call_rules, Adds-early, tt, get_asoc_id-Keep, modifies_early) depth 9),
    (
      (λ i. if_associated-Keep 1 _ (Keeps-emit _ (adds 1 (sleep 5) tt))),
      (
        (λ i. if_associated-Keep 2 _ (Keeps-bind _ _ (Keeps-gets _) λ s. peel-Keep 2 fd s.associd)),
        ((λ i. flush_Flushed), tt),
      ),
    ),
  )

  rounds_First :
      (i n : ℕ) (fd : ℤ) → First k (λ _. Never) Never (λ _. Flushed) i (times n (send_round fd))
  rounds_First i zero fd = tt
  rounds_First i (suc n) fd = ((λ j. send_round-Keep j fd), rounds_First (suc i) n fd)

  drop_first :
      Triple k
        (λ _ _. Unit {0})
        (λ _. Flushed 0)
        (λ _. Never)
        Never
        (emit (system drop_output_data))
  unfolding emit call pure ◌>>=◌
  drop_first = record { at = λ s log h. tt }

  threads_Flushed :
      (schedule : List Bool) (fd : ℤ)
      → Triple k
          (λ _ _. Unit {0})
          (λ _. Flushed 4)
          (λ _. Never)
          Never
          (interleave (false ∷ schedule) (main_steps fd) (peeloff_sctp fd))
  unfolding interleave main_steps peeloff_sctp
  threads_Flushed schedule fd = Triple-then (emit (system drop_output_data)) _ drop_first λ _.
      interleave-Ended k (λ _. Never) Never (λ _. Flushed) schedule 1 0 (times 100 (send_round fd))
        (peeloff_sctp fd) (rounds_First 1 100 fd) (peeloff_Second fd)

  -- No rule drops packets, before the threads and after them.
  abbrev Open : {A : Type 0} → M Busy A → Type 0
  Open m = Keeps k (Flushed 4) (λ _. Never) Never m

  Adds-open : (c : Call) → IsPlain c → Adds (Flushed 4) c
  Adds-open = adds 4

  modifies-Open : (f : Busy → Busy) → Open (modify f)
  modifies-Open = modifies 4

  forget :
      (m : M Busy (Unit {0}))
      → Triple k (λ _ _. Unit {0}) (λ _. Flushed 4) (λ _. Never) Never m
      → Open m
  forget m h = record { at = λ s log p. h.at s log tt }

  run_threads-Open : (schedule : List Bool) (fd : ℤ) → Open (run_threads (false ∷ schedule) fd)
  unfolding run_threads
  run_threads-Open schedule fd =
      Keeps-bind _ _
        (with_thread-Triple _ _ _ starts (Adds-open pthread_create tt)
          (forget _ (threads_Flushed schedule fd)) (Adds-open pthread_join tt))
        (λ _. finish-Keep 4 fd)

  main-Open : (schedule : List Bool) (ip port : String) → Open (main (false ∷ schedule) ip port)
  unfolding main
  main-Open schedule ip port =
      search (call_rules, Adds-open, tt, modifies-Open, run_threads-Open, finish-Keep, return_Keep)
        depth 14

-- On a kernel on which neither iptables nor the creation of a thread fails, and that answers in any way
-- else: if main() hands its rule to iptables before the second thread takes its first step, then no
-- packets are dropped when the client returns, which it does, in whatever order the threads go on.
pub main-Flushed :
    (k : Kernel) (schedule : List Bool) (ip port : String) (s : Busy)
    → Starts k
    → Obeys k
    → Ends
        (λ _ _ log. blocked k log ≡ false)
        (λ _. Never)
        Never
        (main (false ∷ schedule) ip port k s [])
main-Flushed k schedule ip port s starts obeys =
    Ends-map (λ _ _ log. dropping log ≡ false) (λ _ _ log. blocked k log ≡ false) (λ _. Never) Never
      (main (false ∷ schedule) ip port k s []) ((main-Open k starts schedule ip port).at s [] refl)
      (λ status s' log e. blocked-dropping k obeys log ∙ e)
