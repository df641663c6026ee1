-- ===== src/HashTable/Messages.antt =====
-- The messages that the client sends while it takes the time.
use sctp_tests.Prelude.{ℕ, ◌+◌, ◌*◌, ◌≡◌, refl, String, ℤ, List, [], arith}
use sctp_tests.Posix.{
  Call, Kernel, sendmsg, time, bind, connect, fetch, must_send, for_range, M, call, exit, fault,
  modify,
}
use sctp_tests.Posix.Dropping.{AnyExit}
use sctp_tests.Posix.Volume.{volume, IsSilent, Adds-silent}
use sctp_tests.Posix.Triple.{Ends, Ends-map, Triple, Triple-then, Keeps-bind, keeps_rules}
use sctp_tests.Posix.Rules.{
  Adds, Dies, call_rules, Keeps-fault, Keeps-now, Keeps-fetch, Keeps-must_send,
}
use sctp_tests.Posix.Counted.{Triple-for}
use sctp_tests.Harness.{atoi}
use sctp_tests.HashTable.{
  Perf, store, load, assert_family, open_socket, create_assoc, create_assocs, loops, send_one,
  measure, close_assocs, finish, run,
}

module _ (k : Kernel) (w : ℕ → ℕ) where
  -- The lengths of the messages sent weigh so much.
  abbrev Sent : ℕ → Perf → List Call → Type 0
  Sent n s log = (volume w log ≡ n) × Unit {0}

  abbrev Step : {A : Type 0} → ℕ → ℕ → M Perf A → Type 0
  Step m n action = Triple k (Sent m) (λ _. Sent n) AnyExit (λ _. Unit) action

  module _ (n : ℕ) where
    adds : (c : Call) → IsSilent c → Adds (Sent n) c
    adds = Adds-silent k w (λ _. Unit {0}) n

    dies : (what : String) → Dies (Sent n) AnyExit what
    dies what = record { at = λ s log h. tt }

    fails : {A : Type 0} → Step {A = A} n n fault
    fails = Keeps-fault

    aborts : {A : Type 0} (c : ℤ) → Step {A = A} n n (exit c)
    unfolding exit
    aborts c = record { at = λ s log h. tt }

    modifies : (f : Perf → Perf) → Step n n (modify f)
    unfolding modify
    modifies f = record { at = λ s log h. h }

    assert_silent : (found family : ℕ) → Step n n (assert_family found family)
    unfolding assert_family
    assert_silent found family = search (call_rules, adds, dies, aborts, tt)

    open_silent : Step n n open_socket
    unfolding open_socket
    open_silent = search (call_rules, adds, dies, tt)

    store_silent : (i j : ℕ) (fd : ℤ) → Step n n (store i j fd)
    unfolding store
    store_silent i j fd = search (call_rules, modifies, fails)

    load_silent : (i j : ℕ) → Step n n (load i j)
    unfolding load
    load_silent i j = search (call_rules, fails)

    create_silent :
        (family : ℕ) (local_port : String) (i j : ℕ) → Step n n (create_assoc family local_port i j)
    unfolding create_assoc
    create_silent family local_port i j =
        search (call_rules, adds, dies, tt, assert_silent, open_silent, store_silent) depth 14

    create_all_silent :
        (family : ℕ) (local_port : String) (cnt : ℤ)
        → Step n n (create_assocs family local_port cnt)
    unfolding create_assocs
    create_all_silent family local_port cnt = search (keeps_rules, create_silent)

    close_all_silent : (cnt : ℤ) → Step n n (close_assocs cnt)
    unfolding close_assocs
    close_all_silent cnt = search (call_rules, adds, tt, load_silent)

    finish_silent : (fd cnt time_spent : ℤ) → Step n n (finish fd cnt time_spent)
    unfolding finish
    finish_silent fd cnt time_spent = search (call_rules, adds, tt, close_all_silent) depth 9

    send_call : (fd : ℤ) → Step n (n + w 1) (call (sendmsg fd 1 0 0 0))
    unfolding call
    send_call fd = record { at = λ s log (p, q). (omega arith, q) }

  send_one_Sent : (n : ℕ) (fd : ℤ) → Step n (n + w 1) (send_one fd)
  unfolding send_one
  send_one_Sent n fd =
      Triple-then _ _ (send_call n fd) λ len. search (call_rules, more_dies, more_modifies)
    where
      more_dies : (what : String) → Dies (Sent (n + w 1)) AnyExit what
      more_dies = dies (n + w 1)

      more_modifies : (f : Perf → Perf) → Step (n + w 1) (n + w 1) (modify f)
      more_modifies = modifies (n + w 1)

  -- a loop that sends so many messages
  rounds_Sent : (n : ℕ) (fd : ℤ) → Step 0 (n * w 1) (for_range n 0 (λ _. send_one fd))
  rounds_Sent n fd =
      let start : 0 * w 1 ≡ 0 = omega arith in
      let end : (0 + n) * w 1 ≡ n * w 1 = grind arith in
      rw (start, end) at
        (Triple-for (λ j. Sent (j * w 1)) n 0 (λ _. send_one fd)
          λ j a b. rw (next_round j) at (send_one_Sent (j * w 1) fd))
    where
      next_round : (j : ℕ) → j * w 1 + w 1 ≡ (j + 1) * w 1
      next_round j = grind arith

  Adds-all : (c : Call) → IsSilent c → Adds (Sent (loops * w 1)) c
  Adds-all = adds (loops * w 1)

  measure_Sent : (fd : ℤ) → Step 0 (loops * w 1) (measure fd)
  unfolding measure
  measure_Sent fd =
      Keeps-bind _ _ (Keeps-now (adds 0 time tt))
        λ start. Triple-then _ _ (rounds_Sent loops fd) λ _. search (call_rules, Adds-all, tt)

  run_sends :
      (remote_addr remote_port local_port addr_cnt : String)
      → Step 0 (loops * w 1) (run remote_addr remote_port local_port addr_cnt)
  unfolding run
  run_sends remote_addr remote_port local_port addr_cnt =
      Keeps-bind _ _ (fetch_silent _ _ tt) λ family.
        Keeps-bind _ _ (fetch_silent _ _ tt) λ local_family. Keeps-bind _ _ (open_silent 0) λ fd.
          Keeps-bind _ _ (send_silent (bind fd) _ tt) λ _.
            Keeps-bind _ _ (send_silent (connect fd) _ tt) λ _.
              Keeps-bind _ _ (create_all_silent 0 local_family local_port (atoi addr_cnt)) λ _.
                Triple-then _ _ (measure_Sent fd)
                  λ time_spent. finish_silent (loops * w 1) fd (atoi addr_cnt) time_spent
    where
      fetch_silent : (c : Call) (what : String) → IsSilent c → Step 0 0 (fetch c what)
      fetch_silent c what h = Keeps-fetch c what (adds 0 c h) (dies 0 what)

      send_silent : (c : Call) (what : String) → IsSilent c → Step 0 0 (must_send c what)
      send_silent c what h = Keeps-must_send c what (adds 0 c h) (dies 0 what)

  -- Whatever the kernel answers, if the client returns, what it has sent is 100000 messages of one byte,
  -- whatever weight is given to a message by its length.
  pub run-Sent :
      (remote_addr remote_port local_port addr_cnt : String) (s : Perf)
      → Ends
          (λ _ _ log. volume w log ≡ 100000 * w 1)
          AnyExit
          (λ _. Unit {0})
          (run remote_addr remote_port local_port addr_cnt k s [])
  run-Sent remote_addr remote_port local_port addr_cnt s =
      Ends-map (λ _. Sent (loops * w 1)) _ AnyExit (λ _. Unit {0}) _
        ((run_sends remote_addr remote_port local_port addr_cnt).at s [] (refl, tt))
        (λ _ _ _ (p, q). p)
