-- ===== src/HashTable/Bounds.antt =====
-- The bounds of the table of sockets, and how the client ends.
use sctp_tests.Prelude.{
  ℕ, ◌+◌, ◌-◌, ◌≤◌, ◌<◌, ◌≡◌, refl, String, ℤ, pos, minus_one, true, false, ◌⊎◌, inl, inr, List,
  ◌∷◌, Bool-cases, arith,
}
use native.Mathlib.Decide.{dec_lt}
use sctp_tests.Posix.{
  Call, Kernel, eprintf, perror, close, M, call, pure, exit, fault, gets, modify, emit, ◌>>=◌, ◌>>◌,
}
use sctp_tests.Posix.Triple.{
  Ends, Triple, Triple-map, Triple-then, Triple-if, Keeps-pure, Keeps-bind,
}
use sctp_tests.Posix.Rules.{Adds, Dies, call_rules}
use sctp_tests.Posix.Counted.{Triple-for, facts_for}
use sctp_tests.Harness.{atoi}
use sctp_tests.HashTable.{
  Perf, fits, store, load, assert_family, open_socket, create_assoc, rounds_of, create_assocs,
  send_one, measure, close_assocs, finish, run,
}

-- The program has exited with status -1, right after it printed which call failed, or an assertion
-- has failed.
abbrev pub Quits : ℤ → List Call → Type 0
Quits status (perror what ∷ log) = status ≡ minus_one
Quits status (eprintf what ∷ log) = status ≡ pos 134
Quits status _ = ⊥

module _ (k : Kernel) (n : ℕ) where
  -- `φ` holds, which speaks neither of the state nor of the calls, and is kept; undefined behaviour occurs only
  -- if the table is too small.
  abbrev Step : {A : Type 0} → Type 0 → (A → Type 0) → M Perf A → Type 0
  Step φ ψ m = Triple k (λ _ _. φ) (λ a _ _. ψ a) Quits (λ _. 50 < n) m

  adds : (φ : Type 0) (c : Call) → Adds {S = Perf} (λ _ _. φ) c
  adds φ c = record { at = λ s log h. h }

  dies : (φ : Type 0) (what : String) → Dies {S = Perf} (λ _ _. φ) Quits what
  dies φ what = record { at = λ s log h. refl }

  modify-Step : (φ : Type 0) (f : Perf → Perf) → Step φ (λ _. φ) (modify f)
  unfolding modify
  modify-Step φ f = record { at = λ s log h. h }

  aborts :
      (φ : Type 0) (what : String)
      → Step {A = Unit {0}} φ (λ _. φ) (do emit (eprintf what); exit (pos 134))
  unfolding emit call pure exit ◌>>=◌
  aborts φ what = record { at = λ s log h. refl }

  assert-Step : (φ : Type 0) (found family : ℕ) → Step φ (λ _. φ) (assert_family found family)
  unfolding assert_family
  assert-Step φ found family = Triple-if _ _ _ (Keeps-pure tt) (aborts φ _)

  open-Step : (φ : Type 0) → Step φ (λ _. φ) open_socket
  unfolding open_socket
  open-Step φ = search (call_rules, adds, dies)

  too_small : (i j : ℕ) → i ≤ n → j ≤ n → fits (i - 1) (j - 1) ≡ false → 50 < n
  too_small i j a b e = ground arith

  -- the numbers of an association are in bounds
  abbrev IsFitting : ℕ → ℕ → Type 0
  IsFitting i j = (i ≤ 50) × (j ≤ 50)

  fitting : (i j : ℕ) → fits (i - 1) (j - 1) ≡ true → IsFitting i j
  fitting i j e = (ground arith, ground arith)

  store-Step :
      (i j : ℕ) (fd : ℤ)
      → i ≤ n
      → j ≤ n
      → Step (Unit {0}) (λ _. IsFitting i j) (store (i - 1) (j - 1) fd)
  unfolding store modify fault
  store-Step i j fd a b = elim (Bool-cases (fits (i - 1) (j - 1))) [
    | inl e ↦ rw e (record { at = λ s log h. fitting i j e })
    | inr e ↦ rw e (record { at = λ s log h. too_small i j a b e })
  ]

  load-Step : (i j : ℕ) → i ≤ n → j ≤ n → Step (n ≤ 50) (λ _. n ≤ 50) (load (i - 1) (j - 1))
  unfolding load gets fault
  load-Step i j a b = elim (Bool-cases (fits (i - 1) (j - 1))) [
    | inl e ↦ rw e (record { at = λ s log h. h })
    | inr e ↦ rw e (record { at = λ s log h. too_small i j a b e })
  ]

  create-Step :
      (family : ℕ) (local_port : String) (i j : ℕ)
      → i ≤ n
      → j ≤ n
      → Step (Unit {0}) (λ _. IsFitting i j) (create_assoc family local_port i j)
  unfolding create_assoc
  create-Step family local_port i j a b = Keeps-bind _ _ (search (call_rules, adds, dies)) λ found.
      Keeps-bind _ _ (assert-Step (Unit {0}) found family) λ _.
        Keeps-bind _ _ (open-Step (Unit {0})) λ fd.
          Keeps-bind _ _ (search (call_rules, adds, dies))
            λ _. Keeps-bind _ _ (search (call_rules, adds, dies)) λ _. store-Step i j fd a b

  -- What holds of all associations makes the table large enough.
  large_enough :
      ((i : ℕ) → 1 ≤ i → i < 1 + n → (j : ℕ) → 1 ≤ j → j < 1 + n → IsFitting i j) → n ≤ 50
  large_enough f = elim (dec_lt 0 n) [
    | yes l ↦ (f n (omega arith) (omega arith) n (omega arith) (omega arith)).0
    | no nl ↦ omega arith
  ]

module _ (k : Kernel) (cnt : ℤ) where
  create_assocs-Step :
      (family : ℕ) (local_port : String)
      → Step k
          (rounds_of cnt)
          (Unit {0})
          (λ _. rounds_of cnt ≤ 50)
          (create_assocs family local_port cnt)
  unfolding create_assocs
  create_assocs-Step family local_port =
      let n = rounds_of cnt in
      Triple-map (create_assocs family local_port cnt)
        (facts_for (λ _ _. Unit {0}) _ n 1 _
          λ i a b.
            facts_for (λ _ _. Unit {0}) (IsFitting k n i) n 1 _
              λ j c d.
                Triple-map (create_assoc family local_port i j)
                  (create-Step k n family local_port i j (omega arith) (omega arith))
                  (λ _ _ _ f. (tt, f)))
        (λ _ _ _ (_, f). large_enough k n f)

  -- from there on, the table is large enough
  abbrev Safe : {A : Type 0} → M Perf A → Type 0
  Safe m = Step k (rounds_of cnt) (rounds_of cnt ≤ 50) (λ _. rounds_of cnt ≤ 50) m

  allowed_call : (c : Call) → Adds {S = Perf} (λ _ _. rounds_of cnt ≤ 50) c
  allowed_call = adds k (rounds_of cnt) (rounds_of cnt ≤ 50)

  allowed_report : (what : String) → Dies {S = Perf} (λ _ _. rounds_of cnt ≤ 50) Quits what
  allowed_report = dies k (rounds_of cnt) (rounds_of cnt ≤ 50)

  modify-Safe : (f : Perf → Perf) → Safe (modify f)
  modify-Safe = modify-Step k (rounds_of cnt) (rounds_of cnt ≤ 50)

  send_one-Safe : (fd : ℤ) → Safe (send_one fd)
  unfolding send_one
  send_one-Safe fd = search (call_rules, allowed_call, allowed_report, modify-Safe)

  measure-Safe : (fd : ℤ) → Safe (measure fd)
  unfolding measure
  measure-Safe fd = search (call_rules, allowed_call, allowed_report, send_one-Safe) depth 12

  close_one-Safe :
      (i j : ℕ)
      → i ≤ rounds_of cnt
      → j ≤ rounds_of cnt
      → Safe (do fd ← load (i - 1) (j - 1); emit (close fd))
  close_one-Safe i j a b =
      Keeps-bind _ _ (load-Step k (rounds_of cnt) i j a b) λ fd. search (call_rules, allowed_call)

  close_assocs-Safe : Safe (close_assocs cnt)
  unfolding close_assocs
  close_assocs-Safe =
      Triple-for (λ _ _ _. rounds_of cnt ≤ 50) (rounds_of cnt) 1 _
        λ i a b.
          Triple-for (λ _ _ _. rounds_of cnt ≤ 50) (rounds_of cnt) 1 _
            λ j c d. close_one-Safe i j (omega arith) (omega arith)

  -- how the client returns
  abbrev Returns : ℤ → Type 0
  Returns status = (rounds_of cnt ≤ 50) × ((status ≡ pos 0) ⊎ (status ≡ pos 1))

  returns :
      (status : ℤ)
      → (status ≡ pos 0) ⊎ (status ≡ pos 1)
      → Step k (rounds_of cnt) (rounds_of cnt ≤ 50) Returns (pure status)
  unfolding pure
  returns status e = record { at = λ s log h. (h, e) }

  finish-Step :
      (fd time_spent : ℤ)
      → Step k (rounds_of cnt) (rounds_of cnt ≤ 50) Returns (finish fd cnt time_spent)
  unfolding finish
  finish-Step fd time_spent =
      Triple-if _ _ _
        (Keeps-bind _ _ (search (call_rules, allowed_call)) λ _. returns (pos 1) (inr refl))
        (Keeps-bind _ _ close_assocs-Safe λ _.
          Keeps-bind _ _ (search (call_rules, allowed_call))
            λ _. Keeps-bind _ _ (search (call_rules, allowed_call)) λ _. returns (pos 0) (inl refl))

module _ (k : Kernel) (addr_cnt : String) where
  free_call : (c : Call) → Adds {S = Perf} (λ _ _. Unit {0}) c
  free_call = adds k (rounds_of (atoi addr_cnt)) (Unit {0})

  free_report : (what : String) → Dies {S = Perf} (λ _ _. Unit {0}) Quits what
  free_report = dies k (rounds_of (atoi addr_cnt)) (Unit {0})

  run-Step :
      (remote_addr remote_port local_port : String)
      → Step k
          (rounds_of (atoi addr_cnt))
          (Unit {0})
          (Returns k (atoi addr_cnt))
          (run remote_addr remote_port local_port addr_cnt)
  unfolding run
  run-Step remote_addr remote_port local_port =
      Keeps-bind _ _ (search (call_rules, free_call, free_report)) λ family.
        Keeps-bind _ _ (search (call_rules, free_call, free_report)) λ local_family.
          Keeps-bind _ _ (open-Step k (rounds_of (atoi addr_cnt)) (Unit {0})) λ fd.
            Keeps-bind _ _ (search (call_rules, free_call, free_report)) λ _.
              Keeps-bind _ _ (search (call_rules, free_call, free_report)) λ _.
                Triple-then _ _ (create_assocs-Step k (atoi addr_cnt) local_family local_port) λ _.
                  Keeps-bind _ _ (measure-Safe k (atoi addr_cnt) fd)
                    (finish-Step k (atoi addr_cnt) fd)

  -- Whatever the kernel answers, the client returns only 0 or 1, and only if the count that it was given is at most
  -- 50. It exits only right after it has printed which call failed, with status -1, or after an
  -- assertion has failed. It runs into undefined behaviour only if the count is above 50, and it needs no fuel.
  pub run-Returns :
      (remote_addr remote_port local_port : String) (s : Perf) (log : List Call)
      → Ends
          (λ status _ _. (rounds_of (atoi addr_cnt) ≤ 50) × ((status ≡ pos 0) ⊎ (status ≡ pos 1)))
          Quits
          (λ _. 50 < rounds_of (atoi addr_cnt))
          (run remote_addr remote_port local_port addr_cnt k s log)
  run-Returns remote_addr remote_port local_port s log =
      (run-Step remote_addr remote_port local_port).at s log tt
