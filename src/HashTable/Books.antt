-- ===== src/HashTable/Books.antt =====
-- The books of the client: which sockets it has opened and closed, and which stand in its table.
use sctp_tests.Prelude.{ℕ, suc, ◌+◌, ◌-◌, ◌≡◌, refl, ◌∙◌, String, ℤ, List, [], ◌∷◌, arith}
use sctp_tests.Posix.{
  Call, Kernel, socket, seqpacket, close, M, call, pure, exit, fault, modify, emit, die, fetch,
  must_send, getaddrinfo, bind, connect, for_range, ◌>>=◌,
}
use sctp_tests.Posix.Dropping.{AnyExit}
use sctp_tests.Posix.Triple.{Triple, Triple-map, Triple-then, Triple-if, Keeps-bind}
use sctp_tests.Posix.Rules.{Adds, Dies, call_rules}
use sctp_tests.Posix.Counted.{Triple-count}
use sctp_tests.HashTable.{
  Perf, put, fits, store, assert_family, open_socket, create_assoc, rounds_of, create_assocs,
  send_one, measure,
}
use sctp_tests.HashTable.Table.{row, rows, rows-put, row-put}

-- The sockets that socket() has returned, each counted with a weight.
abbrev pub opened : Kernel → (ℤ → ℕ) → List Call → ℕ
opened k w [] = 0
opened k w (socket type ∷ log) = w (k.result log (socket type)) + opened k w log
opened k w (_ ∷ log) = opened k w log

-- Those that were given to close().
abbrev pub shut : (ℤ → ℕ) → List Call → ℕ
shut w [] = 0
shut w (close fd ∷ log) = w fd + shut w log
shut w (_ ∷ log) = shut w log

module _ (k : Kernel) (w : ℤ → ℕ) where
  -- So much has been opened and closed, by what is in the table.
  abbrev pub Books : ((ℕ → ℕ → ℤ) → ℕ) → ((ℕ → ℕ → ℤ) → ℕ) → Perf → List Call → Type 0
  Books v u s log = (opened k w log ≡ v s.fds) × (shut w log ≡ u s.fds)

  abbrev pub Step :
      {A : Type 0}
      → (Perf → List Call → Type 0)
      → (A → Perf → List Call → Type 0)
      → M Perf A
      → Type 0
  Step P Q m = Triple k P Q AnyExit (λ _. Unit) m

  -- A call that neither opens nor closes.
  abbrev IsOther : Call → Type 0
  IsOther (socket type) = ⊥
  IsOther (close fd) = ⊥
  IsOther _ = Unit

  module _ (v u : (ℕ → ℕ → ℤ) → ℕ) where
    other : (c : Call) → IsOther c → Adds (Books v u) c
    other (Call.socket type) h = elim h [ ]
    other (Call.close fd) h = elim h [ ]
    other _ h = record { at = λ s log p. p }

    any_report : (what : String) → Dies (Books v u) AnyExit what
    any_report what = record { at = λ s log p. tt }

    pub fetch-Books :
        (c : Call) (what : String) → IsOther c → Step (Books v u) (λ _. Books v u) (fetch c what)
    fetch-Books c what h = search (call_rules, other, any_report)

    pub must_send-Books :
        (c : Call) (what : String)
        → IsOther c
        → Step (Books v u) (λ _. Books v u) (must_send c what)
    must_send-Books c what h = search (call_rules, other, any_report)

    pub emit-Books : (c : Call) → IsOther c → Step (Books v u) (λ _. Books v u) (emit c)
    emit-Books c h = search (call_rules, other, any_report)

    exit-Books : {A : Type 0} (c : ℤ) → Step {A = A} (Books v u) (λ _. Books v u) (exit c)
    unfolding exit
    exit-Books c = record { at = λ s log p. tt }

    assert_Books :
        (found family : ℕ) → Step (Books v u) (λ _. Books v u) (assert_family found family)
    unfolding assert_family
    assert_Books found family = search (call_rules, other, any_report, exit-Books, tt)

    len_Books :
        (f : Perf → ℕ)
        → Step (Books v u) (λ _. Books v u) (modify (λ s. record s { total_len = f s }))
    unfolding modify
    len_Books f = record { at = λ s log p. p }

    send_one-Books : (fd : ℤ) → Step (Books v u) (λ _. Books v u) (send_one fd)
    unfolding send_one
    send_one-Books fd = search (call_rules, other, any_report, len_Books, tt)

    pub measure-Books : (fd : ℤ) → Step (Books v u) (λ _. Books v u) (measure fd)
    unfolding measure
    measure-Books fd = search (call_rules, other, any_report, send_one-Books, tt) depth 12

    -- a new socket is open, and in no place of the table
    abbrev pub Fresh : ℤ → Perf → List Call → Type 0
    Fresh fd = Books (λ f. w fd + v f) u

    call-Fresh : Step (Books v u) Fresh (call (socket seqpacket))
    unfolding call
    call-Fresh = record { at = λ s log (p, q). (omega arith, q) }

    die-Fresh : (fd : ℤ) (what : String) → Step (Fresh fd) Fresh (die what)
    unfolding die emit call pure exit ◌>>=◌
    die-Fresh fd what = record { at = λ s log p. tt }

    pure-Fresh : (fd : ℤ) → Step (Fresh fd) Fresh (pure fd)
    unfolding pure
    pure-Fresh fd = record { at = λ s log p. p }

    pub open_Fresh : Step (Books v u) Fresh open_socket
    unfolding open_socket
    open_Fresh = Triple-then _ _ call-Fresh λ fd. Triple-if _ _ _ (die-Fresh fd _) (pure-Fresh fd)

  pub Books-map :
      {A : Type 0} (v v' u u' : (ℕ → ℕ → ℤ) → ℕ) (m : M Perf A) (P : Perf → List Call → Type 0)
      → Step P (λ _. Books v u) m
      → ((f : ℕ → ℕ → ℤ) → v f ≡ v' f)
      → ((f : ℕ → ℕ → ℤ) → u f ≡ u' f)
      → Step P (λ _. Books v' u') m
  Books-map v v' u u' m P h e f = Triple-map m h λ _ s log (p, q). (p ∙ e s.fds, q ∙ f s.fds)

  -- nothing has been closed
  abbrev pub none_shut : (ℕ → ℕ → ℤ) → ℕ
  none_shut f = 0

  module _ (base n : ℕ) where
    -- `i` rows, and `j` places of the next one, are filled
    abbrev filled : ℕ → ℕ → (ℕ → ℕ → ℤ) → ℕ
    filled i j f = base + rows w f i n + row w f i j

    store-filled :
        (i j : ℕ) (fd : ℤ)
        → Step
            (Fresh (filled i j) none_shut fd)
            (λ _. Books (filled i (suc j)) none_shut)
            (store i j fd)
    unfolding store fault modify
    store-filled i j fd = Triple-if (fits i j) _ _ stored (record { at = λ s log p. tt })
      where
        stored :
            Step
              (Fresh (filled i j) none_shut fd)
              (λ _. Books (filled i (suc j)) none_shut)
              (modify (λ s. record s { fds = put i j fd s.fds }))
        stored = record {
          at = λ s log (p, q). (
            rw (rows-put w s.fds i j fd i n (omega arith), row-put w s.fds i j fd)
                (omega (arith, p)),
            q,
          );
        }

    create_filled :
        (family : ℕ) (local_port : String) (i j : ℕ)
        → Step
            (Books (filled i j) none_shut)
            (λ _. Books (filled i (suc j)) none_shut)
            (create_assoc family local_port (suc i) (suc j))
    unfolding create_assoc
    create_filled family local_port i j =
        let a : suc i - 1 ≡ i = omega arith in
        let b : suc j - 1 ≡ j = omega arith in
        Keeps-bind _ _ (fetch-Books (filled i j) none_shut (getaddrinfo _ _) _ tt) λ found.
          Keeps-bind _ _ (assert_Books (filled i j) none_shut found family) λ _.
            Triple-then _ _ (open_Fresh (filled i j) none_shut) λ fd.
              Keeps-bind _ _ (must_send-Books (λ f. w fd + filled i j f) none_shut (bind fd) _ tt)
                λ _.
                  Keeps-bind _ _
                    (must_send-Books (λ f. w fd + filled i j f) none_shut (connect fd) _ tt)
                    λ _. rw (a, b) (store-filled i j fd)

    create_row :
        (family : ℕ) (local_port : String) (i : ℕ)
        → Step
            (Books (filled i 0) none_shut)
            (λ _. Books (filled (suc i) 0) none_shut)
            (for_range n 1 λ j. create_assoc family local_port (suc i) j)
    create_row family local_port i =
        Books-map (filled i n) (filled (suc i) 0) none_shut none_shut _ _
          (Triple-count (λ j. Books (filled i j) none_shut) n _
            λ j h. create_filled family local_port i j)
          (λ f. omega arith) (λ f. refl)

  pub create_all :
      (base n : ℕ) (family : ℕ) (local_port : String) (cnt : ℤ)
      → rounds_of cnt ≡ n
      → Step
          (Books (λ f. base) none_shut)
          (λ _. Books (λ f. base + rows w f n n) none_shut)
          (create_assocs family local_port cnt)
  unfolding create_assocs
  create_all base n family local_port cnt e = rw e record {
    at = λ s log (p, q).
        (Books-map (filled base n n 0) _ none_shut none_shut _ _
            (Triple-count (λ i. Books (filled base n i 0) none_shut) n _
              λ i h. create_row base n family local_port i)
            (λ f. omega arith) (λ f. refl)).at
          s log (omega arith, q);
  }
