-- ===== src/HashTable/Closings.antt =====
-- The client closes the sockets that it has opened.
use sctp_tests.Prelude.{
  ℕ, suc, ◌+◌, ◌-◌, ◌≡◌, refl, ap, String, ℤ, pos, ◌⊎◌, inl, inr, List, [], arith,
}
use sctp_tests.Posix.{
  Call, Kernel, close, sleep, call, pure, fault, gets, emit, print, getaddrinfo, bind, connect,
  for_range, ◌>>=◌, ◌>>◌,
}
use sctp_tests.Posix.Dropping.{AnyExit}
use sctp_tests.Posix.Triple.{Ends, Triple-map, Triple-then, Triple-if, Keeps-bind}
use sctp_tests.Posix.Counted.{Triple-count}
use sctp_tests.Harness.{atoi}
use sctp_tests.HashTable.{Perf, fits, load, open_socket, rounds_of, close_assocs, finish, run}
use sctp_tests.HashTable.Table.{row, rows}
use sctp_tests.HashTable.Books.{
  opened, shut, Books, Step, fetch-Books, must_send-Books, measure-Books, open_Fresh, Books-map,
  none_shut, create_all,
}

module _ (k : Kernel) (w : ℤ → ℕ) where
  module _ (base n : ℕ) where
    abbrev total : (ℕ → ℕ → ℤ) → ℕ
    total f = base + rows w f n n

    -- `i` rows, and `j` places of the next one, have been closed
    abbrev emptied : ℕ → ℕ → (ℕ → ℕ → ℤ) → ℕ
    emptied i j f = rows w f i n + row w f i j

    -- with the socket that stands in the table at this place
    abbrev At : ℕ → ℕ → ℤ → Perf → List Call → Type 0
    At i j fd s log = Books k w total (emptied i j) s log × (fd ≡ s.fds i j)

    load-At : (i j : ℕ) → Step k w (Books k w total (emptied i j)) (At i j) (load i j)
    unfolding load gets fault
    load-At i j =
        Triple-if (fits i j) _ _ (record { at = λ s log p. (p, refl) })
          (record { at = λ s log p. tt })

    close-At :
        (i j : ℕ) (fd : ℤ)
        → Step k w (At i j fd) (λ _. Books k w total (emptied i (suc j))) (emit (close fd))
    unfolding emit call pure ◌>>=◌
    close-At i j fd = record { at = λ s log ((p, q), e). (p, (let g = ap w e in omega (arith, g))) }

    close_one :
        (i j : ℕ)
        → Step k w
            (Books k w total (emptied i j))
            (λ _. Books k w total (emptied i (suc j)))
            (do fd ← load (suc i - 1) (suc j - 1); emit (close fd))
    close_one i j =
        let a : suc i - 1 ≡ i = omega arith in
        let b : suc j - 1 ≡ j = omega arith in
        rw (a, b) (Triple-then (load i j) _ (load-At i j) (close-At i j))

    close_row :
        (i : ℕ)
        → Step k w
            (Books k w total (emptied i 0))
            (λ _. Books k w total (emptied (suc i) 0))
            (for_range n 1 λ j. do fd ← load (suc i - 1) (j - 1); emit (close fd))
    close_row i =
        Books-map k w total total (emptied i n) (emptied (suc i) 0) _ _
          (Triple-count (λ j. Books k w total (emptied i j)) n _ λ j h. close_one i j) (λ f. refl)
          (λ f. omega arith)

    close_all :
        (cnt : ℤ)
        → rounds_of cnt ≡ n
        → Step k w
            (Books k w total (none_shut k w))
            (λ _. Books k w total (λ f. rows w f n n))
            (close_assocs cnt)
    unfolding close_assocs
    close_all cnt e = rw e record {
      at = λ s log (p, q).
          (Books-map k w total total (emptied n 0) (λ f. rows w f n n) _ _
              (Triple-count (λ i. Books k w total (emptied i 0)) n _ λ i h. close_row i) (λ f. refl)
              (λ f. omega arith)).at
            s log (p, omega arith);
    }

  -- What is open when the client returns: nothing with status 0, everything with status 1.
  abbrev pub Settled : ℤ → Perf → List Call → Type 0
  Settled status s log =
      ((status ≡ pos 0) × (shut w log ≡ opened k w log)) ⊎ ((status ≡ pos 1) × (shut w log ≡ 0))

  close_probe :
      (n : ℕ) (fd : ℤ)
      → Step k w
          (Books k w (total (w fd) n) (λ f. rows w f n n))
          (λ _ _ log. shut w log ≡ opened k w log)
          (emit (close fd))
  unfolding emit call pure ◌>>=◌
  close_probe n fd = record { at = λ s log (p, q). omega arith }

  wait_return :
      Step k w (λ _ log. shut w log ≡ opened k w log) Settled (do emit (sleep 30); pure (pos 0))
  unfolding emit call pure ◌>>=◌
  wait_return = record { at = λ s log p. inl (refl, p) }

  fail_return :
      (v : (ℕ → ℕ → ℤ) → ℕ)
      → Step k w
          (Books k w v (none_shut k w))
          Settled
          (do print "Expect spending less than 1000 seconds\n" []; pure (pos 1))
  unfolding emit pure ◌>>=◌
  fail_return v = record { at = λ s log (p, q). inr (refl, q) }

  finish-Settled :
      (n : ℕ) (fd cnt time_spent : ℤ)
      → rounds_of cnt ≡ n
      → Step k w (Books k w (total (w fd) n) (none_shut k w)) Settled (finish fd cnt time_spent)
  unfolding finish
  finish-Settled n fd cnt time_spent e = Triple-if _ _ _ (fail_return (total (w fd) n)) (
      Triple-then _ _ (close_all (w fd) n cnt e)
        λ _. Triple-then _ _ (close_probe n fd) λ _. wait_return)

  open_probe :
      Step k w
        (Books k w (λ f. 0) (none_shut k w))
        (λ fd. Books k w (λ f. w fd) (none_shut k w))
        open_socket
  open_probe =
      Triple-map open_socket (open_Fresh k w (λ f. 0) (none_shut k w))
        λ fd s log (p, q). (omega arith, q)

  run_settles :
      (remote_addr remote_port local_port addr_cnt : String)
      → Step k w
          (Books k w (λ f. 0) (none_shut k w))
          Settled
          (run remote_addr remote_port local_port addr_cnt)
  unfolding run
  run_settles remote_addr remote_port local_port addr_cnt =
      Keeps-bind _ _ (fetch-Books k w (λ f. 0) (none_shut k w) (getaddrinfo _ _) _ tt) λ family.
        Keeps-bind _ _ (fetch-Books k w (λ f. 0) (none_shut k w) (getaddrinfo _ _) _ tt)
          λ local_family. Triple-then _ _ open_probe λ fd.
            Keeps-bind _ _ (must_send-Books k w (λ f. w fd) (none_shut k w) (bind fd) _ tt) λ _.
              Keeps-bind _ _ (must_send-Books k w (λ f. w fd) (none_shut k w) (connect fd) _ tt)
                λ _.
                  Triple-then _ _
                    (create_all k w (w fd) _ local_family local_port (atoi addr_cnt) refl)
                    λ _.
                      Keeps-bind _ _ (measure-Books k w (total (w fd) _) (none_shut k w) fd)
                        λ time_spent. finish-Settled _ fd (atoi addr_cnt) time_spent refl

  -- Whatever the kernel answers, and for every weight that is given to the sockets: if the client returns 0,
  -- those that it has closed weigh as much as those that it has opened; else, if it returns, it returns 1
  -- and those that it has closed weigh nothing. What it leaves open when it exits, or runs into undefined
  -- behaviour, is not said.
  pub run-Settled :
      (remote_addr remote_port local_port addr_cnt : String) (s : Perf)
      → Ends Settled AnyExit
          (λ _. Unit {0})
          (run remote_addr remote_port local_port addr_cnt k s [])
  run-Settled remote_addr remote_port local_port addr_cnt s =
      (run_settles remote_addr remote_port local_port addr_cnt).at s [] (refl, refl)
