-- ===== src/DryEvent/Service.antt =====
-- A connection of the server of sctp-dry-event.c: its inner loop, up to the end of the stream.
use sctp_tests.Prelude.{
  ℕ, zero, suc, ◌+◌, ◌≤◌, ◌≡◌, refl, ℤ, Bool, true, false, List, [], ◌∷◌, drop, length, arith,
}
use sctp_tests.Posix.{
  Call, Kernel, Outcome, returned, exited, faulted, running, M, continue, select, pure, emit, ◌>>=◌,
}
use sctp_tests.Posix.Triple.{Ends, Never, continue-Ends}
use sctp_tests.Harness.Loop.{drop-suc}
use sctp_tests.DryEvent.{read_data, send_data, respond, round, rounds}
use sctp_tests.DryEvent.Counts.{responses}
use sctp_tests.DryEvent.Arrivals.{
  Arrival, Brings, Reading, ignored, ended, shown, overlong, reading, IsResult, Exchanged,
  read_data_lem, send_data_lem,
}

abbrev ends_after : Reading → Bool → Bool
ends_after ignored later = later
ends_after shown later = later
ends_after ended later = true
ends_after overlong later = false

-- The end of the stream comes, and no message before it fills the buffer.
unfoldable pub ends_well : List Arrival → Bool
ends_well [] = false
ends_well (a ∷ rest) = ends_after (reading a) (ends_well rest)

abbrev data_after : Reading → ℕ → ℕ
data_after ignored later = later
data_after shown later = suc later
data_after ended later = 0
data_after overlong later = 0

-- How many messages of data come before the end of the stream.
unfoldable pub data_before_end : List Arrival → ℕ
data_before_end [] = 0
data_before_end (a ∷ rest) = data_after (reading a) (data_before_end rest)

module _ (k : Kernel) (script : List Arrival) (b : Brings k script) where
  -- After a round that has received a message.
  abbrev After : ℕ → ℕ → Reading → Bool → List Call → Type 0
  After n m ignored more log = (more ≡ true) × Exchanged n m log
  After n m shown more log = (more ≡ true) × Exchanged n (suc m) log
  After n m ended more log = (more ≡ false) × Exchanged n m log
  After n m overlong more log = ⊥

  respond-After :
      (fd : ℤ) (r : Reading) (n m : ℕ) (rc : ℤ) (s : Unit {0}) (log : List Call)
      → IsResult r rc × Exchanged n m log
      → Ends (λ more _. After n m r more) (λ _. Never) (λ _. r ≡ overlong) (respond fd rc k s log)
  unfolding respond emit ◌>>=◌
  respond-After fd ignored n m rc s log (e, h) = rw e (refl, h)
  respond-After fd ended n m rc s log (e, h) = rw e (refl, h)
  respond-After fd shown n m rc s log (e, h) = rw e (
      continue-Ends (send_data fd k s _) _
        (send_data_lem k (λ _. shown ≡ overlong) script b fd n m s _ h)
        λ rc. record { at = λ s' log' (p, q). rw p (refl, q) })
  respond-After fd overlong n m rc s log (e, h) = absurd e

  round-After :
      (fd : ℤ) (flag : Bool) (len sid : ℕ) (rest : List Arrival) (n m : ℕ) (s : Unit {0})
      (log : List Call)
      → drop n script ≡ (flag, len, sid) ∷ rest
      → Exchanged n m log
      → Ends
          (λ more _. After (suc n) m (reading (flag, len, sid)) more)
          (λ _. Never)
          (λ _. reading (flag, len, sid) ≡ overlong)
          (round fd k s log)
  unfolding round ◌>>=◌
  round-After fd flag len sid rest n m s log e h =
      let (f, g) = b.selects fd log in
      rw (f, g)
        (continue-Ends (read_data fd k s (select fd ∷ log)) (respond fd)
          (read_data_lem k script b fd flag len sid rest n m s (select fd ∷ log) e h)
          (λ rc. record {
            at = λ s' log' p. respond-After fd (reading (flag, len, sid)) (suc n) m rc s' log' p;
          }))

  abbrev Sends : ℕ → Outcome (Unit {0}) (Unit {0}) → Type 0
  Sends m o = Ends (λ _ _ log. responses log ≡ m) (λ _. Never) Never o

  round_over :
      (r : Reading) (later : Bool) (d m n : ℕ) (next : M (Unit {0}) (Unit {0}))
      (o : Outcome (Unit {0}) Bool)
      → ends_after r later ≡ true
      → Ends (λ more _. After n m r more) (λ _. Never) (λ _. r ≡ overlong) o
      → ((i : ℕ) (s : Unit {0}) (log : List Call)
          → later ≡ true
          → Exchanged n i log
          → Sends (i + d) (next k s log))
      → Sends
          (m + data_after r d)
          (continue o (λ more. elim more [ true ↦ next | false ↦ pure tt ]) k)
  unfolding pure
  round_over ignored later d m n next (returned more s log) w (e, h) ih = rw e (ih m s log w h)
  round_over shown later d m n next (returned more s log) w (e, h) ih =
      rw e (let i : m + suc d ≡ suc m + d = omega arith in rw i (ih (suc m) s log w h))
  round_over ended later d m n next (returned more s log) w (e, (h, i)) ih = rw e (omega arith)
  round_over overlong later d m n next o w h ih = cc
  round_over r later d m n next (exited c log) w h ih = h
  round_over ignored later d m n next (faulted log) w h ih = cc
  round_over shown later d m n next (faulted log) w h ih = cc
  round_over ended later d m n next (faulted log) w h ih = cc
  round_over ignored later d m n next (running log) w h ih = cc
  round_over shown later d m n next (running log) w h ih = cc
  round_over ended later d m n next (running log) w h ih = cc

  -- What is still to come decides.
  rounds-Sends :
      (rest : List Arrival) (fuel : ℕ) (fd : ℤ) (n m : ℕ) (s : Unit {0}) (log : List Call)
      → ends_well rest ≡ true
      → length rest ≤ fuel
      → drop n script ≡ rest
      → Exchanged n m log
      → Sends (m + data_before_end rest) (rounds fuel fd k s log)
  unfolding rounds ◌>>=◌ ends_well data_before_end
  rounds-Sends [] fuel fd n m s log w room e h = cc
  rounds-Sends (a ∷ rest) zero fd n m s log w room e h = absurd (omega arith)
  rounds-Sends ((flag, len, sid) ∷ rest) (suc fuel) fd n m s log w room e h =
      round_over (reading (flag, len, sid)) (ends_well rest) (data_before_end rest) m (suc n)
        (rounds fuel fd) (round fd k s log) w (round-After fd flag len sid rest n m s log e h)
        λ i s' log' w' h'.
          rounds-Sends rest fuel fd (suc n) i s' log' w' (omega arith)
            (drop-suc n script (flag, len, sid) rest e) h'

-- On a kernel on which no call fails and which delivers messages, the end of the stream among them
-- and before it none that fills the buffer, the server's loop over a connection ends, given as many
-- rounds as there are messages. It has then called sctp_send() once for each message of data before the end.
pub rounds_answer :
    (k : Kernel) (script : List Arrival) (fuel : ℕ) (fd : ℤ)
    → Brings k script
    → ends_well script ≡ true
    → length script ≤ fuel
    → Ends
        (λ _ _ log. responses log ≡ data_before_end script)
        (λ _. Never)
        Never
        (rounds fuel fd k tt [])
rounds_answer k script fuel fd b w room =
    let e : 0 + data_before_end script ≡ data_before_end script = omega arith in
    rw e at (rounds-Sends k script b script fuel fd 0 0 tt [] w room refl (refl, refl))
