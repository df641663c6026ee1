-- ===== src/HashTable/Table.antt =====
-- What the table of sockets adds up to, when each socket counts with a weight.
use sctp_tests.Prelude.{ℕ, zero, suc, ◌+◌, ◌≤◌, ◌<◌, ◌≡◌, refl, ℤ, true, false, ◌==◌, arith}
use sctp_tests.HashTable.{put}

module _ (w : ℤ → ℕ) where
  -- the first `n` of row `i`
  abbrev pub row : (ℕ → ℕ → ℤ) → ℕ → ℕ → ℕ
  row f i zero = 0
  row f i (suc n) = row f i n + w (f i n)

  -- the first `n` of each of the first `m` rows
  abbrev pub rows : (ℕ → ℕ → ℤ) → ℕ → ℕ → ℕ
  rows f zero n = 0
  rows f (suc m) n = rows f m n + row f m n

  put_same : (f : ℕ → ℕ → ℤ) (i j : ℕ) (fd : ℤ) → put i j fd f i j ≡ fd
  put_same f i j fd =
      let a : (i == i) ≡ true = ground arith in
      let b : (j == j) ≡ true = ground arith in rw (a, b) refl

  put_other : (f : ℕ → ℕ → ℤ) (i j : ℕ) (fd : ℤ) (a b : ℕ) → a < i → put i j fd f a b ≡ f a b
  put_other f i j fd a b h = let e : (a == i) ≡ false = ground arith in rw e refl

  put_before : (f : ℕ → ℕ → ℤ) (i j : ℕ) (fd : ℤ) (b : ℕ) → b < j → put i j fd f i b ≡ f i b
  put_before f i j fd b h =
      let a : (i == i) ≡ true = ground arith in
      let e : (b == j) ≡ false = ground arith in rw (a, e) refl

  row-other :
      (f : ℕ → ℕ → ℤ) (i j : ℕ) (fd : ℤ) (a n : ℕ) → a < i → row (put i j fd f) a n ≡ row f a n
  row-other f i j fd a zero h = refl
  row-other f i j fd a (suc n) h = rw (row-other f i j fd a n h, put_other f i j fd a n h) refl

  row-before :
      (f : ℕ → ℕ → ℤ) (i j : ℕ) (fd : ℤ) (n : ℕ) → n ≤ j → row (put i j fd f) i n ≡ row f i n
  row-before f i j fd zero h = refl
  row-before f i j fd (suc n) h =
      rw (row-before f i j fd n (omega arith), put_before f i j fd n (omega arith)) refl

  pub rows-put :
      (f : ℕ → ℕ → ℤ) (i j : ℕ) (fd : ℤ) (m n : ℕ) → m ≤ i → rows (put i j fd f) m n ≡ rows f m n
  rows-put f i j fd zero n h = refl
  rows-put f i j fd (suc m) n h =
      rw (rows-put f i j fd m n (omega arith), row-other f i j fd m n (omega arith)) refl

  pub row-put : (f : ℕ → ℕ → ℤ) (i j : ℕ) (fd : ℤ) → row (put i j fd f) i (suc j) ≡ row f i j + w fd
  row-put f i j fd = rw (row-before f i j fd j (omega arith), put_same f i j fd) refl
