-- ===== src/Ndata/Verdict/Check.antt =====
-- The check of one data message in the conformance cases of sctp_ndata.c.
use sctp_tests.Prelude.{
  ℕ, zero, suc, ◌+◌, ◌≤◌, ◌≡◌, refl, pos, Bool, true, false, ◌&&◌, some, List, [], ◌∷◌, inl, inr,
  length, get_elem?, drop, arith, Bool-cases, ◌==◌, if◌then◌else◌,
}
use native.Mathlib.Numerals.{add-one}
use sctp_tests.Posix.{Call, Kernel, Outcome, index, or_fault, emit, ◌>>=◌}
use sctp_tests.Posix.Triple.{Ends, Never}
use sctp_tests.Harness.{Context}
use sctp_tests.Harness.Peer.{receptions}
use sctp_tests.Ndata.Cases.{SnCase, assert_tests, sn_cases, case_at, current_case}
use sctp_tests.Ndata.Checks.{note_sid, do_assert_tests, run_assert_tests}
use sctp_tests.Ndata.Program.{check}

-- The first list is the beginning of the second.
unfoldable pub agrees : List ℕ → List ℕ → Bool
agrees [] ys = true
agrees (x ∷ xs) [] = false
agrees (x ∷ xs) (y ∷ ys) = x == y && agrees xs ys

pub get_elem?-drop {ℓ} :
    {A : Type ℓ} (n : ℕ) (xs : List A) (y : A) (ys : List A)
    → drop n xs ≡ y ∷ ys
    → (get_elem? xs n ≡ some y) × (drop (n + 1) xs ≡ ys)
get_elem?-drop zero [] y ys e = cc
get_elem?-drop zero (x ∷ xs) y ys e = (cc, cc)
get_elem?-drop (suc n) [] y ys e = cc
get_elem?-drop (suc n) (x ∷ xs) y ys e =
    (let (p, q) = get_elem?-drop n xs y ys e in (p, simp add-one (simp add-one at q)))

-- A list with room for one more has a head.
pub head_of_room :
    (xs : List ℕ) (n : ℕ) → suc n ≤ length xs → (y : ℕ) × (ys : List ℕ) × (xs ≡ y ∷ ys)
head_of_room [] n h = absurd (omega arith)
head_of_room (y ∷ ys) n h = (y, ys, refl)

-- The verdict after one more message.
pub verdict_step :
    (x y cb1 v : ℕ) (xs ys : List ℕ)
    → (if agrees (x ∷ xs) (y ∷ ys) then cb1 else 1) ≡ v
    → (if agrees xs ys then (if x == y then cb1 else 1) else 1) ≡ v
unfolding agrees
verdict_step x y cb1 v xs ys h = ground arith

-- What the check of a message does, where the stream `y` is expected.
abbrev pub Counted : ℕ → Context → List Call → Unit {0} → Context → List Call → Type 0
Counted y s log _ s' log' =
    (s' ≡ record s { cb0 = s.cb0 + 1; cb1 = if s.sri_stream == y then s.cb1 else 1 })
    × (receptions log' ≡ receptions log)

module _ (i : ℕ) (c : SnCase) (at_i : get_elem? sn_cases i ≡ some c) where
  pub current_case_lem :
      (k : Kernel) (s : Context) (log : List Call)
      → s.case_no ≡ pos i
      → current_case k s log ≡ Outcome.returned c s log
  unfolding current_case case_at index or_fault ◌>>=◌
  current_case_lem k s log e = rw (e, at_i)

  do_assert_tests-Ends :
      (k : Kernel) (s : Context) (log : List Call) (y : ℕ) (ys : List ℕ)
      → s.case_no ≡ pos i
      → drop s.cb0 c.sched_sids ≡ y ∷ ys
      → Ends (Counted y s log) (λ _. Never) Never (do_assert_tests k s log)
  unfolding do_assert_tests note_sid index or_fault emit ◌>>=◌
  do_assert_tests-Ends k s log y ys e f =
      rw (current_case_lem k s log e, (get_elem?-drop s.cb0 c.sched_sids y ys f).0)
        (elim (Bool-cases (s.sri_stream == y)) [
          | inl p ↦ rw (p, Counted) (refl, refl)
          | inr p ↦ rw (p, Counted) (refl, refl)
        ])

  module _ (asserts : c.do_assert_tests ≡ assert_tests) where
    pub check-Ends :
        (k : Kernel) (s : Context) (log : List Call) (y : ℕ) (ys : List ℕ)
        → s.case_no ≡ pos i
        → drop s.cb0 c.sched_sids ≡ y ∷ ys
        → Ends (Counted y s log) (λ _. Never) Never (check k s log)
    unfolding check run_assert_tests ◌>>=◌
    check-Ends k s log y ys e f =
        rw (current_case_lem k s log e, asserts) (do_assert_tests-Ends k s log y ys e f)
