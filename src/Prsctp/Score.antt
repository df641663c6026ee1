-- ===== src/Prsctp/Score.antt =====
-- The score that the receiver of sctp_pr.c keeps, and what it comes to for a list of messages.
use sctp_tests.Prelude.{
  ℕ, ◌+◌, ◌≤◌, ◌≡◌, refl, Bool, false, List, [], ◌∷◌, arith, ◌==◌, if◌then◌else◌,
}
use sctp_tests.Harness.{Context}
use sctp_tests.Harness.Script.{sum}
use sctp_tests.Prsctp.Cases.{CheckPr, check_pr, check_pr_c, check_pr_cx, check_pr_cxx}
use sctp_tests.Prsctp.Checks.{cb4}

-- The messages counted, the sum of their lengths, and the exit status if no more come.
pub record Score : Type 0 where
  pub count : ℕ
  pub total : ℕ
  pub status : ℕ

abbrev pub score_of : Context → Score
score_of s = record { count = s.cb3; total = cb4 s; status = s.cb1 }

abbrev pub status_if : Bool → ℕ
status_if good = if good then 0 else 1

-- The score after one more message, with the totals that are expected after each.
abbrev pub score : CheckPr → ℕ → Score → Score
score CheckPr.null len r = r
score check_pr len r = record r { status = status_if (len == 1000) }
score check_pr_c len r =
    let t : ℕ = r.total + len in
    record {
      count = r.count + 1;
      total = t;
      status = if r.count + 1 == 1 then status_if (t == 100) else status_if (t == 200);
    }
score check_pr_cx len r =
    let t : ℕ = r.total + len in
    record {
      count = r.count + 1;
      total = t;
      status = if r.count + 1 == 1 then status_if (t == 1000) else status_if (t == 2000);
    }
score check_pr_cxx len r =
    let t : ℕ = r.total + len in
    record {
      count = r.count + 1;
      total = t;
      status =
          if r.count + 1 == 1
          then status_if (t == 1)
          else if r.count + 1 == 2
          then status_if (t == 2)
          else if r.count + 1 == 3
          then status_if (t == 1002)
          else if r.count + 1 == 4
          then status_if (t == 2002)
          else r.status;
    }

unfoldable pub scores : CheckPr → List ℕ → Score → Score
scores check [] r = r
scores check (len ∷ lens) r = scores check lens (score check len r)

abbrev pub start : Score
start = record { count = 0; total = 0; status = 1 }

-- The lengths are what the case wants: there are some, the last is 1000 in the plain cases, and in the
-- others they add up to what is expected after so many, of which `cxx` looks at four.
unfoldable pub passes : CheckPr → List ℕ → Bool
passes CheckPr.null lens = false
passes check_pr [] = false
passes check_pr (len ∷ []) = len == 1000
passes check_pr (len ∷ more ∷ lens) = passes check_pr (more ∷ lens)
passes check_pr_c [] = false
passes check_pr_c (len ∷ []) = len == 100
passes check_pr_c (len ∷ more ∷ lens) = len + sum (more ∷ lens) == 200
passes check_pr_cx [] = false
passes check_pr_cx (len ∷ []) = len == 1000
passes check_pr_cx (len ∷ more ∷ lens) = len + sum (more ∷ lens) == 2000
passes check_pr_cxx [] = false
passes check_pr_cxx (a ∷ []) = a == 1
passes check_pr_cxx (a ∷ b ∷ []) = a + b == 2
passes check_pr_cxx (a ∷ b ∷ c ∷ []) = a + b + c == 1002
passes check_pr_cxx (a ∷ b ∷ c ∷ d ∷ lens) = a + b + c + d == 2002

plain_scores :
    (len : ℕ) (lens : List ℕ) (r : Score)
    → (scores check_pr (len ∷ lens) r).status ≡ status_if (passes check_pr (len ∷ lens))
unfolding scores passes
plain_scores len [] r = refl
plain_scores len (more ∷ lens) r = plain_scores more lens (score check_pr len r)

-- after the first message the sum decides
c_scores :
    (len : ℕ) (lens : List ℕ) (r : Score)
    → 0 + 1 ≤ r.count
    → (scores check_pr_c (len ∷ lens) r).status ≡ status_if (r.total + sum (len ∷ lens) == 200)
unfolding scores
c_scores len [] r h = ground arith
c_scores len (more ∷ lens) r h = ground (arith, c_scores more lens (score check_pr_c len r))

cx_scores :
    (len : ℕ) (lens : List ℕ) (r : Score)
    → 0 + 1 ≤ r.count
    → (scores check_pr_cx (len ∷ lens) r).status ≡ status_if (r.total + sum (len ∷ lens) == 2000)
unfolding scores
cx_scores len [] r h = ground arith
cx_scores len (more ∷ lens) r h = ground (arith, cx_scores more lens (score check_pr_cx len r))

-- after the fourth message the status stays
cxx_scores :
    (lens : List ℕ) (r : Score) → 4 ≤ r.count → (scores check_pr_cxx lens r).status ≡ r.status
unfolding scores
cxx_scores [] r h = refl
cxx_scores (len ∷ lens) r h = ground (arith, cxx_scores lens (score check_pr_cxx len r))

null_scores : (lens : List ℕ) (r : Score) → (scores CheckPr.null lens r).status ≡ r.status
unfolding scores
null_scores [] r = refl
null_scores (len ∷ lens) r = null_scores lens r

-- The status after a list of messages.
pub scores-start :
    (check : CheckPr) (lens : List ℕ)
    → (scores check lens start).status ≡ status_if (passes check lens)
unfolding scores passes
scores-start CheckPr.null lens = null_scores lens start
scores-start check_pr [] = refl
scores-start check_pr (len ∷ lens) = plain_scores len lens start
scores-start check_pr_c [] = refl
scores-start check_pr_c (len ∷ []) = ground arith
scores-start check_pr_c (len ∷ more ∷ lens) =
    ground (arith, c_scores more lens (score check_pr_c len start))
scores-start check_pr_cx [] = refl
scores-start check_pr_cx (len ∷ []) = ground arith
scores-start check_pr_cx (len ∷ more ∷ lens) =
    ground (arith, cx_scores more lens (score check_pr_cx len start))
scores-start check_pr_cxx [] = refl
scores-start check_pr_cxx (a ∷ []) = ground arith
scores-start check_pr_cxx (a ∷ b ∷ []) = ground arith
scores-start check_pr_cxx (a ∷ b ∷ c ∷ []) = ground arith
scores-start check_pr_cxx (a ∷ b ∷ c ∷ d ∷ lens) = ground (
  arith,
  cxx_scores lens (
      score check_pr_cxx d
        (score check_pr_cxx c (score check_pr_cxx b (score check_pr_cxx a start)))),
)
