-- ===== src/HashTable/Decode.antt =====
-- The numbers of an association can be read back from its address.
use sctp_tests.Prelude.{
  ℕ, zero, suc, ◌+◌, ◌-◌, ◌*◌, ◌/◌, ◌%◌, ◌<◌, ◌≡◌, refl, ◌∙◌, String, true, false, List, [], ◌∷◌,
  codes, ◌==◌, ltb, leb, drop, inl, inr, Bool-cases, ltb→ge, ◌≤◌, tests, arith, if◌then◌else◌,
}
use Prim.Native.Char.{Char, code}
use sctp_tests.Harness.{digits_from, is_digit}
use sctp_tests.HashTable.{digit, decimal_from, decimal, af_inet, address}

-- What follows a number and the character behind it.
after_number : List ℕ → List ℕ
after_number [] = []
after_number (c ∷ cs) = let rest = after_number cs in if is_digit c then rest else cs

-- The two numbers of an address, behind `172.16.` or `2020::`.
pub decoded : ℕ → String → ℕ × ℕ
unfolding after_number
decoded family text =
    let cs = drop (if family == af_inet then 7 else 6) (codes text) in
    (digits_from 0 cs, digits_from 0 (after_number cs))

pub code-digit : (n : ℕ) → n < 10 → code (digit n) ≡ 48 + n
code-digit zero h = refl
code-digit (suc zero) h = refl
code-digit (suc (suc zero)) h = refl
code-digit (suc (suc (suc zero))) h = refl
code-digit (suc (suc (suc (suc zero)))) h = refl
code-digit (suc (suc (suc (suc (suc zero))))) h = refl
code-digit (suc (suc (suc (suc (suc (suc zero)))))) h = refl
code-digit (suc (suc (suc (suc (suc (suc (suc zero))))))) h = refl
code-digit (suc (suc (suc (suc (suc (suc (suc (suc zero)))))))) h = refl
code-digit (suc (suc (suc (suc (suc (suc (suc (suc (suc zero))))))))) h = refl
code-digit (suc (suc (suc (suc (suc (suc (suc (suc (suc (suc n)))))))))) h = absurd (omega arith)

digit_step :
    (m n : ℕ) (cs : List ℕ)
    → n < 10
    → digits_from m (code (digit n) ∷ cs) ≡ digits_from (m * 10 + n) cs
unfolding digits_from is_digit
digit_step m n cs h =
    let least : leb 48 (48 + n) ≡ true = ground arith in
    let most : leb (48 + n) 57 ≡ true = ground arith in
    let value : 48 + n - 48 ≡ n = omega arith in rw (code-digit n h, least, most, value) refl

digit_skipped :
    (n : ℕ) (cs : List ℕ) → n < 10 → after_number (code (digit n) ∷ cs) ≡ after_number cs
unfolding after_number is_digit
digit_skipped n cs h =
    let least : leb 48 (48 + n) ≡ true = ground arith in
    let most : leb (48 + n) 57 ≡ true = ground arith in rw (code-digit n h, least, most) refl

-- `R` takes the digits of a number one by one, and the text behind the number last.
decimal_from_ind :
    (R : ℕ → List ℕ → Type 0)
    → ((m n : ℕ) (cs : List ℕ) → n < 10 → R (m * 10 + n) cs → R m (code (digit n) ∷ cs))
    → (fuel n : ℕ) (text : String) → n < fuel
    → R n (codes text)
    → R 0 (codes (decimal_from fuel n text))
unfolding decimal_from
decimal_from_ind R step zero n text h r = absurd (omega arith)
decimal_from_ind R step (suc fuel) n text h r = elim (Bool-cases (ltb n 10)) [
  | inl e ↦ rw e (step 0 n (codes text) (omega (tests, e)) (rw (zero_digits n) r))
  | inr e ↦ rw e (
      decimal_from_ind R step fuel (n / 10) _ (let l : 10 ≤ n = ltb→ge n 10 e in omega arith)
        (step (n / 10) (n % 10) (codes text) (omega arith) (rw (last_digit n) r)))
]
  where
    zero_digits : (n : ℕ) → 0 * 10 + n ≡ n
    zero_digits n = omega arith

    last_digit : (n : ℕ) → n / 10 * 10 + n % 10 ≡ n
    last_digit n = omega arith

pub number_read :
    (n : ℕ) (text : String) → digits_from 0 (codes (decimal n text)) ≡ digits_from n (codes text)
unfolding decimal
number_read n text =
    decimal_from_ind (λ m cs. digits_from m cs ≡ digits_from n (codes text))
      (λ m d cs h e. digit_step m d cs h ∙ e) (suc n) n text (omega arith) refl

number_skipped :
    (n : ℕ) (text : String) → after_number (codes (decimal n text)) ≡ after_number (codes text)
unfolding decimal
number_skipped n text =
    decimal_from_ind (λ m cs. after_number cs ≡ after_number (codes text))
      (λ m d cs h e. digit_skipped d cs h ∙ e) (suc n) n text (omega arith) refl

-- two numbers with a character between them
numbers_read :
    (c : Char) (i j : ℕ)
    → is_digit (code c) ≡ false
    → let text = codes (decimal i (String.◌∷◌ c (decimal j ""))) in
      Path (ℕ × ℕ) (digits_from 0 text, digits_from 0 (after_number text)) (i, j)
unfolding digits_from after_number
numbers_read c i j e =
    rw
      (
        number_read i (String.◌∷◌ c (decimal j "")),
        number_skipped i (String.◌∷◌ c (decimal j "")),
        e,
        number_read j "",
      )
      refl

-- The numbers i and j can be read back from the address that the client writes for them, of either
-- family.
pub decoded-address : (family i j : ℕ) → decoded family (address family i j) ≡ (i, j)
unfolding decoded address is_digit
decoded-address family i j = elim (Bool-cases (family == af_inet)) [
  | inl e ↦ rw e (numbers_read "." i j refl)
  | inr e ↦ rw e (numbers_read ":" i j refl)
]
