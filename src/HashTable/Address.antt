-- ===== src/HashTable/Address.antt =====
-- The addresses of the client, as sprintf() writes them.
use Prim.Native.Char.{Char}
use sctp_tests.Prelude.{ℕ, zero, suc, ◌/◌, ◌%◌, String, ◌==◌, ltb, if◌then◌else◌}

abbrev pub nth_char : String → ℕ → Char
nth_char String.[] n = "0"
nth_char (String.◌∷◌ c cs) zero = c
nth_char (String.◌∷◌ c cs) (suc n) = nth_char cs n

-- The character of a digit.
abbrev pub digit : ℕ → Char
digit n = nth_char "0123456789" n

-- `%d` of a number from 0 to 2 ^ 31 - 1, before a text (the program prints 1 to 50); the fuel is to be more than the number.
unfoldable pub decimal_from : ℕ → ℕ → String → String
decimal_from zero n text = text
decimal_from (suc fuel) n text =
    let longer = decimal_from fuel (n / 10) (String.◌∷◌ (digit (n % 10)) text) in
    if ltb n 10 then String.◌∷◌ (digit n) text else longer

unfoldable pub decimal : ℕ → String → String
decimal n text = decimal_from (suc n) n text

-- One text before another.
abbrev pub attach : String → String → String
attach String.[] text = text
attach (String.◌∷◌ c s) text = String.◌∷◌ c (attach s text)

abbrev pub af_inet : ℕ
af_inet = 2

-- addr_str
unfoldable pub address : ℕ → ℕ → ℕ → String
address family i j =
    if family == af_inet
    then attach "172.16." (decimal i (attach "." (decimal j "")))
    else attach "2020::" (decimal i (attach ":" (decimal j "")))
