-- ===== src/Harness/Args.antt =====
-- The command line: atoi() and main().
use text.Mathlib.Text.{◌==◌ as str_eq}
use sctp_tests.Prelude.{
  ℕ, ◌+◌, ◌-◌, ◌*◌, String, ℤ, pos, sub_ℕ, Bool, ◌&&◌, ◌||◌, List, [], ◌∷◌, ◌==◌, leb, codes,
  if◌then◌else◌,
}
use sctp_tests.Posix.{M, print, fault, ◌>>◌}
use sctp_tests.Harness.State.{Context}

unfoldable pub is_digit : ℕ → Bool
is_digit c = leb b'0' c && leb c b'9'

unfoldable pub is_space : ℕ → Bool
is_space c = c == b' ' || (leb 9 c && leb c 13)

unfoldable pub digits_from : ℕ → List ℕ → ℕ
digits_from n [] = n
digits_from n (c ∷ cs) =
    let rest = digits_from (n * 10 + (c - b'0')) cs in if is_digit c then rest else n

unfoldable pub signed : List ℕ → ℤ
signed [] = pos 0
signed (c ∷ cs) =
    if c == b'-'
    then sub_ℕ 0 (digits_from 0 cs)
    else if c == b'+'
    then pos (digits_from 0 cs)
    else pos (digits_from 0 (c ∷ cs))

unfoldable pub after_spaces : List ℕ → ℤ
after_spaces [] = pos 0
after_spaces (c ∷ cs) = let rest = after_spaces cs in if is_space c then rest else signed (c ∷ cs)

-- atoi() of the C library: leading white space, a sign, then the digits up to the first other character
unfoldable pub atoi : String → ℤ
unfolding after_spaces signed digits_from is_digit is_space
atoi text = after_spaces (codes text)

-- do_help(): it ends without a `return`, and main() returns its result, which is undefined
unfoldable pub do_help : M Context ℤ
do_help = do print "\n   usage: %s  ip  port  [0-4]  [-l | -s]\n\n" []; fault

-- main(), of the programs' do_server() and do_client(), which take ip, port and the case's number
module _ (do_server do_client : String → String → ℤ → M Context ℤ) where
  unfoldable pub main : List String → M Context ℤ
  unfolding do_help
  main (name ∷ ip ∷ port ∷ number ∷ mode ∷ []) =
      if str_eq mode "-l"
      then do_server ip port (atoi number)
      else if str_eq mode "-s"
      then do_client ip port (atoi number)
      else do_help
  main _ = do_help
