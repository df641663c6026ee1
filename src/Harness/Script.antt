-- ===== src/Harness/Script.antt =====
-- What a receiver makes of a list of messages: the data among them, and the commands.
use sctp_tests.Prelude.{ℕ, ◌+◌, ◌≡◌, refl, Bool, true, false, List, [], ◌∷◌, ◌==◌, if◌then◌else◌}
use sctp_tests.Harness.State.{cmd_set_strreset, cmd_close_asoc}
use sctp_tests.Harness.Peer.{Message}

-- The messages that count as data, up to the command to close.
unfoldable pub data_of : List Message → List Message
data_of [] = []
data_of ((len, sid) ∷ rest) =
    let later = data_of rest in
    if len == cmd_set_strreset
    then later
    else if len == cmd_close_asoc
    then []
    else (len, sid) ∷ later

-- A command to close is among the messages.
unfoldable pub has_close : List Message → Bool
has_close [] = false
has_close ((len, sid) ∷ rest) =
    let later = has_close rest in
    if len == cmd_set_strreset then later else if len == cmd_close_asoc then true else later

-- A command to allow resets is among the messages, before any command to close.
unfoldable pub has_reset : List Message → Bool
has_reset [] = false
has_reset ((len, sid) ∷ rest) =
    let later = has_reset rest in
    if len == cmd_set_strreset then true else if len == cmd_close_asoc then false else later

-- The lengths of messages, and their streams.
abbrev pub lengths : List Message → List ℕ
lengths [] = []
lengths ((len, sid) ∷ rest) = len ∷ lengths rest

abbrev pub streams : List Message → List ℕ
streams [] = []
streams ((len, sid) ∷ rest) = sid ∷ streams rest

abbrev pub sum : List ℕ → ℕ
sum [] = 0
sum (n ∷ ns) = n + sum ns

module _ (len sid : ℕ) (rest : List Message) where
  pub data_message :
      (len == cmd_set_strreset) ≡ false
      → (len == cmd_close_asoc) ≡ false
      → (data_of ((len, sid) ∷ rest) ≡ (len, sid) ∷ data_of rest)
        × (has_close ((len, sid) ∷ rest) ≡ has_close rest)
        × (has_reset ((len, sid) ∷ rest) ≡ has_reset rest)
  unfolding data_of has_close has_reset
  data_message e f = rw (e, f) (refl, refl, refl)

  pub reset_message :
      (len == cmd_set_strreset) ≡ true
      → (data_of ((len, sid) ∷ rest) ≡ data_of rest)
        × (has_close ((len, sid) ∷ rest) ≡ has_close rest)
        × (has_reset ((len, sid) ∷ rest) ≡ true)
  unfolding data_of has_close has_reset
  reset_message e = rw e (refl, refl, refl)

  pub close_message :
      (len == cmd_set_strreset) ≡ false
      → (len == cmd_close_asoc) ≡ true
      → data_of ((len, sid) ∷ rest) ≡ []
  unfolding data_of
  close_message e f = rw (e, f)
