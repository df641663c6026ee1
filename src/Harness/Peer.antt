-- ===== src/Harness/Peer.antt =====
-- A kernel on which no call fails, and which delivers a given list of messages to the receiver.
use sctp_tests.Prelude.{
  ℕ, suc, ◌≡◌, refl, ◌∙◌, ℤ, pos, is_zero, is_minus_one, true, false, List, [], ◌∷◌, drop, String,
}
use sctp_tests.Posix.{
  Call, Kernel, Received, failed, got, GetOpt, SockOpt, SockType, perror, sendmsg, recvmsg, socket,
  getaddrinfo, setsockopt, getsockopt, connect, bind, listen, M, call, modify, emit, print, must,
  must_send, fetch, ◌>>=◌,
}
use sctp_tests.Posix.Triple.{Never, Keeps, Keeps-pure, Keeps-bind}

-- A message as the receiver sees it: its length and its stream.
abbrev pub Message : Type 0
Message = ℕ × ℕ

-- How many messages have been asked for.
abbrev pub receptions : List Call → ℕ
receptions [] = 0
receptions (recvmsg fd size ∷ log) = suc (receptions log)
receptions (_ ∷ log) = receptions log

-- What a receiver gets when these messages are still to come.
abbrev pub next : List Message → Received
next [] = failed
next ((len, sid) ∷ rest) = got len sid

-- The result by which a call says that it went well.
abbrev pub IsSuccess : Call → ℤ → Type 0
IsSuccess (sendmsg fd len flags sid value) r = is_minus_one r ≡ false
IsSuccess (getaddrinfo ip port) r = is_zero r ≡ true
IsSuccess (setsockopt fd option) r = is_zero r ≡ true
IsSuccess (getsockopt fd option) r = is_zero r ≡ true
IsSuccess (connect fd) r = is_zero r ≡ true
IsSuccess (bind fd) r = is_zero r ≡ true
IsSuccess (listen fd backlog) r = is_zero r ≡ true
IsSuccess _ r = Unit

pub record Delivers (k : Kernel) (script : List Message) : Type 0 where
  pub succeeds : (log : List Call) (c : Call) → IsSuccess c (k.result log c)
  pub receives : (log : List Call) → k.received log ≡ next (drop (receptions log) script)

-- What a program that runs on such a kernel keeps while it receives nothing; it neither exits nor
-- runs into undefined behaviour.
abbrev pub Quiet : {S A : Type 0} → Kernel → (S → Type 0) → ℕ → M S A → Type 0
Quiet k I n m = Keeps k (λ s log. I s × (receptions log ≡ n)) (λ _. Never) Never m

-- The calls whose result must be zero.
abbrev IsChecked : Call → Type 0
IsChecked (getaddrinfo ip port) = Unit
IsChecked (setsockopt fd option) = Unit
IsChecked (connect fd) = Unit
IsChecked (bind fd) = Unit
IsChecked (listen fd backlog) = Unit
IsChecked _ = ⊥

receptions-checked :
    (c : Call) (log : List Call) → IsChecked c → receptions (c ∷ log) ≡ receptions log
receptions-checked (getaddrinfo ip port) log h = refl
receptions-checked (setsockopt fd option) log h = refl
receptions-checked (connect fd) log h = refl
receptions-checked (bind fd) log h = refl
receptions-checked (listen fd backlog) log h = refl
receptions-checked _ log h = elim h [ ]

is_zero-checked : (c : Call) (r : ℤ) → IsChecked c → IsSuccess c r → is_zero r ≡ true
is_zero-checked (getaddrinfo ip port) r h e = e
is_zero-checked (setsockopt fd option) r h e = e
is_zero-checked (connect fd) r h e = e
is_zero-checked (bind fd) r h e = e
is_zero-checked (listen fd backlog) r h e = e
is_zero-checked _ r h e = elim h [ ]

module _ {S : Type 0} {I : S → Type 0} {n : ℕ} {k : Kernel} where
  pub Quiet-call :
      (c : Call)
      → ((log : List Call) → receptions (c ∷ log) ≡ receptions log)
      → Quiet k I n (call c)
  unfolding call
  Quiet-call c h = record { at = λ s log (i, e). (i, h log ∙ e) }

  pub Quiet-socket : (type : SockType) → Quiet k I n (call (socket type))
  Quiet-socket type = Quiet-call (socket type) (λ log. refl)

  pub Quiet-setsockopt : (fd : ℤ) (option : SockOpt) → Quiet k I n (call (setsockopt fd option))
  Quiet-setsockopt fd option = Quiet-call (setsockopt fd option) (λ log. refl)

  pub Quiet-perror : (what : String) → Quiet k I n (emit (perror what))
  unfolding emit
  Quiet-perror what = Keeps-bind _ _ (Quiet-call (perror what) (λ log. refl)) (λ _. Keeps-pure tt)

  pub Quiet-modify : (f : S → S) → ((s : S) → I s → I (f s)) → Quiet k I n (modify f)
  unfolding modify
  Quiet-modify f h = record { at = λ s log (i, e). (h s i, e) }

  pub Quiet-printf : (format : String) (args : List ℤ) → Quiet k I n (print format args)
  unfolding emit ◌>>=◌
  Quiet-printf format args = record { at = λ s log h. h }

module _ {S : Type 0} {I : S → Type 0} {n : ℕ} (k : Kernel) (script : List Message)
    (d : Delivers k script) where
  pub Quiet-must : (c : Call) (what : String) → IsChecked c → Quiet k I n (must {S = S} c what)
  unfolding must ◌>>=◌
  Quiet-must c what h = record {
    at = λ s log (i, e).
        rw (is_zero-checked c (k.result log c) h (d.succeeds log c))
          (i, receptions-checked c log h ∙ e);
  }

  pub Quiet-send :
      (fd : ℤ) (len flags sid value : ℕ) (what : String)
      → Quiet k I n (must_send {S = S} (sendmsg fd len flags sid value) what)
  unfolding must_send ◌>>=◌
  Quiet-send fd len flags sid value what = record {
    at = λ s log h. rw (d.succeeds log (sendmsg fd len flags sid value)) h;
  }

  pub Quiet-fetch :
      (fd : ℤ) (option : GetOpt) (what : String)
      → Quiet k I n (fetch {S = S} (getsockopt fd option) what)
  unfolding fetch ◌>>=◌
  Quiet-fetch fd option what = record {
    at = λ s log h. rw (d.succeeds log (getsockopt fd option)) h;
  }

-- A kernel on which every call succeeds, and the receiver gets a list of messages.
abbrev pub scripted : List Message → Kernel
scripted script = record {
  result = λ log c. pos 0;
  value = λ log c. 1;
  received = λ log. next (drop (receptions log) script);
  notification = λ log. false;
  ppid = λ log. 0;
  errno = λ log. 0;
  random = λ log. 7;
  clock = λ log. 5;
}

scripted-succeeds : (c : Call) → IsSuccess c (pos 0)
scripted-succeeds (Call.sendmsg fd len flags sid value) = refl
scripted-succeeds (Call.getaddrinfo ip port) = refl
scripted-succeeds (Call.setsockopt fd option) = refl
scripted-succeeds (Call.getsockopt fd option) = refl
scripted-succeeds (Call.connect fd) = refl
scripted-succeeds (Call.bind fd) = refl
scripted-succeeds (Call.listen fd backlog) = refl
scripted-succeeds _ = tt

pub scripted-Delivers : (script : List Message) → Delivers (scripted script) script
scripted-Delivers script = record {
  succeeds = λ log c. scripted-succeeds c;
  receives = λ log. refl;
}
