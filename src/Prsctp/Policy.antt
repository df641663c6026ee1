-- ===== src/Prsctp/Policy.antt =====
-- What becomes of messages with a PR-SCTP policy: a specification apart from the program's checks. It
-- follows the calls in their order, with the time that they take by sleep(). A message that is sent
-- while packets are dropped waits.
--   * One with a lifetime (SCTP_PR_SCTP_TTL, in milliseconds; 0 is none) is given up when it has
--     waited for longer.
--   * One with a limit of its retransmissions (SCTP_PR_SCTP_RTX) is given up when the timer has run
--     out more often. The timer takes a second, the least that RFC 9260 recommends, and doubles.
--   * When one with a priority (SCTP_PR_SCTP_PRIO) is sent and the send buffer has no room for it,
--     waiting messages of a lower priority, that is a greater value, are given up for it, the oldest
--     first. The kernel doubles the value of SO_SNDBUF (socket(7)).
-- What still waits when packets pass again is delivered. Only data counts in the send buffer, so this
-- does not speak of tests that fill it with messages of a byte.
pub mod Messages
pub mod Expected
use sctp_tests.Prelude.{
  ℕ, zero, suc, ◌+◌, ◌-◌, ◌≤◌, ◌*◌, ◌/◌, ◌%◌, Bool, true, false, not, ◌&&◌, Option, none, some,
  List, [], ◌∷◌, ◌++◌, ◌==◌, leb, ltb, if◌then◌else◌,
}
use sctp_tests.Posix.{Call, SockOpt, setsockopt, sendmsg, system, sleep}
use sctp_tests.Posix.Tells.{collect}
use sctp_tests.Posix.Dropping.{drops}
use sctp_tests.Harness.{cmd_set_strreset, cmd_close_asoc}
use sctp_tests.Prsctp.Cases.{pr_sctp_ttl, pr_sctp_rtx, pr_sctp_prio}

-- A data message: its length, its flags, and the value of its policy.
pub record Sent : Type 0 where
  pub len : ℕ
  pub flags : ℕ
  pub value : ℕ

pub data Event : Type 0 where
  -- SO_SNDBUF is set
  buffer : ℕ → Event
  -- packets are dropped from now on, or not
  path : Bool → Event
  -- so many seconds pass
  pause : ℕ → Event
  put : Sent → Event

abbrev pub noted : Call → List Event
noted (setsockopt fd (SockOpt.so_sndbuf size)) = buffer size ∷ []
noted (system rule) = path (drops rule) ∷ []
noted (sleep t) = pause t ∷ []
noted (sendmsg fd len flags stream value) =
    if len == cmd_set_strreset
    then []
    else if len == cmd_close_asoc
    then []
    else put (record { len = len; flags = flags; value = value }) ∷ []
noted _ = []

-- SCTP_PR_POLICY() of linux/sctp.h: the policy of a message's flags
abbrev pub policy : ℕ → ℕ
policy flags = flags / 16 % 4 * 16

-- A message that waits, and for how many seconds.
pub record Waiting : Type 0 where
  pub message : Sent
  pub age : ℕ

-- What has been set, what waits and what has been delivered, the oldest first.
pub record Queue : Type 0 where
  pub size : Option ℕ
  pub is_blocked : Bool
  pub waiting : List Waiting
  pub delivered : List ℕ

abbrev empty : Queue
empty = record { size = none; is_blocked = false; waiting = []; delivered = [] }

-- How often a timer that doubles has run out, of at most so many times.
abbrev timeouts : ℕ → ℕ → ℕ → ℕ
timeouts zero timer age = 0
timeouts (suc n) timer age =
    let later = timeouts n (2 * timer) (age - timer) in if leb timer age then suc later else 0

abbrev is_given_up : Waiting → Bool
is_given_up w =
    let m = w.message in
    if policy m.flags == pr_sctp_ttl
    then ltb 0 m.value && ltb m.value (1000 * w.age)
    else policy m.flags == pr_sctp_rtx && ltb m.value (timeouts w.age 1 w.age)

-- the waiting messages, some seconds later
abbrev grown_old : ℕ → List Waiting → List Waiting
grown_old t [] = []
grown_old t (w ∷ ws) =
    let older = record w { age = w.age + t } in
    let rest = grown_old t ws in if is_given_up older then rest else older ∷ rest

abbrev total : List Waiting → ℕ
total [] = 0
total (w ∷ ws) = w.message.len + total ws

abbrev lengths : List Waiting → List ℕ
lengths [] = []
lengths (w ∷ ws) = w.message.len ∷ lengths ws

-- The messages that keep on waiting when one of this value needs `need` bytes more than there are.
abbrev give_way : ℕ → ℕ → List Waiting → List Waiting
give_way value need [] = []
give_way value need (w ∷ ws) =
    let m = w.message in
    let stay = w ∷ give_way value need ws in
    let gone = give_way value (need - m.len) ws in
    if need == 0
    then stay
    else if policy m.flags == pr_sctp_prio && ltb value m.value
    then gone
    else stay

-- how many bytes are missing for a message
abbrev missing : Option ℕ → Sent → List Waiting → ℕ
missing none m ws = 0
missing (some size) m ws = (total ws + m.len) - 2 * size

abbrev enqueue : Sent → Queue → Queue
enqueue m q =
    let w : Waiting = record { message = m; age = 0 } in
    let room = give_way m.value (missing q.size m q.waiting) q.waiting in
    record q { waiting = (if policy m.flags == pr_sctp_prio then room else q.waiting) ++ (w ∷ []) }

abbrev step : Event → Queue → Queue
step (buffer size) q = record q { size = some size }
step (path true) q = record q { is_blocked = true }
step (path false) q = record q {
  is_blocked = false;
  waiting = [];
  delivered = q.delivered ++ lengths q.waiting;
}
step (pause t) q = record q { waiting = grown_old t q.waiting }
step (put m) q =
    if q.is_blocked then enqueue m q else record q { delivered = q.delivered ++ (m.len ∷ []) }

-- The events are the newest first.
unfoldable pub queue : List Event → Queue
queue [] = empty
queue (e ∷ es) = let before = queue es in step e before

-- The lengths of what is delivered.
unfoldable pub kept : List Event → List ℕ
kept es = (queue es).delivered
