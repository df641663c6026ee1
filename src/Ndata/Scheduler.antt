-- ===== src/Ndata/Scheduler.antt =====
-- The stream schedulers that the conformance cases of sctp_ndata.c test, as far as they decide the
-- order of whole messages that wait together: a specification apart from the table's lists.
pub mod Noted
pub mod Expected
pub mod Client
use sctp_tests.Prelude.{
  ℕ, zero, suc, ◌+◌, Bool, true, false, ◌&&◌, ◌||◌, List, [], ◌∷◌, ◌++◌, map, ◌==◌, ltb, leb,
  if◌then◌else◌,
}
use sctp_tests.Posix.{Call, SockOpt, setsockopt, sendmsg}
use sctp_tests.Posix.Tells.{collect}
use sctp_tests.Harness.{cmd_set_strreset, cmd_close_asoc}
use sctp_tests.Ndata.Cases.{ss_prio, ss_rr}

-- What a scheduler is told, and what it is given to send.
pub data Event : Type 0 where
  -- the scheduler is chosen
  chosen : ℕ → Event
  -- a stream gets its value
  valued : ℕ → ℕ → Event
  -- a data message waits on a stream
  queued : ℕ → Event

abbrev pub noted : Call → List Event
noted (setsockopt fd (SockOpt.stream_scheduler id sched)) = chosen sched ∷ []
noted (setsockopt fd (SockOpt.stream_scheduler_value id stream value)) = valued stream value ∷ []
noted (sendmsg fd len flags stream value) =
    if len == cmd_set_strreset then [] else if len == cmd_close_asoc then [] else queued stream ∷ []
noted _ = []

-- The events of a list of calls, the newest first as these are.
abbrev pub events : List Call → List Event
events = collect noted

-- The scheduler chosen last.
abbrev scheduler : List Event → ℕ
scheduler [] = 0
scheduler (chosen sched ∷ es) = sched
scheduler (_ ∷ es) = scheduler es

-- The value that a stream was given last.
abbrev value_of : ℕ → List Event → ℕ
value_of stream [] = 0
value_of stream (valued other value ∷ es) =
    let before = value_of stream es in if other == stream then value else before
value_of stream (_ ∷ es) = value_of stream es

-- How many messages wait on a stream.
abbrev waiting : ℕ → List Event → ℕ
waiting stream [] = 0
waiting stream (queued other ∷ es) =
    let n = waiting stream es in if other == stream then n + 1 else n
waiting stream (_ ∷ es) = waiting stream es

-- A message: its stream, its level (the smallest goes first), and its turn among its level.
record Waiting : Type 0 where
  stream : ℕ
  level : ℕ
  turn : ℕ

-- First come first served knows no levels and no turns; by priority, a stream's value is its level,
-- and the streams of a level take turns; round robin has one level.
abbrev place : ℕ → ℕ → ℕ → ℕ → Waiting
place sched stream value nth =
    if sched == ss_prio
    then record { stream = stream; level = value; turn = nth }
    else if sched == ss_rr
    then record { stream = stream; level = 0; turn = nth }
    else record { stream = stream; level = 0; turn = 0 }

-- A message that waits longer goes first where level and turn are the same.
abbrev goes_first : Waiting → Waiting → Bool
goes_first a b = ltb a.level b.level || (a.level == b.level && leb a.turn b.turn)

-- `a` waits the shortest of all, so it is put behind those that are its equals.
abbrev put : Waiting → List Waiting → List Waiting
put a [] = a ∷ []
put a (b ∷ bs) = let later = put a bs in if goes_first b a then b ∷ later else a ∷ b ∷ bs

abbrev queue : ℕ → (ℕ → ℕ) → List Event → List Waiting
queue sched value [] = []
queue sched value (queued stream ∷ es) =
    put (place sched stream (value stream) (waiting stream es)) (queue sched value es)
queue sched value (_ ∷ es) = queue sched value es

-- The streams of the waiting messages in the order in which the scheduler lets them go.
unfoldable pub delivered : List Event → List ℕ
delivered es = map (λ a. a.stream) (queue (scheduler es) (λ stream. value_of stream es) es)
