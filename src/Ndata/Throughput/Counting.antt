-- ===== src/Ndata/Throughput/Counting.antt =====
-- The messages that a performance check measures, and the lines that it prints.
use text.Mathlib.Text.{◌==◌ as str_eq}
use sctp_tests.Prelude.{ℕ, ◌+◌, Bool, ◌||◌, List, [], ◌∷◌, ◌==◌, if◌then◌else◌}
use sctp_tests.Posix.{Call, Kernel, Received, failed, got, recvmsg, printf}
use sctp_tests.Harness.{cmd_set_strreset, cmd_close_asoc}
use sctp_tests.Ndata.Volume.{Measure, weight}

abbrev pub is_command : ℕ → Bool
is_command len = (len == cmd_set_strreset) || (len == cmd_close_asoc)

-- What a message adds to the sum; a command adds nothing.
abbrev pub counted : Measure → ℕ → ℕ
counted m len = if is_command len then 0 else weight m len

abbrev pub received_weight : Measure → Received → ℕ
received_weight m failed = 0
received_weight m (got len sid) = counted m len

-- The sum of all messages that the kernel has delivered.
abbrev pub measured : Kernel → Measure → List Call → ℕ
measured k m [] = 0
measured k m (recvmsg fd size ∷ log) = received_weight m (k.received log) + measured k m log
measured k m (_ ∷ log) = measured k m log

-- 1 for a message of data with which the sum is just the total.
abbrev pub reaches : ℕ → Received → ℕ → ℕ
reaches total failed sum = 0
reaches total (got len sid) sum = if is_command len then 0 else if sum == total then 1 else 0

-- How many messages were such.
abbrev pub hits : Kernel → Measure → ℕ → List Call → ℕ
hits k m total [] = 0
hits k m total (recvmsg fd size ∷ log) =
    reaches total (k.received log) (measured k m (recvmsg fd size ∷ log)) + hits k m total log
hits k m total (_ ∷ log) = hits k m total log

-- How often the throughput has been printed.
abbrev pub perf_lines : List Call → ℕ
perf_lines [] = 0
perf_lines (printf format args ∷ log) =
    (if str_eq format "PERF: %lf mb/s\n" then 1 else 0) + perf_lines log
perf_lines (_ ∷ log) = perf_lines log
