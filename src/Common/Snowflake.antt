-- ===== src/Common/Snowflake.antt =====
-- pkg/common/id.go: `SnowflakeGenerator`. The clock is a parameter: a call takes the milliseconds
-- that it reads, the first and those of its two waits, whose end is the deadline. A reading is an
-- int64 and not negative; the arithmetic on it wraps as in the source.
use nuts.Base.{
  ℕ, ◌+◌, ◌-◌, ◌*◌, ◌/◌, ◌%◌, ◌^◌, ◌≤◌, ◌<◌, Bool, true, false, Option, none, some, List, [], ◌∷◌,
  if◌then◌else◌, ltb, ◌==◌,
}
use nuts.Base.Int.{ℤ, pos, negsuc}
pub mod Order
mod Bounds
mod Tests

-- `SnowflakeGenerator`; its numbers are int64 and never negative.
pub record SnowflakeGenerator : Type 0 where
  pub machine_id : ℕ
  pub sequence : ℕ
  pub last_time : ℕ

abbrev pub snowflake_epoch : ℕ
snowflake_epoch = 1700000000000

-- `maxMachineID` and `maxSequence`
abbrev pub max_machine_id : ℕ
max_machine_id = 1023

abbrev pub max_sequence : ℕ
max_sequence = 4095

unfoldable pub new_snowflake_generator : ℕ → Option SnowflakeGenerator
new_snowflake_generator machine_id =
    if ltb max_machine_id machine_id
    then none
    else some (record { machine_id = machine_id; sequence = 0; last_time = 0 })

-- The wait for a clock that was set back: at the deadline, the last time is used.
unfoldable pub catch_up : ℕ → ℕ → List ℕ → ℕ
catch_up last now [] = if ltb now last then last else now
catch_up last now (reading ∷ readings) =
    let later = catch_up last reading readings in if ltb now last then later else now

-- The wait for the next millisecond: at the deadline, it is taken to have come.
unfoldable pub next_milli : ℕ → ℕ → List ℕ → ℕ
next_milli last now [] = if ltb last now then now else last + 1
next_milli last now (reading ∷ readings) =
    let later = next_milli last reading readings in if ltb last now then now else later

-- The int64 whose bits are those of the word.
unfoldable pub int64 : ℕ → ℤ
int64 word = if ltb word (2 ^ 63) then pos word else negsuc (2 ^ 64 - 1 - word)

-- The number of the time and the sequence, with the identity of the machine: the subtraction and the
-- shift wrap. The fields of the source's `|` do not overlap, so it is a sum here, and
-- `& maxSequence` is `% 4096`.
unfoldable pub pack : ℕ → ℕ → ℕ → ℤ
unfolding int64
pack time machine_id sequence =
    let elapsed = (time + (2 ^ 64 - snowflake_epoch)) % 2 ^ 64 in
    int64 (elapsed * 2 ^ 22 % 2 ^ 64 + machine_id * 2 ^ 12 + sequence)

-- The times of one call.
pub record Readings : Type 0 where
  pub now : ℕ
  pub rollback : List ℕ
  pub exhausted : List ℕ

-- `Generate`; the text is the number in decimal.
unfoldable pub generate : SnowflakeGenerator → Readings → ℤ × SnowflakeGenerator
unfolding catch_up next_milli pack
generate s clock =
    let now = catch_up s.last_time clock.now clock.rollback in
    let next = (s.sequence + 1) % (max_sequence + 1) in
    let full = next_milli s.last_time now clock.exhausted in
    let again = now == s.last_time in
    let sequence = if again then next else 0 in
    let time = if again then (if next == 0 then full else now) else now in
    (pack time s.machine_id sequence, record s { sequence = sequence; last_time = time })

-- A run of calls.
unfoldable pub generate_all : SnowflakeGenerator → List Readings → List ℤ × SnowflakeGenerator
unfolding generate
generate_all s [] = ([], s)
generate_all s (clock ∷ clocks) =
    let (id, s') = generate s clock in let (ids, last) = generate_all s' clocks in (id ∷ ids, last)
