-- ===== src/Common/Snowflake/Order.antt =====
-- pkg/common/id.go: the identities that one generator gives increase, and each tells its parts.
use nuts.Base.{
  refl, ◌≡◌, ap, ◌∙◌, ℕ, ◌+◌, ◌/◌, ◌%◌, ◌^◌, ◌≤◌, ◌<◌, List, [], ◌∷◌, arith, All, ◌-◌, ◌*◌, true,
  suc, length,
}
use nuts.Base.Int.{ℤ, pos, pos_part, ltb_ℤ}
use nuts.Common.Snowflake.{
  SnowflakeGenerator, Readings, snowflake_epoch, max_machine_id, max_sequence, catch_up, next_milli,
  pack, int64, generate, generate_all,
}
use nuts.Common.Snowflake.Bounds.{Until, last_day, generate-le}

-- The generator's numbers fit their fields.
abbrev pub Fits : SnowflakeGenerator → Type 0
Fits s = (s.machine_id ≤ max_machine_id) × (s.sequence ≤ max_sequence)

catch_up-le : (last now : ℕ) (readings : List ℕ) → last ≤ catch_up last now readings
unfolding catch_up
catch_up-le last now [] = ground arith
catch_up-le last now (r ∷ readings) = ground (arith, catch_up-le last r readings)

next_milli-lt : (last now : ℕ) (readings : List ℕ) → last < next_milli last now readings
unfolding next_milli
next_milli-lt last now [] = ground arith
next_milli-lt last now (r ∷ readings) = ground (arith, next_milli-lt last r readings)

-- A call moves the time, and the sequence within it, strictly forward.
generate-forward :
    (s : SnowflakeGenerator) (clock : Readings)
    → Fits s
    → Fits (generate s clock).1
      × (s.last_time ≤ (generate s clock).1.last_time)
      × ((generate s clock).1.last_time ≡ s.last_time → s.sequence < (generate s clock).1.sequence)
unfolding generate
generate-forward s clock (h, q) = ground (
  arith,
  catch_up-le s.last_time clock.now clock.rollback,
  next_milli-lt s.last_time (catch_up s.last_time clock.now clock.rollback) clock.exhausted,
)

-- The last identity that the generator gave.
id_of : SnowflakeGenerator → ℤ
id_of s = pack s.last_time s.machine_id s.sequence

generate-id_of :
    (s : SnowflakeGenerator) (clock : Readings) → (generate s clock).0 ≡ id_of (generate s clock).1
unfolding generate id_of
generate-id_of s clock = refl

catch_up-epoch :
    (last now : ℕ) (readings : List ℕ)
    → snowflake_epoch ≤ now
    → snowflake_epoch ≤ catch_up last now readings
unfolding catch_up
catch_up-epoch last now [] h = ground arith
catch_up-epoch last now (r ∷ readings) h = ground (arith, catch_up-le last r readings)

generate-epoch :
    (s : SnowflakeGenerator) (clock : Readings)
    → snowflake_epoch ≤ clock.now
    → snowflake_epoch ≤ (generate s clock).1.last_time
unfolding generate
generate-epoch s clock h = ground (
  arith,
  catch_up-epoch s.last_time clock.now clock.rollback h,
  next_milli-lt s.last_time (catch_up s.last_time clock.now clock.rollback) clock.exhausted,
)

int64-pos : (word : ℕ) → word < 2 ^ 63 → int64 word ≡ pos word
unfolding int64
int64-pos word h = ground (arith, h)

-- Within the 41 bits the number is the sum of its fields.
pack_lem :
    (t machine q : ℕ)
    → snowflake_epoch ≤ t
    → t < last_day
    → machine ≤ max_machine_id
    → q ≤ max_sequence
    → pack t machine q ≡ pos ((t - snowflake_epoch) * 2 ^ 22 + machine * 2 ^ 12 + q)
unfolding pack
pack_lem t machine q e l m h =
    let d = t - snowflake_epoch in
    let since : (t + (2 ^ 64 - snowflake_epoch)) % 2 ^ 64 ≡ d = omega (arith, e, l) in
    let shifted : d * 2 ^ 22 % 2 ^ 64 ≡ d * 2 ^ 22 = omega (arith, e, l) in
    let word = λ (x : ℕ). int64 (x * 2 ^ 22 % 2 ^ 64 + machine * 2 ^ 12 + q) in
    ap word since
    ∙ ap (λ (y : ℕ). int64 (y + machine * 2 ^ 12 + q)) shifted
    ∙ int64-pos (d * 2 ^ 22 + machine * 2 ^ 12 + q) (omega (arith, e, l, m, h))

-- A later time, or the same time and a later sequence, makes a larger number.
pack-lt :
    (t t' machine q q' : ℕ)
    → snowflake_epoch ≤ t
    → t ≤ t'
    → t' < last_day
    → machine ≤ max_machine_id
    → q ≤ max_sequence
    → q' ≤ max_sequence
    → (t' ≡ t → q < q')
    → ltb_ℤ (pack t machine q) (pack t' machine q') ≡ true
pack-lt t t' machine q q' e h l m hq hq' same =
    rw
      (
        pack_lem t machine q e (omega (arith, h, l)) m hq,
        pack_lem t' machine q' (omega (arith, e, h)) l m hq',
      )
      (ground (arith, e, h, m, hq, hq', same))

-- The parts of an identity, by the layout that the source states: 12 bits of sequence, 10 of machine
-- and the milliseconds since the epoch.
abbrev pub time_of : ℤ → ℕ
time_of id = pos_part id / 2 ^ 22 + snowflake_epoch

abbrev pub machine_of : ℤ → ℕ
machine_of id = pos_part id / 2 ^ 12 % 2 ^ 10

abbrev pub sequence_of : ℤ → ℕ
sequence_of id = pos_part id % 2 ^ 12

unpack :
    (t machine q : ℕ)
    → snowflake_epoch ≤ t
    → t < last_day
    → machine ≤ max_machine_id
    → q ≤ max_sequence
    → (time_of (pack t machine q) ≡ t)
      × (machine_of (pack t machine q) ≡ machine)
      × (sequence_of (pack t machine q) ≡ q)
unpack t machine q e l m h =
    rw (pack_lem t machine q e l m h)
      (omega (arith, e, m, h), omega (arith, e, m, h), omega (arith, e, m, h))

-- An identity tells the time, the machine and the sequence it was made of, when the generator's
-- numbers fit their fields, the clock first reads no time before the epoch, and its readings and the
-- last time are before a bound that is less than 2 ^ 41 milliseconds after the epoch.
pub generate_lem :
    (bound : ℕ) (s : SnowflakeGenerator) (clock : Readings)
    → bound < last_day
    → Fits s
    → s.last_time < bound
    → Until bound clock
    → (time_of (generate s clock).0 ≡ (generate s clock).1.last_time)
      × (machine_of (generate s clock).0 ≡ s.machine_id)
      × (sequence_of (generate s clock).0 ≡ (generate s clock).1.sequence)
unfolding generate id_of
generate_lem bound s clock far f l u =
    let (f', t, q) = generate-forward s clock f in
    let reached = generate-le bound bound s clock l (omega arith) u in
    let parts =
      unpack (generate s clock).1.last_time s.machine_id (generate s clock).1.sequence
        (generate-epoch s clock u.0) (omega (arith, reached, far)) f.0 f'.1 in
    rw (generate-id_of s clock) parts

-- The numbers are each above the one before, the first above the bound.
abbrev pub Above : ℤ → List ℤ → Type 0
Above bound [] = Unit
Above bound (x ∷ xs) = (ltb_ℤ bound x ≡ true) × Above x xs

abbrev pub Increasing : List ℤ → Type 0
Increasing [] = Unit
Increasing (x ∷ xs) = Above x xs

generate_all-Above :
    (bound later : ℕ) (clocks : List Readings) (s : SnowflakeGenerator)
    → Fits s
    → snowflake_epoch ≤ s.last_time
    → s.last_time < later
    → bound ≤ later
    → later + length clocks ≤ last_day
    → All (Until bound) clocks
    → Above (id_of s) (generate_all s clocks).0
unfolding generate_all id_of
generate_all-Above bound later [] s f e l le far h = tt
generate_all-Above bound later (c ∷ clocks) s f e l le far (h, hs) =
    let (f', t, q) = generate-forward s c f in
    let reached = generate-le bound later s c l le h in
    (
      pack-lt s.last_time (generate s c).1.last_time s.machine_id s.sequence
          (generate s c).1.sequence e t (omega (arith, reached, far)) f.0 f.1 f'.1 q,
      generate_all-Above bound (suc later) clocks (generate s c).1 f' (generate-epoch s c h.0)
          (omega (arith, reached)) (omega (arith, le)) (omega (arith, far)) hs,
    )

-- The identities that a generator gives, one call after another, are strictly increasing, also when
-- its clock is set back or stands still, when the generator's numbers fit their fields, each call
-- first reads no time before the epoch, and all readings and the last time are before a bound from
-- which 2 ^ 41 milliseconds after the epoch is at least as many milliseconds away as there are calls.
pub generate_all-Increasing :
    (bound : ℕ) (s : SnowflakeGenerator) (clocks : List Readings)
    → Fits s
    → s.last_time < bound
    → bound + length clocks ≤ last_day
    → All (Until bound) clocks
    → Increasing (generate_all s clocks).0
unfolding generate_all id_of
generate_all-Increasing bound s [] f l far h = tt
generate_all-Increasing bound s (c ∷ clocks) f l far (h, hs) =
    let reached = generate-le bound bound s c l (omega arith) h in
    generate_all-Above bound (suc bound) clocks (generate s c).1 (generate-forward s c f).0
      (generate-epoch s c h.0) (omega (arith, reached)) (omega arith) (omega (arith, far)) hs
