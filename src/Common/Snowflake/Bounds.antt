-- ===== src/Common/Snowflake/Bounds.antt =====
-- pkg/common/id.go: how late the times of a generator are.
use nuts.Base.{ℕ, ◌+◌, ◌^◌, ◌≤◌, ◌<◌, List, [], ◌∷◌, arith, All}
use nuts.Common.Snowflake.{
  SnowflakeGenerator, Readings, snowflake_epoch, catch_up, next_milli, generate,
}

All-lt :
    (bound later : ℕ) (xs : List ℕ)
    → bound ≤ later
    → All (λ r. r < bound) xs
    → All (λ r. r < later) xs
All-lt bound later [] le h = tt
All-lt bound later (x ∷ xs) le (h, hs) = (omega (arith, h, le), All-lt bound later xs le hs)

-- The first reading is no time before the epoch, and every reading is before the bound.
abbrev pub Until : ℕ → Readings → Type 0
Until bound c =
    (snowflake_epoch ≤ c.now)
    × (c.now < bound)
    × All (λ r. r < bound) c.rollback
    × All (λ r. r < bound) c.exhausted

-- The first time that 41 bits of milliseconds do not hold.
abbrev pub last_day : ℕ
last_day = snowflake_epoch + 2 ^ 41

catch_up-lt :
    (bound last now : ℕ) (readings : List ℕ)
    → last < bound
    → now < bound
    → All (λ r. r < bound) readings
    → catch_up last now readings < bound
unfolding catch_up
catch_up-lt bound last now [] l n h = ground arith
catch_up-lt bound last now (r ∷ readings) l n (h, hs) =
    ground (arith, catch_up-lt bound last r readings l h hs)

next_milli-le :
    (bound last now : ℕ) (readings : List ℕ)
    → last < bound
    → now < bound
    → All (λ r. r < bound) readings
    → next_milli last now readings ≤ bound
unfolding next_milli
next_milli-le bound last now [] l n h = ground arith
next_milli-le bound last now (r ∷ readings) l n (h, hs) =
    ground (arith, next_milli-le bound last r readings l h hs)

-- A call reaches at most the bound of its readings.
pub generate-le :
    (bound later : ℕ) (s : SnowflakeGenerator) (clock : Readings)
    → s.last_time < later
    → bound ≤ later
    → Until bound clock
    → (generate s clock).1.last_time ≤ later
unfolding generate
generate-le bound later s clock l le (e, n, back, full) =
    let up =
      catch_up-lt later s.last_time clock.now clock.rollback l (omega (arith, n, le))
        (All-lt bound later clock.rollback le back) in
    ground (
      arith,
      up,
      next_milli-le later s.last_time (catch_up s.last_time clock.now clock.rollback)
          clock.exhausted l up (All-lt bound later clock.exhausted le full),
    )
