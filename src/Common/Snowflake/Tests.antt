-- ===== src/Common/Snowflake/Tests.antt =====
-- Concrete runs of the generator.
use nuts.Base.{◌≡◌, refl, [], ◌∷◌, arith, ◌+◌, ◌^◌, ◌-◌, ◌*◌}
use nuts.Common.Snowflake.{
  SnowflakeGenerator, Readings, snowflake_epoch, pack, generate, generate_all, int64, negsuc,
}
use nuts.Common.Snowflake.Order.{
  Increasing, time_of, machine_of, sequence_of, generate_lem, generate_all-Increasing,
}

-- A generator in the middle of a millisecond, with one number of its sequence left.
abbrev a_generator : SnowflakeGenerator
a_generator = record { machine_id = 5; sequence = 4094; last_time = snowflake_epoch + 7 }

-- The clock stands still, is set back, and moves on.
abbrev still : Readings
still = record { now = snowflake_epoch + 7; rollback = []; exhausted = [] }

abbrev set_back : Readings
set_back = record {
  now = snowflake_epoch + 3;
  rollback = (snowflake_epoch + 4) ∷ [];
  exhausted = [];
}

abbrev moved : Readings
moved = record { now = snowflake_epoch + 20; rollback = []; exhausted = [] }

three_ids :
    (generate_all a_generator (still ∷ (still ∷ (set_back ∷ (moved ∷ []))))).0
    ≡ pack (snowflake_epoch + 7) 5 4095
      ∷ (pack (snowflake_epoch + 8) 5 0
          ∷ (pack (snowflake_epoch + 8) 5 1 ∷ (pack (snowflake_epoch + 20) 5 0 ∷ [])))
unfolding generate_all pack int64
three_ids = refl

generate_lem_example :
    (time_of (generate a_generator still).0 ≡ (generate a_generator still).1.last_time)
    × (machine_of (generate a_generator still).0 ≡ 5)
    × (sequence_of (generate a_generator still).0 ≡ (generate a_generator still).1.sequence)
generate_lem_example =
    generate_lem (snowflake_epoch + 30) a_generator still (omega arith) (omega arith, omega arith)
      (omega arith) (omega arith, omega arith, tt, tt)

generate_all-Increasing_example :
    Increasing (generate_all a_generator (still ∷ (still ∷ (set_back ∷ (moved ∷ []))))).0
generate_all-Increasing_example =
    generate_all-Increasing (snowflake_epoch + 30) a_generator
      (still ∷ (still ∷ (set_back ∷ (moved ∷ [])))) (omega arith, omega arith) (omega arith)
      (omega arith)
      (
        (omega arith, omega arith, tt, tt),
        (
          (omega arith, omega arith, tt, tt),
          (
            (omega arith, omega arith, (omega arith, tt), tt),
            ((omega arith, omega arith, tt, tt), tt),
          ),
        ),
      )

-- At 2 ^ 41 milliseconds after the epoch the shift reaches the sign.
wrapped : pack (snowflake_epoch + 2 ^ 41) 5 0 ≡ negsuc (2 ^ 63 - 5 * 2 ^ 12 - 1)
unfolding pack int64
wrapped = refl
