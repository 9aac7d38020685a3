-- ===== src/Core/Timeout/Delays.antt =====
-- The delays: neither a timeout nor a backoff leaves its bounds.
use nuts.Base.{
  refl, ◌≡◌, ◌≤◌, ◌<◌, ℕ, ◌*◌, ◌%◌, ◌^◌, String, true, Option, none, some, if◌then◌else◌, ltb,
  arith,
}
use native.Mathlib.Nat.{one-le-pow, mod-eq_of_lt}
use nuts.Base.Int.{ℤ, pos, ltb_ℤ, pos_part}
use nuts.Core.Timeout.{backoff, signed64, second, compute_effective_timeout}

module _ (parse_duration : String → Option ℤ) where
  -- The effective timeout is positive. It is at most the default one, if that parses to a positive
  -- duration, and at most half an hour if not; and it is the rule's, if that is positive and
  -- shorter.
  pub effective_bounds :
      (rule default : String)
      → let effective = compute_effective_timeout parse_duration rule default in
        let given : ℕ = elim (parse_duration default) [
          | none ↦ 1800 * second
          | some d ↦ if ltb_ℤ (pos 0) d then pos_part d else 1800 * second
        ] in
        (0 < effective)
        × (effective ≤ given)
        × ((d : ℕ) → parse_duration rule ≡ some (pos d) → 0 < d → d < given → effective ≡ d)
  unfolding compute_effective_timeout
  effective_bounds rule default = (ground arith, ground arith, λ d e p l. ground (arith, e, p, l))

-- For a positive limit of seconds that in nanoseconds is below 2^63: with fewer than 63 retries the
-- backoff lies between one second and the limit, and from 63 retries on it is zero.
pub backoff_bounds :
    (max retry_count : ℕ)
    → 0 < max
    → max * second < 2 ^ 63
    → (retry_count < 63
        → (delay : ℕ) × (backoff (pos max) retry_count ≡ pos delay)
          × (second ≤ delay)
          × (delay ≤ max * second))
      × (63 ≤ retry_count → backoff (pos max) retry_count ≡ pos 0)
unfolding backoff signed64
backoff_bounds max n p fits = (λ l. small l, λ l. ground (arith, l, p))
  where
    capped : ℕ
    capped = if ltb max (2 ^ n) then max else 2 ^ n

    capped_bounds : (1 ≤ capped) × (capped ≤ max)
    capped_bounds = ground (arith, one-le-pow n 2 (omega arith), p)

    small :
        n < 63
        → (delay : ℕ) × (backoff (pos max) n ≡ pos delay)
          × (second ≤ delay)
          × (delay ≤ max * second)
    small l = (
      capped * second,
      (let fits' : capped * second < 2 ^ 63 = omega (arith, capped_bounds, fits) in
          let whole : (capped * second) % 2 ^ 64 ≡ capped * second =
            mod-eq_of_lt (omega (arith, fits')) in
          let positive : ltb (capped * second) (2 ^ 63) ≡ true = ground (arith, fits') in
          let early : ltb n 63 ≡ true = ground (arith, l) in
          let limited : ltb_ℤ (pos 0) (pos max) ≡ true = ground (arith, p) in
          rw (limited, early, backoff) (rw (whole, positive, signed64) refl)),
      omega (arith, capped_bounds),
      omega (arith, capped_bounds),
    )
