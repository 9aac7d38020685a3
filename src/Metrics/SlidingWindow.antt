-- ===== src/Metrics/SlidingWindow.antt =====
-- pkg/metrics/sliding_window.go: counts of events in the last stretch of time, in buckets. Each
-- method holds the lock and reads the clock once.
use nuts.Base.{
  refl, ap, sym, ◌∙◌, ◌≡◌, ◌≤◌, ◌<◌, ℕ, suc, ◌+◌, ◌-◌, ◌/◌, Bool, true, false, Option, none, some,
  List, [], ◌∷◌, if◌then◌else◌, ltb, leb, select, drop, get_or, arith, Bool-cases, inl, inr,
}
mod Evict
mod Tests

-- `bucket`
pub record Bucket : Type 0 where
  pub start : ℕ
  pub count : ℕ

-- `slidingWindow`
pub record SlidingWindow : Type 0 where
  pub buckets : List Bucket
  pub size : ℕ
  pub interval : ℕ
  pub total : ℕ

abbrev pub millisecond : ℕ
millisecond = 1000000

-- `newSlidingWindow`; an interval of 0 stands for all that are not positive.
unfoldable pub new_sliding_window : ℕ → ℕ → SlidingWindow
new_sliding_window size interval = record {
  buckets = [];
  size = size;
  interval =
      if ltb 0 interval
      then interval
      else if ltb (size / 60) millisecond
      then millisecond
      else size / 60;
  total = 0;
}

-- Does the bucket start after `now - size`?
abbrev pub starts_within : ℕ → ℕ → Bucket → Bool
starts_within now size b = ltb now (b.start + size)

-- The loop of `evict`, which breaks at the first bucket in the window: its index and its count.
unfoldable pub first_valid : ℕ → ℕ → ℕ → List Bucket → Option (ℕ × ℕ)
first_valid now size i [] = none
first_valid now size i (b ∷ bs) =
    let rest = first_valid now size (suc i) bs in
    if starts_within now size b then some (i, b.count) else rest

-- `evict`
unfoldable pub evict : ℕ → SlidingWindow → SlidingWindow
evict now w = elim (first_valid now w.size 0 w.buckets) [
  | none ↦ record w { total = 0 }
  | some (i, n) ↦ record w { buckets = drop i w.buckets; total = n }
]

-- `currentBucket`, and the count added to the bucket it returns.
unfoldable pub add_current : ℕ → ℕ → ℕ → List Bucket → List Bucket
add_current now interval n [] = record { start = now; count = n } ∷ []
add_current now interval n (b ∷ []) =
    if ltb now (b.start + interval)
    then record b { count = b.count + n } ∷ []
    else b ∷ (record { start = now; count = n } ∷ [])
add_current now interval n (b ∷ (c ∷ bs)) = b ∷ add_current now interval n (c ∷ bs)

-- `Add`
unfoldable pub add : ℕ → ℕ → SlidingWindow → SlidingWindow
add now n w =
    let v = evict now w in
    record v { buckets = add_current now v.interval n v.buckets; total = v.total + n }

-- `Total`
unfoldable pub total_at : ℕ → SlidingWindow → SlidingWindow × ℕ
total_at now w = let v = evict now w in (v, v.total)
