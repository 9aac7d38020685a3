-- ===== src/Metrics/SlidingWindow/Tests.antt =====
-- Two buckets within a window of ten, one before it.
use nuts.Base.{refl, ◌≡◌, [], ◌∷◌, arith}
use nuts.Metrics.SlidingWindow.{Bucket, SlidingWindow, evict, add, first_valid}
use nuts.Metrics.SlidingWindow.Evict.{evict_lem}

abbrev fresh : Bucket
fresh = record { start = 14; count = 5 }

abbrev later : Bucket
later = record { start = 18; count = 2 }

abbrev window : SlidingWindow
window = record {
  buckets = record { start = 3; count = 4 } ∷ fresh ∷ later ∷ [];
  size = 10;
  interval = 3;
  total = 11;
}

evict_lem_example : ((evict 20 window).buckets ≡ fresh ∷ later ∷ []) × ((evict 20 window).total ≡ 5)
evict_lem_example =
    evict_lem 20 window fresh (later ∷ [])
      ((omega arith, (omega arith, tt)), ((omega arith, tt), (tt, tt))) refl

-- The counts of the window add up to seven.
undercounted : (add 20 0 window).total ≡ 5
unfolding add evict first_valid
undercounted = refl
