-- ===== src/Metrics/SlidingWindow/Evict.antt =====
-- What is left after the eviction, and what the total then is.
use nuts.Base.{
  refl, ap, ◌∙◌, ◌≡◌, ◌≤◌, ℕ, suc, ◌-◌, true, Option, none, some, List, [], ◌∷◌, select, drop,
  arith, Bool-cases, inl, inr, All,
}
use nuts.Metrics.SlidingWindow.{Bucket, SlidingWindow, starts_within, first_valid, evict}

-- The buckets in the order of their starts.
abbrev pub Ascending : List Bucket → Type 0
Ascending [] = Unit {0}
Ascending (b ∷ bs) = All (λ (c : Bucket). b.start ≤ c.start) bs × Ascending bs

abbrev pub first_count : List Bucket → ℕ
first_count [] = 0
first_count (b ∷ bs) = b.count

abbrev pub valid_buckets : ℕ → ℕ → List Bucket → List Bucket
valid_buckets now size bs = select (starts_within now size) bs

later-valid :
    (now size : ℕ) (b : Bucket) (bs : List Bucket)
    → starts_within now size b ≡ true
    → All (λ (c : Bucket). b.start ≤ c.start) bs
    → valid_buckets now size bs ≡ bs
later-valid now size b [] h a = refl
later-valid now size b (c ∷ bs) h a = ground (arith, h, a.0, later-valid now size b bs h a.1)

-- What the loop's result, from index `i` on, says of the buckets it read.
abbrev Stops : ℕ → List Bucket → List Bucket → Option (ℕ × ℕ) → Type 0
Stops i bs kept none = kept ≡ []
Stops i bs kept (some (j, n)) = (i ≤ j) × (drop (j - i) bs ≡ kept) × (n ≡ first_count kept)

Stops-step :
    (i : ℕ) (b : Bucket) (bs kept : List Bucket) (o : Option (ℕ × ℕ))
    → Stops (suc i) bs kept o
    → Stops i (b ∷ bs) kept o
Stops-step i b bs kept none s = s
Stops-step i b bs kept (some (j, n)) s = (
  omega (arith, s.0),
  ap (λ k. drop k (b ∷ bs)) {x = j - i} {y = suc (j - suc i)} (omega (arith, s.0)) ∙ s.1,
  s.2,
)

first_valid-Stops :
    (now size i : ℕ) (bs : List Bucket)
    → Ascending bs
    → Stops i bs (valid_buckets now size bs) (first_valid now size i bs)
unfolding first_valid
first_valid-Stops now size i [] a = refl
first_valid-Stops now size i (b ∷ bs) a = elim (Bool-cases (starts_within now size b)) [
  | inl inside ↦
      rw (inside, later-valid now size b bs inside a.0, first_valid)
        (omega arith, ap (λ k. drop k (b ∷ bs)) {x = i - i} {y = 0} (omega arith), refl)
  | inr outside ↦
      rw (outside, first_valid)
        (Stops-step i b bs (valid_buckets now size bs) (first_valid now size (suc i) bs)
          (first_valid-Stops now size (suc i) bs a.1))
]

-- If the buckets ascend and some of them start within the window, the eviction leaves exactly those
-- that do; the total is then the count of the oldest of them alone.
pub evict_lem :
    (now : ℕ) (w : SlidingWindow) (b : Bucket) (bs : List Bucket)
    → Ascending w.buckets
    → valid_buckets now w.size w.buckets ≡ b ∷ bs
    → ((evict now w).buckets ≡ b ∷ bs) × ((evict now w).total ≡ b.count)
unfolding evict
evict_lem now w b bs a some_in =
    let s = first_valid-Stops now w.size 0 w.buckets a in
    settled (first_valid now w.size 0 w.buckets) refl s
  where
    settled :
        (o : Option (ℕ × ℕ))
        → first_valid now w.size 0 w.buckets ≡ o
        → Stops 0 w.buckets (valid_buckets now w.size w.buckets) o
        → ((evict now w).buckets ≡ b ∷ bs) × ((evict now w).total ≡ b.count)
    settled none e st = absurd (ground (arith, st, some_in))
    settled (some (j, n)) e st =
        rw (e, evict)
          (
            ap (λ k. drop k w.buckets) {x = j} {y = j - 0} (omega arith) ∙ st.1 ∙ some_in,
            st.2 ∙ ap first_count some_in,
          )
