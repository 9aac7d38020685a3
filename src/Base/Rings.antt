-- ===== src/Base/Rings.antt =====
-- What a ring buffer holds, read off from its start: positions that wrap round, and the last
-- elements of a sequence.
use Prim.Native.Nat.{ℕ, zero, suc, ◌+◌, ◌-◌, ◌<◌, ◌≤◌, ◌%◌}
use native.Mathlib.Nat.{mod-eq_of_lt, mod-eq-sub-mod, mod-add-mod}
use mathlib.Core.Path.{◌≡◌, refl, ap, sym, ◌∙◌}
use mathlib.Core.List.{List, [], ◌∷◌, ◌++◌}
use mathlib.Core.Logic.{inl, inr, ◌≢◌}
use mathlib.Core.Bool.{true, false}
use native.Mathlib.Omega.{arith}
use nuts.Base.Tests.{if◌then◌else◌, ltb, ◌==◌, Bool-cases, ltb→lt}
use nuts.Base.Lists.{length, take, get_or, drop, length-append, length-drop}

-- `f 0` to `f (n - 1)`.
abbrev pub tabulate {ℓ} : {A : Type ℓ} → (ℕ → A) → ℕ → List A
tabulate f zero = []
tabulate f (suc n) = f 0 ∷ tabulate (λ i. f (suc i)) n

-- The last elements, at most `n` of them.
abbrev pub keep_last {ℓ} : {A : Type ℓ} → ℕ → List A → List A
keep_last n xs = drop (length xs - n) xs

pub length-tabulate {ℓ} : {A : Type ℓ} (f : ℕ → A) (n : ℕ) → length (tabulate f n) ≡ n
length-tabulate f zero = refl
length-tabulate f (suc n) = ap suc (length-tabulate (λ i. f (suc i)) n)

pub tabulate-eq {ℓ} :
    {A : Type ℓ} (f g : ℕ → A) (n : ℕ) → ((i : ℕ) → i < n → f i ≡ g i) → tabulate f n ≡ tabulate g n
tabulate-eq f g zero h = refl
tabulate-eq f g (suc n) h = cc (
  h 0 (omega arith),
  tabulate-eq (λ i. f (suc i)) (λ i. g (suc i)) n (λ i l. h (suc i) (omega (arith, l))),
)

pub tabulate-suc {ℓ} :
    {A : Type ℓ} (f : ℕ → A) (n : ℕ) → tabulate f (suc n) ≡ tabulate f n ++ (f n ∷ [])
tabulate-suc f zero = refl
tabulate-suc f (suc n) = ap (◌∷◌ (f 0)) (tabulate-suc (λ i. f (suc i)) n)

-- A position less than twice the size wraps at most once.
pub mod_once : (p n : ℕ) → p < n + n → p % n ≡ (if ltb p n then p else p - n)
mod_once p n h = elim (Bool-cases (ltb p n)) [
  | inl small ↦ rw small (mod-eq_of_lt (ltb→lt p n small))
  | inr large ↦ rw large (
      mod-eq-sub-mod {n = p} {m = n} (ground (arith, large))
      ∙ mod-eq_of_lt (ground (arith, large, h)))
]

drop-append {ℓ} :
    {A : Type ℓ} (n : ℕ) (xs : List A) (x : A)
    → n ≤ length xs
    → drop n (xs ++ (x ∷ [])) ≡ drop n xs ++ (x ∷ [])
drop-append zero xs x h = refl
drop-append (suc n) [] x h = absurd (omega (arith, h))
drop-append (suc n) (y ∷ xs) x h = drop-append n xs x (omega (arith, h))

drop-nil {ℓ} : {A : Type ℓ} (k : ℕ) → drop {A = A} k [] ≡ []
drop-nil zero = refl
drop-nil (suc k) = refl

drop-drop {ℓ} : {A : Type ℓ} (m n : ℕ) (xs : List A) → drop m (drop n xs) ≡ drop (n + m) xs
drop-drop m zero xs = ap (λ k. drop k xs) (omega arith)
drop-drop m (suc n) [] = drop-nil m ∙ sym (drop-nil (suc n + m))
drop-drop m (suc n) (x ∷ xs) =
    drop-drop m n xs ∙ ap (λ k. drop k (x ∷ xs)) {x = suc (n + m)} {y = suc n + m} (omega arith)

-- One more element pushes the oldest of a full window out.
pub keep_last-append {ℓ} :
    {A : Type ℓ} (n : ℕ) (xs : List A) (x : A)
    → 0 < n
    → keep_last n (xs ++ (x ∷ []))
      ≡ (if length (keep_last n xs) == n then drop 1 (keep_last n xs) else keep_last n xs)
        ++ (x ∷ [])
keep_last-append n xs x h =
    let longer : length (xs ++ (x ∷ [])) ≡ suc (length xs) =
      omega (arith, length-append xs (x ∷ [])) in
    elim (Bool-cases (ltb (length xs) n)) [
      | inl short ↦
          let none_out : length xs - n ≡ 0 = ground (arith, short) in
          let none_out' : length (xs ++ (x ∷ [])) - n ≡ 0 = ground (arith, short, longer) in
          let open_ : (length xs == n) ≡ false = ground (arith, short) in
          rw (none_out, none_out', open_) refl
      | inr long ↦
          let full : (length (drop (length xs - n) xs) == n) ≡ true =
            ground (arith, long, length-drop (length xs - n) xs) in
          let one_more : length (xs ++ (x ∷ [])) - n ≡ length xs - n + 1 =
            ground (arith, long, longer) in
          rw (full, one_more)
            (drop-append (length xs - n + 1) xs x (ground (arith, long, h))
              ∙ ap (λ ys. ys ++ (x ∷ [])) (sym (drop-drop 1 (length xs - n) xs)))
    ]

pub tabulate-drop {ℓ} :
    {A : Type ℓ} (f : ℕ → A) (n : ℕ)
    → 0 < n
    → tabulate (λ i. f (suc i)) (n - 1) ≡ drop 1 (tabulate f n)
tabulate-drop f zero h = absurd (omega (arith, h))
tabulate-drop f (suc n) h = ap (tabulate (λ i. f (suc i))) {x = suc n - 1} {y = n} (omega arith)

-- Wrapping after one step, or once after all of them.
pub wrap_next : (head i cap : ℕ) → ((head + 1) % cap + i) % cap ≡ (head + suc i) % cap
wrap_next head i cap =
    mod-add-mod (head + 1) cap i
    ∙ ap (λ k. k % cap) {x = head + 1 + i} {y = head + suc i} (omega arith)

-- Fewer steps than the size lead to another position.
pub wrap_apart :
    (head i k cap : ℕ) → head < cap → i < k → k < cap → (head + k) % cap ≢ (head + i) % cap
wrap_apart head i k cap h l m = ground (
  arith,
  h,
  l,
  m,
  mod_once (head + k) cap (omega (arith, h, m)),
  mod_once (head + i) cap (omega (arith, h, l, m)),
)

pub get_or-tabulate {ℓ} :
    {A : Type ℓ} (f : ℕ → A) (n : ℕ) (d : A) → 0 < n → get_or (tabulate f n) 0 d ≡ f 0
get_or-tabulate f zero d h = absurd (omega (arith, h))
get_or-tabulate f (suc n) d h = refl

pub tabulate-last {ℓ} :
    {A : Type ℓ} (f : ℕ → A) (n : ℕ) → 0 < n → tabulate f n ≡ tabulate f (n - 1) ++ (f (n - 1) ∷ [])
tabulate-last f zero h = absurd (omega (arith, h))
tabulate-last f (suc n) h =
    tabulate-suc f n ∙ ap (λ k. tabulate f k ++ (f k ∷ [])) {x = n} {y = suc n - 1} (omega arith)

pub tabulate-first {ℓ} :
    {A : Type ℓ} (f : ℕ → A) (n : ℕ) → 0 < n → tabulate f n ≡ f 0 ∷ drop 1 (tabulate f n)
tabulate-first f zero h = absurd (omega (arith, h))
tabulate-first f (suc n) h = refl

pub keep_last-nil {ℓ} : {A : Type ℓ} (n : ℕ) → keep_last {A = A} n [] ≡ []
keep_last-nil {A = A} n = ap (λ k. drop {A = A} k []) {x = 0 - n} {y = 0} (omega arith)

pub append-step {ℓ} :
    {A : Type ℓ} (xs ys : List A) (x : A) → (xs ++ (x ∷ [])) ++ ys ≡ xs ++ (x ∷ ys)
append-step [] ys x = refl
append-step (y ∷ xs) ys x = ap (◌∷◌ y) (append-step xs ys x)

pub append-nil {ℓ} : {A : Type ℓ} (xs : List A) → xs ++ [] ≡ xs
append-nil [] = refl
append-nil (y ∷ xs) = ap (◌∷◌ y) (append-nil xs)

pub take-nil {ℓ} : {A : Type ℓ} (n : ℕ) → take {A = A} n [] ≡ []
take-nil zero = refl
take-nil (suc n) = refl

-- One more element is among the first `n`, if there is room.
pub take-snoc {ℓ} :
    {A : Type ℓ} (n : ℕ) (xs : List A) (x : A)
    → take n (xs ++ (x ∷ []))
      ≡ (if length (take n xs) == n then take n xs else take n xs ++ (x ∷ []))
take-snoc zero xs x = refl
take-snoc {A = A} (suc n) [] x = ground (arith, take-nil {A = A} n)
take-snoc (suc n) (y ∷ xs) x = ground (arith, take-snoc n xs x)
