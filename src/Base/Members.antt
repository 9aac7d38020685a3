-- ===== src/Base/Members.antt =====
-- Membership in a list that a loop filters.
use mathlib.Core.Path.{◌≡◌, refl, ap, ◌∙◌}
use mathlib.Core.Logic.{◌↔◌, inl, inr}
use mathlib.Core.Bool.{Bool, true}
use mathlib.Core.List.{List, [], ◌∷◌, Memᴰ, map}
use mathlib.Core.List.Memᴰ
use native.Mathlib.Omega.{arith}
use nuts.Base.Tests.{Bool-cases}
use nuts.Base.Lists.{select}

module _ {ℓ} {A : Type ℓ} where
  pub mem-select :
      (f : A → Bool) (xs : List A) (a : A) → Memᴰ a (select f xs) ↔ (Memᴰ a xs × (f a ≡ true))
  mem-select f [] a = (λ m. absurd (Memᴰ.not-nil m), λ h. h.0)
  mem-select f (x ∷ xs) a = elim (Bool-cases (f x)) [
    | inl e ↦ rw e (
      λ m. elim (Memᴰ.cases_cons m) [
        | inl i ↦ (Memᴰ.head i, ap f i ∙ e)
        | inr t ↦ let (t', y) = (mem-select f xs a).0 t in (Memᴰ.tail t', y)
      ],
      λ h. elim (Memᴰ.cases_cons h.0) [
        | inl i ↦ Memᴰ.head i
        | inr t ↦ Memᴰ.tail ((mem-select f xs a).1 (t, h.1))
      ],
    )
    | inr e ↦ rw e (
      λ m. let (t, y) = (mem-select f xs a).0 m in (Memᴰ.tail t, y),
      λ h. elim (Memᴰ.cases_cons h.0) [
        | inl i ↦ absurd (ground (arith, e, i, h.1))
        | inr t ↦ (mem-select f xs a).1 (t, h.1)
      ],
    )
  ]

module _ {ℓ κ} {A : Type ℓ} {B : Type κ} where
  pub mem-map :
      (f : A → B) (xs : List A) (b : B) → Memᴰ b (map f xs) ↔ ((a : A) × Memᴰ a xs × (b ≡ f a))
  mem-map f [] b = (λ m. absurd (Memᴰ.not-nil m), λ (a, m, e). absurd (Memᴰ.not-nil m))
  mem-map f (x ∷ xs) b = (
    λ m. elim (Memᴰ.cases_cons m) [
      | inl i ↦ (x, Memᴰ.head refl, i)
      | inr t ↦ let (a, t', e) = (mem-map f xs b).0 t in (a, Memᴰ.tail t', e)
    ],
    λ (a, m, e). elim (Memᴰ.cases_cons m) [
      | inl i ↦ Memᴰ.head (e ∙ ap f i)
      | inr t ↦ Memᴰ.tail ((mem-map f xs b).1 (a, t, e))
    ],
  )
