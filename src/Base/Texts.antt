-- ===== src/Base/Texts.antt =====
-- Membership loops over `[]string`, and the keys `prefix + id` of the stores.
use Prim.Native.String.{String, ◌++◌ as append_text}
use text.Mathlib.Text.{◌==◌ as str_eq, starts_with}
use text.Mathlib.TextEquality.{eq_iff, starts_with_iff}
use text.Mathlib.TextLemmas.{append_cancel_left, prefix-append}
use mathlib.Core.Path.{◌≡◌, refl, ap, sym}
use mathlib.Core.Bool.{Bool, true, false, ◌||◌}
use mathlib.Core.List.{List, [], ◌∷◌, ◌++◌}
use native.Mathlib.Omega.{arith}

-- Go's `prefix + id`.
unfoldable pub join : String → String → String
join p s = append_text p s

-- Does the slice hold the text?
abbrev pub contains : List String → String → Bool
contains [] s = false
contains (x ∷ xs) s = str_eq x s || contains xs s

-- Each text stands in the slice once.
abbrev pub Distinct : List String → Type 0
Distinct [] = Unit {0}
Distinct (x ∷ xs) = (contains xs x ≡ false) × Distinct xs

pub contains-append :
    (xs ys : List String) (s : String) → contains (xs ++ ys) s ≡ (contains xs s || contains ys s)
contains-append [] ys s = refl
contains-append (x ∷ xs) ys s = ground (arith, contains-append xs ys s)

Bool-ext : (a b : Bool) → (a ≡ true → b ≡ true) → (b ≡ true → a ≡ true) → a ≡ b
Bool-ext true b f g = sym (f refl)
Bool-ext false true f g = g refl
Bool-ext false false f g = refl

pub str_eq_refl : (s : String) → str_eq s s ≡ true
str_eq_refl s = (eq_iff s s).1 refl

pub str_eq_sym : (s t : String) → str_eq s t ≡ str_eq t s
str_eq_sym s t =
    Bool-ext (str_eq s t) (str_eq t s) (λ e. (eq_iff t s).1 (sym ((eq_iff s t).0 e)))
      (λ e. (eq_iff s t).1 (sym ((eq_iff t s).0 e)))

-- One prefix keeps different ids apart.
pub str_eq-join : (p s t : String) → str_eq (join p s) (join p t) ≡ str_eq s t
unfolding join
str_eq-join p s t =
    Bool-ext (str_eq (append_text p s) (append_text p t)) (str_eq s t)
      (λ e.
        (eq_iff s t).1
          (append_cancel_left p s t ((eq_iff (append_text p s) (append_text p t)).0 e)))
      (λ e. (eq_iff (append_text p s) (append_text p t)).1 (ap (append_text p) ((eq_iff s t).0 e)))

-- A key begins with its prefix.
pub starts_with-join : (p s : String) → starts_with (join p s) p ≡ true
unfolding join
starts_with-join p s = (starts_with_iff (append_text p s) p).1 (prefix-append p s)

pub join-injective : (p s t : String) → join p s ≡ join p t → s ≡ t
unfolding join
join-injective p s t e = append_cancel_left p s t e
