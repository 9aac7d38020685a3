-- ===== src/Task/Validator/Search.antt =====
-- pkg/task/sm_validator.go: what the two searches share, and the graph that they search.
use nuts.Base.{
  ◌≡◌, true, false, List, [], ◌∷◌, String, ℕ, suc, ◌≤◌, ◌<◌, if◌then◌else◌, str_eq, contains,
  contains-append, lookup, lookup_list, arith, eq_iff, Bool-cases, str_eq_cases, inl, inr,
  str_eq_sym, length,
}
use nuts.Task.Validator.{Graph, targets}

-- There is an edge from one state to the other.
abbrev pub Edge : Graph → String → String → Type 0
Edge graph s t = contains (lookup_list s graph) t ≡ true

-- The states that a walk along the edges comes to.
pub data Reach (graph : Graph) (start : String) : String → Type 0 where
  here : Reach graph start start
  step : {s t : String} → Reach graph start s → Edge graph s t → Reach graph start t

-- The set is closed under the edges.
abbrev pub Closed : Graph → List String → Type 0
Closed graph set = (s t : String) → contains set s ≡ true → Edge graph s t → contains set t ≡ true

-- The inclusion of sets.
abbrev pub Within : List String → List String → Type 0
Within small large = (s : String) → contains small s ≡ true → contains large s ≡ true

pub Reach-Closed :
    (graph : Graph) (set : List String) (s t : String)
    → Closed graph set
    → contains set s ≡ true
    → Reach graph s t
    → contains set t ≡ true
Reach-Closed graph set s t closed h here = h
Reach-Closed graph set s t closed h (step {s = u} r e) =
    closed u t (Reach-Closed graph set s u closed h r) e

pub Edge-targets :
    (graph : Graph) (s t : String) → Edge graph s t → contains (targets graph) t ≡ true
unfolding lookup_list lookup
Edge-targets [] s t e = absurd (ground (arith, e))
Edge-targets ((k, next) ∷ graph) s t e = elim (Bool-cases (str_eq k s)) [
  | inl y ↦ ground (arith, e, y, contains-append next (targets graph) t)
  | inr n ↦
      ground (
        arith,
        contains-append next (targets graph) t,
        Edge-targets graph s t (ground (arith, e, n)),
      )
]

-- How many entries of the list are not in the set.
abbrev pub unseen : List String → List String → ℕ
unseen [] set = 0
unseen (u ∷ us) set = let rest = unseen us set in if contains set u then rest else suc rest

pub unseen-Within :
    (us small large : List String) → Within small large → unseen us large ≤ unseen us small
unseen-Within [] small large h = omega arith
unseen-Within (u ∷ us) small large h = ground (arith, h u, unseen-Within us small large h)

pub unseen-cons :
    (us set : List String) (x : String)
    → contains us x ≡ true
    → contains set x ≡ false
    → unseen us (x ∷ set) < unseen us set
unseen-cons [] set x h n = absurd (ground (arith, h))
unseen-cons (u ∷ us) set x h n = elim (str_eq_cases u x) [
  | inl e ↦
      ground (arith, e, n, eq_iff x u, unseen-Within us set (x ∷ set) (λ s i. ground (arith, i)))
  | inr e ↦ ground (arith, e, n, h, str_eq_sym x u, unseen-cons us set x (ground (arith, h, e)) n)
]

pub unseen-length : (us set : List String) → unseen us set ≤ length us
unseen-length [] set = omega arith
unseen-length (u ∷ us) set = ground (arith, unseen-length us set)
