-- ===== src/Policy/Store.antt =====
-- pkg/policy/interface.go: `PolicyStore` as a record of operations, with the contract that the manager
-- relies on.
use nuts.Base.{
  Memᴰ, ◌↔◌, ◌≡◌, ◌||◌, Bool, true, false, not, Option, none, some, List, [], ◌∷◌, String, ℕ,
  if◌then◌else◌, str_eq,
}
use nuts.Policy.{Policy}
use nuts.Task.{inc64}
pub mod Memory
pub mod Backed

-- The operations over a state `S`; `none` is an error, after which the state is as before. A policy
-- comes back from `create` and `update` as the call leaves it, with its new version.
pub record PolicyStore (S X : Type 0) : Type 0 where
  pub get : S → String → Option (Policy X) × S
  pub list : S → Option (List (Policy X))
  pub list_enabled : S → Option (List (Policy X))
  pub create : S → Policy X → Option (Policy X × S)
  pub update : S → Policy X → Option (Policy X × S)
  pub delete : S → String → Option S
  pub count : S → Option ℕ

-- What the store holds is a map, `view`, on the states that are `Good`. Reading does not change it. A
-- created policy was not there before and has a first version; an update wants the stored version and
-- leaves the next one; each write and each delete changes its own id alone.
pub record PolicyStoreLaws {S X : Type 0} (ops : PolicyStore S X) (Good : S → Type 0)
    (view : S → String → Option (Policy X)) : Type 0 where
  pub get-view :
      (s : S) (k : String)
      → Good s
      → Good (ops.get s k).1
        × ((ops.get s k).0 ≡ view s k)
        × ((j : String) → view (ops.get s k).1 j ≡ view s j)
  pub create-view :
      (s s' : S) (p p' : Policy X)
      → Good s
      → ops.create s p ≡ some (p', s')
      → Good s'
        × (view s p.id ≡ none)
        × (p' ≡ record p { version = p'.version })
        × ((j : String) → view s' j ≡ (if str_eq p.id j then some p' else view s j))
  pub update-view :
      (s s' : S) (p p' : Policy X)
      → Good s
      → ops.update s p ≡ some (p', s')
      → Good s'
        × (p' ≡ record p { version = inc64 p.version })
        × ((old : Policy X) × (view s p.id ≡ some old) × (p.version ≡ old.version))
        × ((j : String) → view s' j ≡ (if str_eq p.id j then some p' else view s j))
  pub delete-view :
      (s s' : S) (k : String)
      → Good s
      → ops.delete s k ≡ some s'
      → Good s' × ((j : String) → view s' j ≡ (if str_eq k j then none else view s j))

-- A listing names what the store holds, each policy under its own id, and the enabled ones.
pub record PolicyListLaws {S X : Type 0} (ops : PolicyStore S X) (Good : S → Type 0)
    (view : S → String → Option (Policy X)) : Type 0 where
  pub list-view :
      (s : S) (ps : List (Policy X)) (p : Policy X)
      → Good s
      → ops.list s ≡ some ps
      → Memᴰ p ps ↔ (view s p.id ≡ some p)
  pub enabled-view :
      (s : S) (ps : List (Policy X)) (p : Policy X)
      → Good s
      → ops.list_enabled s ≡ some ps
      → Memᴰ p ps ↔ ((view s p.id ≡ some p) × (p.enabled ≡ true))
  pub id-view : (s : S) (k : String) (p : Policy X) → Good s → view s k ≡ some p → p.id ≡ k
