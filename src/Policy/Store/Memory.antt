-- ===== src/Policy/Store/Memory.antt =====
-- pkg/policy/store.go: `MemoryPolicyStore`. Each method holds the lock; what is stored and what is
-- returned are copies.
pub mod Listing
use nuts.Base.{
  ◌≡◌, refl, ◌==◌, Bool, true, false, Option, none, some, List, [], ◌∷◌, String, ℕ, if◌then◌else◌,
  str_eq, is_empty, lookup, insert, erase, lookup-insert, lookup-erase, select, map, length, arith,
  eq_iff, Option-cases, inl, inr,
}
use nuts.Policy.{Policy}
use nuts.Task.{inc64}
use nuts.Policy.Store.{PolicyStore, PolicyStoreLaws}
use nuts.Db.{is_some}

-- The field `policies`.
abbrev pub Policies : Type 0 → Type 0
Policies X = List (String × Policy X)

module _ {X : Type 0} where
  unfoldable pub get : Policies X → String → Option (Policy X) × Policies X
  get s id = (lookup id s, s)

  -- The loop of `List` over the map.
  unfoldable pub values : Policies X → List (Policy X)
  values [] = []
  values ((k, p) ∷ s) = p ∷ values s

  unfoldable pub list : Policies X → Option (List (Policy X))
  list s = some (values s)

  unfoldable pub list_enabled : Policies X → Option (List (Policy X))
  list_enabled s = some (select (λ p. p.enabled) (values s))

  unfoldable pub create : Policies X → Policy X → Option (Policy X × Policies X)
  create s p =
      let first = record p { version = 1 } in
      if is_empty p.id
      then none
      else if is_some (lookup p.id s)
      then none
      else some (first, insert p.id first s)

  unfoldable pub update : Policies X → Policy X → Option (Policy X × Policies X)
  update s p = elim (lookup p.id s) [
    | none ↦ none
    | some existing ↦
        let next = record p { version = inc64 existing.version } in
        if p.version == existing.version then some (next, insert p.id next s) else none
  ]

  unfoldable pub delete : Policies X → String → Option (Policies X)
  delete s id = if is_some (lookup id s) then some (erase id s) else none

  unfoldable pub count : Policies X → Option ℕ
  count s = some (length s)

  abbrev pub memory : PolicyStore (Policies X) X
  memory = record {
    get = get;
    list = list;
    list_enabled = list_enabled;
    create = create;
    update = update;
    delete = delete;
    count = count;
  }
