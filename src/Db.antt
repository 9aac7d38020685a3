-- ===== src/Db.antt =====
-- pkg/db: the key-value interface `DB` (interface.go) and what its clients rely on.
use nuts.Base.{
  ◌≡◌, String, Bool, true, false, ◌&&◌, Option, none, some, List, if◌then◌else◌, str_eq,
  starts_with, contains,
}
pub mod Memory
mod Tests

-- A stored value is a JSON text: what `json.Marshal` made of a value, or bytes that
-- `json.Unmarshal` refuses. The source marshals structs of strings, numbers, times and string
-- maps, on which `json.Marshal` does not fail.
pub data Json {ℓ} (A : Type ℓ) : Type ℓ where
  encoded : A → Json A
  malformed : Json A

abbrev pub unmarshal {ℓ} : {A : Type ℓ} → Json A → Option A
unmarshal (encoded a) = some a
unmarshal malformed = none

abbrev pub is_some {ℓ} : {A : Type ℓ} → Option A → Bool
is_some none = false
is_some (some _) = true

-- The interface `DB`, over the state `D` of a backend and its values `V`; `none` is an error.
-- `Set` is called `write`.
pub record Db (D V : Type 0) : Type 0 where
  pub get : D → String → Option V
  pub write : D → String → V → Option D
  pub delete : D → String → Option D
  pub list : D → String → Option (List String)

-- The contract: a successful write is read back and touches no other key, a successful delete
-- removes its key alone, and a listing names the stored keys that have the prefix.
pub record DbLaws {D V : Type 0} (db : Db D V) : Type 0 where
  pub get-write :
      (d d' : D) (k j : String) (v : V)
      → db.write d k v ≡ some d'
      → db.get d' j ≡ (if str_eq k j then some v else db.get d j)
  pub get-delete :
      (d d' : D) (k j : String)
      → db.delete d k ≡ some d'
      → db.get d' j ≡ (if str_eq k j then none else db.get d j)
  pub contains-list :
      (d : D) (p k : String) (ks : List String)
      → db.list d p ≡ some ks
      → contains ks k ≡ (starts_with k p && is_some (db.get d k))
