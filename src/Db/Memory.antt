-- ===== src/Db/Memory.antt =====
-- pkg/db/memory.go: a map behind a lock, so that each method is one atomic step.
use nuts.Base.{
  ◌≡◌, String, ◌&&◌, Option, some, List, [], ◌∷◌, starts_with, contains, lookup, insert, erase,
  keys, lookup-insert, lookup-erase, arith, eq_iff, select,
}
use nuts.Db.{Db, DbLaws, is_some}

-- `MemoryDB`: its field `data`.
pub record MemoryDb (V : Type 0) : Type 0 where
  pub entries : List (String × V)

module _ {V : Type 0} where
  unfoldable pub new : MemoryDb V
  new = record { entries = [] }

  unfoldable pub get : MemoryDb V → String → Option V
  get m k = lookup k m.entries

  unfoldable pub write : MemoryDb V → String → V → Option (MemoryDb V)
  write m k v = some (record { entries = insert k v m.entries })

  unfoldable pub delete : MemoryDb V → String → Option (MemoryDb V)
  delete m k = some (record { entries = erase k m.entries })

  -- The loop of `List` over the map's keys.
  unfoldable pub list : MemoryDb V → String → Option (List String)
  list m p = some (select (λ k. starts_with k p) (keys m.entries))

  -- The backend as an implementation of the interface.
  abbrev pub memory : Db (MemoryDb V) V
  memory = record { get = get; write = write; delete = delete; list = list }

  contains-select :
      (p k : String) (m : List (String × V))
      → contains (select (λ j. starts_with j p) (keys m)) k
        ≡ (starts_with k p && is_some (lookup k m))
  unfolding lookup
  contains-select p k [] = ground arith
  contains-select p k ((j, v) ∷ m) = ground (arith, eq_iff j k, contains-select p k m)

  -- The in-memory backend meets the contract that the stores rely on: a read after a write or a
  -- delete, on every key, and the keys of a listing.
  pub memory-DbLaws : DbLaws memory
  unfolding get write delete list
  memory-DbLaws = record {
    get-write = λ d d' k j v e. ground (arith, lookup-insert k j v d.entries);
    get-delete = λ d d' k j e. ground (arith, lookup-erase k j d.entries);
    contains-list = λ d p k ks e. ground (arith, contains-select p k d.entries);
  }
