-- ===== src/Eventlog/Ring/Index.antt =====
-- The index by a key of the entries holds, for each key, the ids of the retained entries, in order.
use nuts.Base.{
  ◌≡◌, String, List, [], ◌∷◌, ◌++◌, if◌then◌else◌, str_eq, is_empty, eq_iff, arith, lookup_list,
  insert, erase, lookup-insert, lookup-erase,
}
use nuts.Eventlog.{EventLogEntry}
use nuts.Eventlog.Ring.{IdIndex, add_id, drop_id, remove_first}

lookup_list-insert :
    (k j : String) (ids : List String) (index : IdIndex)
    → lookup_list j (insert k ids index) ≡ (if str_eq k j then ids else lookup_list j index)
unfolding lookup_list
lookup_list-insert k j ids index = ground (arith, lookup-insert k j ids index)

lookup_list-erase :
    (k j : String) (index : IdIndex)
    → lookup_list j (erase k index) ≡ (if str_eq k j then [] else lookup_list j index)
unfolding lookup_list
lookup_list-erase k j index = ground (arith, lookup-erase k j index)

module _ {P : Type 0} (key : EventLogEntry P → String) where
  -- The ids of the entries that have the key.
  abbrev pub ids_of : String → List (EventLogEntry P) → List String
  ids_of k [] = []
  ids_of k (e ∷ es) = let rest = ids_of k es in if str_eq (key e) k then e.id ∷ rest else rest

  abbrev pub Agrees : IdIndex → List (EventLogEntry P) → Type 0
  Agrees index es = (k : String) → lookup_list k index ≡ (if is_empty k then [] else ids_of k es)

  ids_of-append :
      (k : String) (es : List (EventLogEntry P)) (e : EventLogEntry P)
      → ids_of k (es ++ (e ∷ []))
        ≡ (if str_eq (key e) k then ids_of k es ++ (e.id ∷ []) else ids_of k es)
  ids_of-append k [] e = ground arith
  ids_of-append k (x ∷ es) e = ground (arith, ids_of-append k es e)

  pub add_id-Agrees :
      (index : IdIndex) (es : List (EventLogEntry P)) (e : EventLogEntry P)
      → Agrees index es
      → Agrees (add_id (key e) e.id index) (es ++ (e ∷ []))
  unfolding add_id
  add_id-Agrees index es e a k = ground (
    arith,
    a k,
    a (key e),
    ids_of-append k es e,
    eq_iff (key e) k,
    eq_iff (key e) "",
    eq_iff k "",
    lookup_list-insert (key e) k (lookup_list (key e) index ++ (e.id ∷ [])) index,
  )

  pub drop_id-Agrees :
      (index : IdIndex) (es : List (EventLogEntry P)) (e : EventLogEntry P)
      → Agrees index (e ∷ es)
      → Agrees (drop_id (key e) e.id index) es
  unfolding drop_id remove_first
  drop_id-Agrees index es e a k = ground (
    arith,
    a k,
    a (key e),
    eq_iff (key e) k,
    eq_iff (key e) "",
    eq_iff k "",
    eq_iff e.id e.id,
    eq_iff (key e) (key e),
    lookup_list-insert (key e) k (ids_of (key e) es) index,
    lookup_list-erase (key e) k index,
  )
