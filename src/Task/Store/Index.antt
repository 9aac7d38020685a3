-- ===== src/Task/Store/Index.antt =====
-- The state index read as a map: which entry a bucket holds for an id, and what adding, removing and
-- moving an entry do to every bucket.
use nuts.Base.{
  ◌≡◌, refl, ◌≤◌, String, Option, none, some, List, [], ◌∷◌, if◌then◌else◌, str_eq, eq_iff,
  lookup_list, arith, All, insert, lookup-erase, lookup-insert, Option-cases, Bool-cases, lookup,
  inl, ◌&&◌, inr,
}
use nuts.Task.{Time, TaskState}
use nuts.Task.Store.{
  IndexEntry, StateIndex, insert_entry, remove_entry, put_bucket, add_to_state_index,
  remove_from_state_index,
}

-- The time of the first entry of an id.
unfoldable pub entry_time : String → List IndexEntry → Option Time
entry_time id [] = none
entry_time id (x ∷ xs) = if str_eq x.id id then some x.created_at else entry_time id xs

-- What the bucket of a state holds for an id.
abbrev pub indexed : StateIndex → TaskState → String → Option Time
indexed index state id = entry_time id (lookup_list state index)

-- An id stands in a bucket once, and newer entries stand first.
abbrev pub IsBucket : List IndexEntry → Type 0
IsBucket [] = Unit {0}
IsBucket (x ∷ xs) =
    (entry_time x.id xs ≡ none)
    × All (λ (y : IndexEntry). y.created_at ≤ x.created_at) xs
    × IsBucket xs

abbrev pub Buckets : StateIndex → Type 0
Buckets index = (state : TaskState) → IsBucket (lookup_list state index)

entry_time-insert_entry :
    (e : IndexEntry) (j : String) (xs : List IndexEntry)
    → entry_time e.id xs ≡ none
    → entry_time j (insert_entry e xs)
      ≡ (if str_eq e.id j then some e.created_at else entry_time j xs)
unfolding entry_time insert_entry
entry_time-insert_entry e j [] h = refl
entry_time-insert_entry e j (x ∷ xs) h =
    ground (arith, eq_iff e.id j, eq_iff x.id j, eq_iff x.id e.id, entry_time-insert_entry e j xs)

entry_time-remove_entry :
    (id j : String) (xs : List IndexEntry)
    → IsBucket xs
    → entry_time j (remove_entry id xs) ≡ (if str_eq id j then none else entry_time j xs)
unfolding entry_time remove_entry
entry_time-remove_entry id j [] b = ground arith
entry_time-remove_entry id j (x ∷ xs) b =
    ground (arith, eq_iff id j, eq_iff x.id j, eq_iff x.id id, entry_time-remove_entry id j xs b.2)

All-insert_entry :
    (e : IndexEntry) (n : Time) (xs : List IndexEntry)
    → e.created_at ≤ n
    → All (λ (y : IndexEntry). y.created_at ≤ n) xs
    → All (λ (y : IndexEntry). y.created_at ≤ n) (insert_entry e xs)
unfolding insert_entry
All-insert_entry e n [] h a = (h, tt)
All-insert_entry e n (x ∷ xs) h a = ground (arith, All-insert_entry e n xs h a.1)

All-le_trans :
    (n m : Time) (xs : List IndexEntry)
    → n ≤ m
    → All (λ (y : IndexEntry). y.created_at ≤ n) xs
    → All (λ (y : IndexEntry). y.created_at ≤ m) xs
All-le_trans n m [] h a = tt
All-le_trans n m (x ∷ xs) h a = (omega arith, All-le_trans n m xs h a.1)

All-remove_entry :
    (id : String) (n : Time) (xs : List IndexEntry)
    → All (λ (y : IndexEntry). y.created_at ≤ n) xs
    → All (λ (y : IndexEntry). y.created_at ≤ n) (remove_entry id xs)
unfolding remove_entry
All-remove_entry id n [] a = tt
All-remove_entry id n (x ∷ xs) a = ground (arith, All-remove_entry id n xs a.1)

-- A new id goes into a bucket in its place.
insert_entry-IsBucket :
    (e : IndexEntry) (xs : List IndexEntry)
    → entry_time e.id xs ≡ none
    → IsBucket xs
    → IsBucket (insert_entry e xs)
unfolding entry_time insert_entry
insert_entry-IsBucket e [] h b = (refl, tt, tt)
insert_entry-IsBucket e (x ∷ xs) h b = ground (
  arith,
  eq_iff x.id e.id,
  eq_iff e.id x.id,
  entry_time-insert_entry e x.id xs,
  All-le_trans x.created_at e.created_at xs,
  All-insert_entry e x.created_at xs,
  insert_entry-IsBucket e xs,
)

remove_entry-IsBucket :
    (id : String) (xs : List IndexEntry) → IsBucket xs → IsBucket (remove_entry id xs)
unfolding remove_entry
remove_entry-IsBucket id [] b = tt
remove_entry-IsBucket id (x ∷ xs) b = ground (
  arith,
  entry_time-remove_entry id x.id xs b.2,
  All-remove_entry id x.created_at xs b.1,
  remove_entry-IsBucket id xs b.2,
)

lookup_list-insert :
    (st j : TaskState) (es : List IndexEntry) (index : StateIndex)
    → lookup_list j (insert st es index) ≡ (if str_eq st j then es else lookup_list j index)
unfolding lookup_list
lookup_list-insert st j es index = ground (arith, lookup-insert st j es index)

lookup_list-put_bucket :
    (st j : TaskState) (es : List IndexEntry) (index : StateIndex)
    → lookup_list j (put_bucket st es index) ≡ (if str_eq st j then es else lookup_list j index)
unfolding lookup_list put_bucket
lookup_list-put_bucket st j [] index = ground (arith, lookup-erase st j index)
lookup_list-put_bucket st j (e ∷ es) index = ground (arith, lookup-insert st j (e ∷ es) index)

-- Removing changes one bucket.
pub lookup_list-remove :
    (id : String) (st j : TaskState) (index : StateIndex)
    → lookup_list j (remove_from_state_index id st index)
      ≡ (if str_eq st j then remove_entry id (lookup_list st index) else lookup_list j index)
unfolding remove_from_state_index lookup_list remove_entry
lookup_list-remove id st j index = elim (Option-cases (lookup st index)) [
  | inl e ↦ rw (e, remove_from_state_index) (ground (arith, eq_iff st j))
  | inr (es, e) ↦ ground (arith, lookup_list-put_bucket st j (remove_entry id es) index)
]

pub lookup_list-add :
    (id : String) (st j : TaskState) (c : Time) (index : StateIndex)
    → lookup_list j (add_to_state_index id st c index) ≡ (
        if str_eq st j
        then insert_entry (record { id = id; created_at = c }) (lookup_list st index)
        else lookup_list j index)
unfolding add_to_state_index
lookup_list-add id st j c index = lookup_list-insert st j _ index

pub indexed-remove :
    (id k : String) (st j : TaskState) (index : StateIndex)
    → Buckets index
    → indexed (remove_from_state_index id st index) j k
      ≡ (if str_eq st j && str_eq id k then none else indexed index j k)
indexed-remove id k st j index b = ground (
  arith,
  lookup_list-remove id st j index,
  eq_iff st j,
  entry_time-remove_entry id k (lookup_list st index) (b st),
)

pub indexed-add :
    (id k : String) (st j : TaskState) (c : Time) (index : StateIndex)
    → indexed index st id ≡ none
    → indexed (add_to_state_index id st c index) j k
      ≡ (if str_eq st j && str_eq id k then some c else indexed index j k)
indexed-add id k st j c index h = ground (
  arith,
  lookup_list-add id st j c index,
  eq_iff st j,
  entry_time-insert_entry (record { id = id; created_at = c }) k (lookup_list st index) h,
)

pub remove-Buckets :
    (id : String) (st : TaskState) (index : StateIndex)
    → Buckets index
    → Buckets (remove_from_state_index id st index)
remove-Buckets id st index b j = elim (Bool-cases (str_eq st j)) [
  | inl e ↦ rw (lookup_list-remove id st j index, e) (remove_entry-IsBucket id _ (b st))
  | inr e ↦ rw (lookup_list-remove id st j index, e) (b j)
]

pub add-Buckets :
    (id : String) (st : TaskState) (c : Time) (index : StateIndex)
    → indexed index st id ≡ none
    → Buckets index
    → Buckets (add_to_state_index id st c index)
add-Buckets id st c index h b j = elim (Bool-cases (str_eq st j)) [
  | inl e ↦ rw (lookup_list-add id st j c index, e) (insert_entry-IsBucket _ _ h (b st))
  | inr e ↦ rw (lookup_list-add id st j c index, e) (b j)
]
