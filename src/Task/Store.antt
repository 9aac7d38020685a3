-- ===== src/Task/Store.antt =====
-- pkg/task/engine_store.go: `engineTaskStore`. Each method holds the lock of its task, or reads
-- once, and is one atomic step here; a method that fails leaves the store as it was, so the new
-- store stands inside `ok`.
pub mod Ops
pub mod Query
pub mod Index
pub mod Invariant
pub mod Keeps
pub mod Rebuild
pub mod Listing
pub mod Members
mod Tests
use nuts.Base.{
  ℕ, ◌-◌, String, Bool, true, false, ◌&&◌, not, Option, none, some, List, [], ◌∷◌, ◌++◌,
  if◌then◌else◌, ltb, leb, is_empty, str_eq, lookup, insert, erase, lookup_list, join, length,
  last?, drop,
}
use nuts.Base.Int.{ℤ, pos, ltb_ℤ, leb_ℤ, pos_part}
use nuts.Db.{is_some}
use nuts.Task.{Time, TaskState, inc64, Transition, Task, TaskFilter}

-- `indexEntry`
pub record IndexEntry : Type 0 where
  pub id : String
  pub created_at : Time

-- `stateIndex`: a bucket of entries for each state.
abbrev pub StateIndex : Type 0
StateIndex = List (String × List IndexEntry)

-- `engineTaskStore`: the backend's state, the history's limit, the index.
pub record TaskStore (D : Type 0) : Type 0 where
  pub backing : D
  pub max_state_history : ℤ
  pub state_index : StateIndex

-- The key of a task: `s.prefix + id`.
unfoldable pub task_key : String → String
task_key id = join "task:" id

-- `sort.Search` finds the first entry that is not newer, and the new one goes before it. (The
-- buckets are sorted, so that the search by bisection finds the first such place.)
unfoldable pub insert_entry : IndexEntry → List IndexEntry → List IndexEntry
insert_entry e [] = e ∷ []
insert_entry e (x ∷ xs) =
    if leb x.created_at e.created_at then e ∷ (x ∷ xs) else x ∷ insert_entry e xs

-- The first entry of that id goes.
unfoldable pub remove_entry : String → List IndexEntry → List IndexEntry
remove_entry id [] = []
remove_entry id (x ∷ xs) = if str_eq x.id id then xs else x ∷ remove_entry id xs

unfoldable pub add_to_state_index : String → TaskState → Time → StateIndex → StateIndex
add_to_state_index id state created index =
    insert state (insert_entry (record { id = id; created_at = created }) (lookup_list state index))
      index

-- `len(s.stateIndex[state]) == 0` removes the bucket.
unfoldable pub put_bucket : TaskState → List IndexEntry → StateIndex → StateIndex
put_bucket state [] index = erase state index
put_bucket state (e ∷ es) index = insert state (e ∷ es) index

unfoldable pub remove_from_state_index : String → TaskState → StateIndex → StateIndex
unfolding put_bucket
remove_from_state_index id state index = elim (lookup state index) [
  | none ↦ index
  | some entries ↦ put_bucket state (remove_entry id entries) index
]

unfoldable pub move_in_state_index : String → TaskState → TaskState → Time → StateIndex → StateIndex
move_in_state_index id old new created index =
    if str_eq old new
    then index
    else add_to_state_index id new created (remove_from_state_index id old index)

-- The history keeps its newest `maxStateHistory` records, if that is positive.
unfoldable pub trim : ℤ → List Transition → List Transition
trim max h =
    if ltb_ℤ (pos 0) max && ltb_ℤ max (pos (length h)) then drop (length h - pos_part max) h else h

-- The attempt number of a transition into `state`.
unfoldable pub next_attempt : List Transition → TaskState → ℕ
next_attempt h state = elim (last? h) [
  | none ↦ 1
  | some r ↦ if str_eq r.to state then inc64 r.attempt else 1
]

-- What `UpdateStateWithRecord` and `TransitionState` do to the task's state and history.
unfoldable pub record_transition : ℤ → Time → TaskState → String → String → ℕ → Task → Task
record_transition max now state triggered_by reason attempt t = record t {
  state_history = trim max (t.state_history ++ (entry ∷ []));
  state = state;
  state_updated_at = now;
  updated_at = now;
}
  where
    entry : Transition
    entry = record {
      from = t.state;
      to = state;
      timestamp = now;
      triggered_by = triggered_by;
      reason = reason;
      attempt = attempt;
    }

abbrev pub eqb_ℤ : ℤ → ℤ → Bool
eqb_ℤ a b = leb_ℤ a b && leb_ℤ b a

-- The tests of `matchFilter`, in its order.
unfoldable pub match_filter : Task → TaskFilter → Bool
match_filter t f =
    if not f.include_archived && is_some t.archived_at
    then false
    else if not (is_empty f.state) && not (str_eq t.state f.state)
    then false
    else if elim f.priority [ none ↦ false | some p ↦ not (eqb_ℤ t.priority p) ]
    then false
    else if elim f.created_after [ none ↦ false | some a ↦ ltb t.created_at a ]
    then false
    else if elim f.created_before [ none ↦ false | some b ↦ ltb b t.created_at ]
    then false
    else true
