-- ===== src/Task/Store/Tests.antt =====
-- Two tasks in the in-memory backend, and the store over them.
use nuts.Base.{
  ◌≡◌, refl, String, Bool, true, false, Option, none, some, List, [], ◌∷◌, arith, eq_iff, Distinct,
  insert, length, lookup,
}
use nuts.Base.Int.{pos}
use nuts.Db.{Db, Json, encoded}
use nuts.Db.Memory.{MemoryDb, memory, memory-DbLaws, get, list, delete, write}
use nuts.Task.{Task, TaskFilter, ok}
use nuts.Task.Store.{TaskStore, task_key}
use nuts.Task.Store.Ops.{get as get_task, update, delete as delete_task, put}
use nuts.Task.Store.Query.{new_task_store, read, list as list_tasks, count, counts_by_index}
use nuts.Task.Store.Invariant.{Inv}
use nuts.Task.Store.Rebuild.{new_task_store-Inv, Keyed}
use nuts.Task.Store.Listing.{listed, list-listed, count-length, task_in}

abbrev Backend : Type 0
Backend = MemoryDb (Json Task)

abbrev backend : Db Backend (Json Task)
backend = memory

abbrev task_a : Task
task_a = record {
  id = "a";
  trace_id = "";
  name = "job";
  description = "";
  priority = pos 0;
  version = 1;
  retry_count = 0;
  state = "pending";
  result = none;
  metadata = [];
  created_at = 10;
  updated_at = 10;
  started_at = none;
  completed_at = none;
  state_history = [];
  state_updated_at = 10;
  timeout_at = none;
  archive_eligible = false;
  archived_at = none;
}

abbrev task_b : Task
task_b = record task_a { id = "b"; state = "completed"; archived_at = some 20 }

abbrev held : Backend
held = record { entries = (task_key "a", encoded task_a) ∷ (task_key "b", encoded task_b) ∷ [] }

held-Keyed : Keyed backend held
unfolding read get lookup
held-Keyed key t e = ground (
  arith,
  eq_iff key (task_key "a"),
  eq_iff (task_key "a") key,
  eq_iff (task_key "b") key,
  eq_iff key (task_key "b"),
  e,
)

abbrev store : TaskStore Backend
store = new_task_store backend held (pos 5)

listed_keys : backend.list held "task:" ≡ some (task_key "a" ∷ task_key "b" ∷ [])
unfolding list task_key nuts.Base.join
listed_keys = refl

new_task_store-Inv_example : Inv backend store
unfolding task_key nuts.Base.join
new_task_store-Inv_example =
    new_task_store-Inv backend memory-DbLaws held (pos 5) (task_key "a" ∷ task_key "b" ∷ [])
      listed_keys ((refl, (refl, tt))) held-Keyed

store-Inv : Inv backend store
unfolding task_key nuts.Base.join
store-Inv =
    new_task_store-Inv backend memory-DbLaws held (pos 5) (task_key "a" ∷ task_key "b" ∷ [])
      listed_keys ((refl, (refl, tt))) held-Keyed

abbrev waiting : TaskFilter
waiting = record {
  state = "pending";
  priority = none;
  created_after = none;
  created_before = none;
  include_archived = false;
  offset = pos 0;
  limit = pos 0;
}

list-listed_example :
    (ts : List Task) × (list_tasks backend store waiting ≡ ok ts)
    × ((id : String) → task_in id ts ≡ listed waiting (get_task backend store id))
list-listed_example = list-listed backend store waiting store-Inv refl refl refl

count-length_example :
    (ts : List Task) × (list_tasks backend store waiting ≡ ok ts)
    × (count backend store waiting ≡ ok (length ts))
unfolding counts_by_index
count-length_example = count-length backend store waiting store-Inv refl refl refl

has_a : get_task backend store "a" ≡ ok task_a
unfolding get_task get read lookup new_task_store task_key nuts.Base.join
has_a = refl

abbrev archived_a : Task
archived_a = record task_a { archived_at = some 30 }

updated : (p : Task × TaskStore Backend) × (update backend 30 store archived_a ≡ ok p)
unfolding update put write new_task_store get_task get read lookup task_key nuts.Base.join
updated = (_, refl)

deleted : (s : TaskStore Backend) × (delete_task backend store "a" ≡ ok s)
unfolding delete_task delete new_task_store get_task get read lookup task_key nuts.Base.join
deleted = (_, refl)
