-- ===== src/Task/Archive/Tests.antt =====
-- A cleanup of a store with one old task and one active one.
use nuts.Base.{
  ◌≡◌, refl, String, true, false, Option, some, none, List, [], ◌∷◌, arith, eq_iff, if◌then◌else◌,
  lookup, ◌*◌,
}
use nuts.Base.Int.{pos}
use nuts.Db.{encoded, is_some}
use nuts.Db.Memory.{memory-DbLaws, get, list, delete}
use nuts.Task.{Task, ok, err, not_found}
use nuts.Task.Store.{TaskStore, task_key}
use nuts.Task.Store.Query.{new_task_store, read}
use nuts.Task.Store.Invariant.{Inv}
use nuts.Task.Store.Rebuild.{new_task_store-Inv, Keyed}
use nuts.Task.Store.Ops.{get as get_task}
use nuts.Task.Archive.{ArchiveCleaner, new_archive_cleaner, is_old, day, cleanup}
use nuts.Task.Archive.Cleaned.{Expired, cleanup_lem}
use nuts.Core.Timeout.Tests.{Backend, backend, late_task}

abbrev old_task : Task
old_task = record late_task { id = "old"; state = "failed"; archived_at = some 7 }

abbrev held : Backend
held = record {
  entries = (task_key "old", encoded old_task) ∷ ((task_key "a", encoded late_task) ∷ []);
}

held-Keyed : Keyed backend held
unfolding read get lookup
held-Keyed key t e =
    ground
      (arith, eq_iff key (task_key "a"), eq_iff (task_key "a") key, eq_iff (task_key "old") key, e)

abbrev store : TaskStore Backend
store = new_task_store backend held (pos 5)

listed_keys : backend.list held "task:" ≡ some (task_key "old" ∷ (task_key "a" ∷ []))
unfolding list task_key nuts.Base.join
listed_keys = refl

store-Inv : Inv backend store
unfolding task_key nuts.Base.join
store-Inv =
    new_task_store-Inv backend memory-DbLaws held (pos 5) (task_key "old" ∷ (task_key "a" ∷ []))
      listed_keys (refl, (refl, tt)) held-Keyed

deletes : (d : Backend) (k : String) → is_some (backend.delete d k) ≡ true
unfolding delete
deletes d k = refl

lists : is_some (backend.list store.backing "task:") ≡ true
unfolding list new_task_store
lists = refl

store-Keyed : Keyed backend store.backing
unfolding new_task_store
store-Keyed = held-Keyed

-- Kept for one day, two days after.
abbrev cleaner : ArchiveCleaner Backend
cleaner = new_archive_cleaner store 1 true

cleanup_lem_example :
    Inv backend (cleanup backend (2 * day) cleaner).store
    × ((id : String) (t : Task)
        → get_task backend store id ≡ ok t
        → (Expired day (2 * day) t
            → get_task backend (cleanup backend (2 * day) cleaner).store id ≡ err not_found)
          × (¬ Expired day (2 * day) t
              → get_task backend (cleanup backend (2 * day) cleaner).store id ≡ ok t))
cleanup_lem_example =
    cleanup_lem backend memory-DbLaws deletes (2 * day) cleaner store-Inv store-Keyed lists

removes_old : is_old day (2 * day) old_task ≡ true
unfolding is_old
removes_old = refl
