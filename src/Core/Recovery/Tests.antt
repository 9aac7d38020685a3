-- ===== src/Core/Recovery/Tests.antt =====
-- A task that failed before a crash, and was not archived.
use nuts.Base.{
  ◌≡◌, refl, ℕ, String, true, false, Option, some, none, List, [], ◌∷◌, arith, eq_iff, lookup,
}
use nuts.Base.Int.{pos}
use nuts.Db.{encoded, is_some}
use nuts.Db.Memory.{memory-DbLaws, get, list}
use nuts.Task.{Time, Task, ok}
use nuts.Task.Config.{is_terminal_state}
use nuts.Task.Store.{TaskStore, task_key}
use nuts.Task.Store.Ops.{get as get_task}
use nuts.Task.Store.Query.{new_task_store, read}
use nuts.Task.Store.Invariant.{Inv}
use nuts.Task.Store.Rebuild.{new_task_store-Inv, Keyed}
use nuts.Task.Engine.Paths.{Archives}
use nuts.Core.Timeout.Tests.{Backend, backend, engine, late_task, writes}
use nuts.Core.Recovery.{recover_orphaned_tasks}
use nuts.Core.Recovery.Recovered.{recover_orphaned_tasks-Archives}

abbrev orphan : Task
orphan = record late_task { state = "failed" }

abbrev held : Backend
held = record { entries = (task_key "a", encoded orphan) ∷ [] }

held-Keyed : Keyed backend held
unfolding read get lookup
held-Keyed key t e = ground (arith, eq_iff key (task_key "a"), eq_iff (task_key "a") key, e)

abbrev store : TaskStore Backend
store = new_task_store backend held (pos 5)

listed_keys : backend.list held "task:" ≡ some (task_key "a" ∷ [])
unfolding list task_key nuts.Base.join
listed_keys = refl

store-Inv : Inv backend store
store-Inv =
    new_task_store-Inv backend memory-DbLaws held (pos 5) (task_key "a" ∷ []) listed_keys (refl, tt)
      held-Keyed

store-Keyed : Keyed backend store.backing
unfolding new_task_store
store-Keyed = held-Keyed

lists : is_some (backend.list store.backing "task:") ≡ true
unfolding list new_task_store
lists = refl

none_archived :
    (id : String) (t : Task)
    → get_task backend store id ≡ ok t
    → is_some t.archived_at ≡ true
    → is_terminal_state engine.config t.state ≡ true
unfolding get_task get lookup new_task_store
none_archived id t r a = ground (arith, r, a, eq_iff (task_key "a") (task_key id))

abbrev clock : ℕ → Time × Time
clock i = (90, 91)

recover_orphaned_tasks-Archives_example :
    Inv backend (recover_orphaned_tasks backend engine clock store)
    × Archives backend engine (recover_orphaned_tasks backend engine clock store)
recover_orphaned_tasks-Archives_example =
    recover_orphaned_tasks-Archives backend memory-DbLaws engine writes clock store store-Inv
      store-Keyed lists none_archived
