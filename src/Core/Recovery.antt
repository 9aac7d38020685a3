-- ===== src/Core/Recovery.antt =====
-- pkg/core/core.go: what the core restores at its start, before any handler runs: the tasks that a
-- crash left in a terminal state but not archived, and the slots of the active tasks.
use nuts.Base.{
  ℕ, suc, String, Bool, true, false, not, ◌&&◌, Option, none, some, List, [], ◌∷◌, if◌then◌else◌,
  ltb,
}
use nuts.Base.Int.{ℤ, pos, negsuc, ltb_ℤ, pos_part}
use nuts.Db.{Db, Json, is_some}
use nuts.Task.{Time, Task, TaskFilter, Result, ok, err}
use nuts.Task.Config.{is_terminal_state}
use nuts.Task.Store.{TaskStore}
use nuts.Task.Store.Ops.{update}
use nuts.Task.Store.Query.{list, count}
use nuts.Task.Engine.{Engine}
mod Rescue
mod Recovered
mod Tests

-- `task.TaskFilter{}`
abbrev pub active_tasks : TaskFilter
active_tasks = record {
  state = "";
  priority = none;
  created_after = none;
  created_before = none;
  limit = pos 0;
  offset = pos 0;
  include_archived = false;
}

module _ {D : Type 0} (db : Db D (Json Task)) (e : Engine) where
  unfoldable pub is_orphan : Task → Bool
  is_orphan t = is_terminal_state e.config t.state && not (is_some t.archived_at)

  -- The loop of `recoverOrphanedTasks`: a turn reads the clock once itself and once in the store, and
  -- an update that fails is passed over.
  unfoldable pub recover_each : (ℕ → Time × Time) → ℕ → List Task → TaskStore D → TaskStore D
  unfolding is_orphan
  recover_each clock i [] s = s
  recover_each clock i (t ∷ ts) s =
      let (at, now) = clock i in
      let skipped = recover_each clock (suc i) ts s in
      if is_orphan t
      then elim (update db now s (record t { archived_at = some at })) [
        | err x ↦ skipped
        | ok (u, s') ↦ recover_each clock (suc i) ts s'
      ]
      else skipped

  -- `recoverOrphanedTasks`
  unfoldable pub recover_orphaned_tasks : (ℕ → Time × Time) → TaskStore D → TaskStore D
  unfolding recover_each
  recover_orphaned_tasks clock s = elim (list db s active_tasks) [
    | err x ↦ s
    | ok ts ↦ recover_each clock 0 ts s
  ]

  -- The limit of `initTaskScheduler`, from its setting.
  unfoldable pub slot_limit : ℤ → ℕ
  slot_limit max_concurrent = if ltb_ℤ (pos 0) max_concurrent then pos_part max_concurrent else 100

  -- The slots that are taken at the start; a count that fails takes none.
  unfoldable pub restored_slots : ℤ → TaskStore D → ℕ
  unfolding slot_limit
  restored_slots max_concurrent s =
      let limit = slot_limit max_concurrent in
      elim (count db s active_tasks) [ err x ↦ 0 | ok n ↦ if ltb n limit then n else limit ]
