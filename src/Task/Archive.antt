-- ===== src/Task/Archive.antt =====
-- pkg/task/archive.go: `ArchiveCleaner`. Its goroutine and ticker are left out: each tick is a call of
-- `cleanup`. A retention of more than 106,751 days, which a `time.Duration` cannot hold, is too.
use nuts.Base.{
  ℕ, suc, ◌+◌, ◌*◌, String, Bool, true, false, Option, none, some, List, [], ◌∷◌, if◌then◌else◌,
  ltb,
}
use nuts.Base.Int.{pos}
use nuts.Db.{Db, Json}
use nuts.Task.{Time, Task, TaskFilter, Result, ok, err}
use nuts.Task.Store.{TaskStore}
use nuts.Task.Store.Ops.{delete}
use nuts.Task.Store.Query.{list}
mod Cleaned
mod Tests

-- `ArchiveCleaner`, over the state of its store, with the calls of `TaskDeleted`.
pub record ArchiveCleaner (D : Type 0) : Type 0 where
  pub store : TaskStore D
  pub retention : ℕ
  pub has_metrics : Bool
  pub task_deleted : ℕ

abbrev pub day : ℕ
day = 24 * 3600 * 1000000000

-- `NewArchiveCleaner` and `SetMetrics`
abbrev pub new_archive_cleaner : {D : Type 0} → TaskStore D → ℕ → Bool → ArchiveCleaner D
new_archive_cleaner s retention_days metrics = record {
  store = s;
  retention = retention_days * day;
  has_metrics = metrics;
  task_deleted = 0;
}

-- `task.ArchivedAt.Before(time.Now().Add(-c.retention))`
unfoldable pub is_old : ℕ → Time → Task → Bool
is_old retention now t = elim t.archived_at [ none ↦ false | some at ↦ ltb (at + retention) now ]

abbrev pub every_task : TaskFilter
every_task = record {
  state = "";
  priority = none;
  created_after = none;
  created_before = none;
  limit = pos 0;
  offset = pos 0;
  include_archived = true;
}

module _ {D : Type 0} (db : Db D (Json Task)) where
  -- The loop of `cleanup`, with its count: a delete that fails is passed over.
  unfoldable pub clean_each : ℕ → Time → List Task → TaskStore D → TaskStore D × ℕ
  unfolding is_old
  clean_each retention now [] s = (s, 0)
  clean_each retention now (t ∷ ts) s =
      let skipped = clean_each retention now ts s in
      if is_old retention now t
      then elim (delete db s t.id) [
        | err x ↦ skipped
        | ok s' ↦ let (last, n) = clean_each retention now ts s' in (last, suc n)
      ]
      else skipped

  unfoldable pub cleanup : Time → ArchiveCleaner D → ArchiveCleaner D
  unfolding clean_each
  cleanup now c = elim (list db c.store every_task) [
    | err x ↦ c
    | ok ts ↦
        let (s, deleted) = clean_each c.retention now ts c.store in
        record c {
          store = s;
          task_deleted = if c.has_metrics then c.task_deleted + deleted else c.task_deleted;
        }
  ]
