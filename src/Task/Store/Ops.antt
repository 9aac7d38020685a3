-- ===== src/Task/Store/Ops.antt =====
-- pkg/task/engine_store.go: the methods of `engineTaskStore` that read or write one task. The time
-- that a method takes from the clock is its argument `now`.
use nuts.Base.{ℕ, String, Bool, ◌&&◌, not, Option, none, some, List, if◌then◌else◌, is_empty, ◌==◌}
use nuts.Base.Int.{ℤ}
use nuts.Db.{Db, Json, encoded, unmarshal, is_some}
use nuts.Task.{
  Time, TaskState, pending, inc64, Transition, TaskResult, Task, Result, ok, err, ◌>>=◌, ◌>>◌,
  require, or_fail, id_required, not_found, store_failed, version_conflict,
}
use nuts.Task.Store.{
  StateIndex, TaskStore, task_key, add_to_state_index, remove_from_state_index, move_in_state_index,
  next_attempt, record_transition,
}

-- A zero time is replaced by the current one.
abbrev pub or_now : Time → Time → Time
or_now now t = if t == 0 then now else t

-- The defaults of `Create`.
unfoldable pub with_defaults : Time → Task → Task
with_defaults now t = record t {
  created_at = or_now now t.created_at;
  updated_at = or_now now t.updated_at;
  state_updated_at = or_now now t.state_updated_at;
  state = if is_empty t.state then pending else t.state;
}

-- The fields that a call of `TransitionState` sets beside the state.
pub record Changes : Type 0 where
  pub set_archived_at : Option Time
  pub clear_archived : Bool
  pub clear_timeout : Bool
  pub set_timeout_at : Option Time
  pub set_retry_count : Option ℕ

-- `archivedAt`: a new value goes before a clearing.
unfoldable pub new_archived_at : Changes → Option Time → Option Time
new_archived_at c old = elim c.set_archived_at [
  | some a ↦ some a
  | none ↦ if c.clear_archived then none else old
]

unfoldable pub new_timeout_at : Changes → Option Time → Option Time
new_timeout_at c old = elim c.set_timeout_at [
  | some a ↦ some a
  | none ↦ if c.clear_timeout then none else old
]

unfoldable pub new_retry_count : Changes → ℕ → ℕ
new_retry_count c old = elim c.set_retry_count [ none ↦ old | some n ↦ n ]

-- The task that `TransitionState` writes, before its version is incremented.
unfoldable pub transitioned : ℤ → Time → TaskState → String → String → Changes → Task → Task
transitioned max now target triggered_by reason c t =
    let moved =
      record_transition max now target triggered_by reason (next_attempt t.state_history target)
        t in
    record moved {
      archived_at = new_archived_at c t.archived_at;
      retry_count = new_retry_count c t.retry_count;
      timeout_at = new_timeout_at c t.timeout_at;
    }

-- The index after `TransitionState`: the task moves, and leaves if it was archived.
unfoldable pub transitioned_index :
    String → TaskState → TaskState → Time → Option Time → StateIndex → StateIndex
transitioned_index id old new created archived index =
    let moved = move_in_state_index id old new created index in
    if is_some archived then remove_from_state_index id new moved else moved

-- `putLocked` counts the writes in the version.
unfoldable pub bumped : Task → Task
bumped t = record t { version = inc64 t.version }

module _ {D : Type 0} (db : Db D (Json Task)) where
  -- `Get`, and `getLocked`
  unfoldable pub get : TaskStore D → String → Result Task
  get s id = do
    text ← or_fail (db.get s.backing (task_key id)) not_found
    or_fail (unmarshal text) not_found

  -- `putLocked`
  unfoldable pub put : TaskStore D → Task → Result (Task × TaskStore D)
  put s t = do
    d ← or_fail (db.write s.backing (task_key t.id) (encoded (bumped t))) store_failed
    ok (bumped t, record s { backing = d })

  -- `Create`, with the task as it is after the defaults.
  unfoldable pub create : Time → TaskStore D → Task → Result (Task × TaskStore D)
  create now s t = if is_empty t.id then err id_required else do
    let t' = with_defaults now t
    d ← or_fail (db.write s.backing (task_key t.id) (encoded t')) store_failed
    ok (
      t',
      record s {
        backing = d;
        state_index = add_to_state_index t.id t'.state t'.created_at s.state_index;
      },
    )

  -- `Update`: optimistic locking. The caller's task comes back with its new version.
  unfoldable pub update : Time → TaskStore D → Task → Result (Task × TaskStore D)
  update now s t = do
    existing ← get s t.id
    require (t.version == existing.version) version_conflict
    (t', s') ← put s (record t { updated_at = now })
    ok (
      t',
      record s' {
        state_index =
            if is_some t.archived_at && not (is_some existing.archived_at)
            then remove_from_state_index t.id existing.state s.state_index
            else s.state_index;
      },
    )

  -- `Delete`: a task that cannot be read is deleted from the backend alone.
  unfoldable pub delete : TaskStore D → String → Result (TaskStore D)
  delete s id = elim (get s id) [
    | err e ↦ do
      d ← or_fail (db.delete s.backing (task_key id)) store_failed
      ok (record s { backing = d })
    | ok t ↦ do
      d ← or_fail (db.delete s.backing (task_key id)) store_failed
      ok (record s { backing = d; state_index = remove_from_state_index id t.state s.state_index })
  ]

  -- What `UpdateState` and `UpdateStateWithRecord` share: write the task, then move its entry.
  unfoldable pub put_moved : TaskStore D → String → Task → Task → Result (TaskStore D)
  put_moved s id old new = do
    (t', s') ← put s new
    ok (record s' {
      state_index = move_in_state_index id old.state new.state old.created_at s.state_index;
    })

  unfoldable pub update_state : Time → TaskStore D → String → TaskState → Result (TaskStore D)
  update_state now s id state = do
    t ← get s id
    put_moved s id t (record_transition s.max_state_history now state "system" "" 1 t)

  unfoldable pub update_state_with_record :
      Time → TaskStore D → String → TaskState → String → String → Result (TaskStore D)
  update_state_with_record now s id state triggered_by reason = do
    t ← get s id
    put_moved s id t (
        record_transition s.max_state_history now state triggered_by reason
          (next_attempt t.state_history state) t)

  -- `TransitionState`. The hook `post_commit` runs on the world `W` after the write; its own failure
  -- is logged and changes nothing else.
  unfoldable pub transition_state {ℓ} :
      {W : Type ℓ}
      → Time
      → TaskStore D
      → String
      → TaskState
      → String
      → String
      → Changes
      → (W → W)
      → W
      → Result (Task × TaskStore D × W)
  transition_state now s id target triggered_by reason c post_commit w = do
    t ← get s id
    (t', s') ← put s (transitioned s.max_state_history now target triggered_by reason c t)
    ok (
      t',
      record s' {
        state_index =
            transitioned_index id t.state target t.created_at c.set_archived_at s.state_index;
      },
      post_commit w,
    )

  unfoldable pub get_state_history : TaskStore D → String → Result (List Transition)
  get_state_history s id = do t ← get s id; ok t.state_history

  unfoldable pub update_result :
      Time → TaskStore D → String → Option TaskResult → Result (TaskStore D)
  update_result now s id result = do
    t ← get s id
    (t', s') ← put s (record t { result = result; updated_at = now })
    ok s'
