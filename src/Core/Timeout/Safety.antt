-- ===== src/Core/Timeout/Safety.antt =====
-- A timeout keeps the store's invariant, whatever becomes of the task.
use nuts.Base.{
  refl, ◌≡◌, ℕ, suc, String, ◌&&◌, ◌||◌, some, List, [], ◌∷◌, Bool-cases, Option-cases, inl, inr,
  str_eq, is_empty, lookup,
}
use nuts.Base.Int.{ltb_ℤ, pos}
use nuts.Db.{Db, DbLaws, Json}
use nuts.Task.{Task, TaskState, Result-cases}
use nuts.Task.Config.{StateConfig, is_transition_allowed}
use nuts.Task.Store.Ops.{get, update_result}
use nuts.Task.Store.Invariant.{Inv}
use nuts.Task.Store.Keeps.{update_result-Inv}
use nuts.Task.Engine.{Engine, State, handle_transition_command}
use nuts.Task.Engine.Safety.{handle-Inv}
use nuts.Core.Timeout.{
  CoreState, Clock, Settings, must_wait, retry_command, archive_command, handle_task_retry,
  try_terminals, timed_out, handle_task_archive, log_timeout, handle_timeout_event,
}

module _ {D : Type 0} (db : Db D (Json Task)) (laws : DbLaws db) (set : Settings) (e : Engine)
    (clock : Clock) where
  retry-Inv :
      (t : Task) (cfg : StateConfig) (c : CoreState D)
      → Inv db c.tasks.store
      → Inv db (handle_task_retry db set e clock t cfg c).tasks.store
  unfolding handle_task_retry
  retry-Inv t cfg c v =
      let cmd = retry_command set e clock.restarted t cfg in
      let times = clock.attempt 0 in
      let kept = handle-Inv db laws e times.0 times.1 cmd c.tasks v in
      elim (Bool-cases (must_wait set clock.checked t)) [
        | inl wait ↦ rw (wait, handle_task_retry) v
        | inr go ↦
            elim (Option-cases (handle_transition_command db e times.0 times.1 cmd c.tasks).1) [
              | inr (x, bad) ↦ rw (go, bad, handle_task_retry) kept
              | inl good ↦ elim (Option-cases cmd.set_timeout_at) [
                | inl none_set ↦ rw (go, good, none_set, handle_task_retry) kept
                | inr (at, some_set) ↦ rw (go, good, some_set, handle_task_retry) kept
              ]
            ]
      ]

  pub try_terminals-Inv :
      (i : ℕ) (targets : List TaskState) (t : Task) (st : State D)
      → Inv db st.store
      → Inv db (try_terminals db set e clock i targets t st).0.store
  unfolding try_terminals
  try_terminals-Inv i [] t st v = v
  try_terminals-Inv i (target ∷ more) t st v =
      let times = clock.attempt i in
      let cmd = archive_command set t target in
      let st' = (handle_transition_command db e times.0 times.1 cmd st).0 in
      let kept = handle-Inv db laws e times.0 times.1 cmd st v in
      elim (Bool-cases (is_transition_allowed e.config t.state target)) [
        | inr denied ↦ rw (denied, try_terminals) (try_terminals-Inv i more t st v)
        | inl allowed ↦
            elim (Option-cases (handle_transition_command db e times.0 times.1 cmd st).1) [
              | inl good ↦ rw (allowed, good, try_terminals) kept
              | inr (x, bad) ↦
                  rw (allowed, bad, try_terminals) (try_terminals-Inv (suc i) more t st' kept)
            ]
      ]

  archive-Inv :
      (t : Task) (c : CoreState D)
      → Inv db c.tasks.store
      → Inv db (handle_task_archive db set e clock t c).tasks.store
  unfolding handle_task_archive
  archive-Inv t c v =
      let tried = try_terminals db set e clock 0 e.config.terminal_states t c.tasks in
      let kept = try_terminals-Inv 0 e.config.terminal_states t c.tasks v in
      elim (Bool-cases tried.1) [
        | inr stuck ↦ rw (stuck, handle_task_archive) kept
        | inl moved ↦
            elim (Result-cases
              (update_result db clock.finished tried.0.store t.id (some (timed_out set t)))) [
                | inl (x, bad) ↦ rw (moved, bad, handle_task_archive) kept
                | inr (s, good) ↦
                    rw (moved, good, handle_task_archive)
                      (update_result-Inv db laws clock.finished tried.0.store s t.id _ kept good)
              ]
      ]

  pub log_timeout-tasks :
      (t : Task) (cfg : StateConfig) (c : CoreState D) → (log_timeout e t cfg c).tasks ≡ c.tasks
  unfolding log_timeout
  log_timeout-tasks t cfg c = elim (Bool-cases e.has_log) [
    | inl y ↦ rw (y, log_timeout) refl
    | inr y ↦ rw (y, log_timeout) refl
  ]

  -- `handleTimeoutEvent` keeps the store's invariant, for any task id and any state, on every branch.
  pub handle_timeout_event-Inv :
      (id : String) (current : TaskState) (c : CoreState D)
      → Inv db c.tasks.store
      → Inv db (handle_timeout_event db set e clock id current c).tasks.store
  unfolding handle_timeout_event
  handle_timeout_event-Inv id current c v = elim (Bool-cases (is_empty id || is_empty current)) [
    | inl bad ↦ rw (bad, handle_timeout_event) v
    | inr named ↦ elim (Result-cases (get db c.tasks.store id)) [
      | inl (x, gone) ↦ rw (named, gone, handle_timeout_event) v
      | inr (t, there) ↦ elim (Bool-cases (str_eq t.state current)) [
        | inr moved ↦ rw (named, there, moved, handle_timeout_event) v
        | inl still ↦ elim (Option-cases (lookup t.state e.config.states)) [
          | inl unknown ↦ rw (named, there, still, unknown, handle_timeout_event) v
          | inr (cfg, known) ↦
              let w : Inv db (log_timeout e t cfg c).tasks.store =
                rw (log_timeout-tasks t cfg c) v in
              elim (Bool-cases (cfg.auto_retry && ltb_ℤ (pos t.retry_count) cfg.max_retries)) [
                | inl again ↦
                    rw (named, there, still, known, again, handle_timeout_event)
                      (retry-Inv t cfg (log_timeout e t cfg c) w)
                | inr over ↦
                    rw (named, there, still, known, over, handle_timeout_event)
                      (archive-Inv t (log_timeout e t cfg c) w)
              ]
        ]
      ]
    ]
  ]
