-- ===== src/Task/Engine.antt =====
-- pkg/task/state_machine_engine.go: `DefaultStateMachineEngine`. What it sends outside is recorded in
-- a `World`: the events handed to the bus, the entries handed to the event log, and the metrics.
-- An event source and its payload builders are parameters here.
pub mod Command
pub mod Create
pub mod Created
pub mod Creation
pub mod Safety
pub mod Progress
pub mod Paths
mod Tests
use nuts.Base.{
  ℕ, suc, ◌+◌, String, Bool, true, false, ◌&&◌, not, Option, none, some, List, [], ◌∷◌, ◌++◌,
  if◌then◌else◌, ltb, is_empty, str_eq, lookup, insert, ◌||◌,
}
use nuts.Base.Int.{ℤ, pos}
use nuts.Base.Texts.{join}
use nuts.Db.{Db, Json, is_some}
use nuts.Task.{
  Time, TaskState, Task, Err, Result, ok, err, build_failed, not_found, state_mismatch,
  transition_denied,
}
use nuts.Task.Config.{StateMachineConfig, is_terminal_state, is_transition_allowed}
use nuts.Task.Store.{TaskStore}
use nuts.Task.Store.Ops.{get, create, update_state_with_record, transition_state, Changes}

-- `map[string]string`
abbrev pub Metadata : Type 0
Metadata = List (String × String)

-- `TaskEventPayload` under its topic
pub record TaskEvent : Type 0 where
  pub topic : String
  pub task_id : String
  pub old_state : TaskState
  pub new_state : TaskState
  pub policy_id : String
  pub trigger_event_type : String
  pub trigger_event_id : String
  pub extensions : Metadata

-- The fields that tell apart the log entries of this package and of the core.
pub record LogEntry : Type 0 where
  pub stage : String
  pub event_type : String
  pub topic : String
  pub task_id : String
  pub old_state : TaskState
  pub new_state : TaskState

-- The calls of `MetricsRecorder`.
pub record Metrics : Type 0 where
  pub created : ℕ
  pub transitions : List (TaskState × TaskState)
  pub archived : ℕ
  pub retries : ℕ
  pub errors : ℕ

pub record World : Type 0 where
  pub published : List TaskEvent
  pub logged : List LogEntry
  pub metrics : Metrics

-- The configuration, and which collaborators are not nil.
pub record Engine : Type 0 where
  pub config : StateMachineConfig
  pub has_bus : Bool
  pub has_log : Bool
  pub has_metrics : Bool

pub record CommandResult : Type 0 where
  pub success : Bool
  pub message : String

pub record TransitionCommand : Type 0 where
  pub task_id : String
  pub current_state : TaskState
  pub target_state : TaskState
  pub result : Option CommandResult
  pub component_name : String
  pub set_retry_count : Option ℕ
  pub set_timeout_at : Option Time

pub record State (D : Type 0) : Type 0 where
  pub store : TaskStore D
  pub world : World

-- `m[k]` of a `map[string]string`
unfoldable pub text_at : String → Metadata → String
text_at k m = elim (lookup k m) [ none ↦ "" | some v ↦ v ]

-- `for k, v := range built { metadata[k] = v }`
unfoldable pub merge : Metadata → Metadata → Metadata
merge m [] = m
merge m ((k, v) ∷ more) = merge (insert k v m) more

-- The extensions of an event: the metadata but for the three keys that have a field of their own.
unfoldable pub extensions_of : Metadata → Metadata
extensions_of [] = []
extensions_of ((k, v) ∷ m) =
    let rest = extensions_of m in
    if not (str_eq k "policy_id")
      && not (str_eq k "trigger_event_type")
      && not (str_eq k "trigger_event_id")
    then (k, v) ∷ rest
    else rest

abbrev pub topic_prefix : String
topic_prefix = "task.state_changed_"

unfoldable pub command_event : TransitionCommand → Task → TaskEvent
command_event cmd t = record {
  topic = join topic_prefix cmd.target_state;
  task_id = cmd.task_id;
  old_state = cmd.current_state;
  new_state = cmd.target_state;
  policy_id = text_at "policy_id" t.metadata;
  trigger_event_type = text_at "trigger_event_type" t.metadata;
  trigger_event_id = text_at "trigger_event_id" t.metadata;
  extensions = extensions_of t.metadata;
}

unfoldable pub command_entry : TransitionCommand → LogEntry
command_entry cmd = record {
  stage = "task_state";
  event_type = "TaskStateChanged";
  topic = join topic_prefix cmd.target_state;
  task_id = cmd.task_id;
  old_state = cmd.current_state;
  new_state = cmd.target_state;
}

-- The hook that `HandleTransitionCommand` hands to `TransitionState`.
unfoldable pub post_commit : Engine → TransitionCommand → Task → World → World
post_commit e cmd t w = record w {
  logged = if e.has_log then w.logged ++ (command_entry cmd ∷ []) else w.logged;
  published = if e.has_bus then w.published ++ (command_event cmd t ∷ []) else w.published;
}

abbrev pub with_metrics : Engine → (Metrics → Metrics) → World → World
with_metrics e f w = if e.has_metrics then record w { metrics = f w.metrics } else w

-- Step 8: an archiving, or a retry if the archiving was cleared, and the transition.
unfoldable pub count_transition : Engine → TransitionCommand → Changes → World → World
count_transition e cmd c = with_metrics e λ m. record m {
  archived = if is_some c.set_archived_at then suc m.archived else m.archived;
  retries =
      if is_some c.set_archived_at
      then m.retries
      else if c.clear_archived
      then suc m.retries
      else m.retries;
  transitions = m.transitions ++ ((cmd.current_state, cmd.target_state) ∷ []);
}

unfoldable pub triggered_by : TransitionCommand → String
triggered_by cmd = if is_empty cmd.component_name then "system" else cmd.component_name

unfoldable pub reason_of : TransitionCommand → String
reason_of cmd = elim cmd.result [
  | none ↦ "state transition command"
  | some r ↦ if is_empty r.message then "state transition command" else r.message
]

-- Step 7: a terminal state archives, any other clears an archiving; a passed timeout is cleared
-- unless the command sets a new one.
unfoldable pub changes_of : Engine → Time → TransitionCommand → Task → Changes
changes_of e now cmd t =
    let terminal = is_terminal_state e.config cmd.target_state in
    record {
      set_archived_at = if terminal then some now else none;
      clear_archived = not terminal && is_some t.archived_at;
      clear_timeout =
          if is_some cmd.set_timeout_at || terminal
          then false
          else elim t.timeout_at [ none ↦ false | some at ↦ ltb at now ];
      set_timeout_at = cmd.set_timeout_at;
      set_retry_count = cmd.set_retry_count;
    }

abbrev pub only_retry_count : Option ℕ → Changes
only_retry_count n = record {
  set_archived_at = none;
  clear_archived = false;
  clear_timeout = false;
  set_timeout_at = none;
  set_retry_count = n;
}

module _ {D : Type 0} (db : Db D (Json Task)) (e : Engine) where
  -- Step 2: a task that is in the target state already has its retry count set, and nothing else.
  unfoldable pub set_retry_count : Time → TransitionCommand → Task → State D → State D × Option Err
  set_retry_count now cmd t st = elim cmd.set_retry_count [
    | none ↦ (st, none)
    | some n ↦
        elim (transition_state db now st.store cmd.task_id t.state "system" "retry count update"
          (only_retry_count (some n)) (λ w. w) st.world) [
            | err x ↦ (st, some x)
            | ok (u, s', w') ↦ (record { store = s'; world = w' }, none)
          ]
  ]

  -- Steps 5 to 8. `now` is the engine's reading of the clock, `later` the store's.
  unfoldable pub apply_command :
      Time → Time → TransitionCommand → Task → State D → State D × Option Err
  apply_command now later cmd t st =
      let c = changes_of e now cmd t in
      elim (transition_state db later st.store cmd.task_id cmd.target_state (triggered_by cmd)
        (reason_of cmd) c (post_commit e cmd t) st.world) [
          | err x ↦ (
            record st { world = with_metrics e (λ m. record m { errors = suc m.errors }) st.world },
            some x,
          )
          | ok (u, s', w') ↦ (record { store = s'; world = count_transition e cmd c w' }, none)
        ]

  unfoldable pub handle_transition_command :
      Time → Time → TransitionCommand → State D → State D × Option Err
  handle_transition_command now later cmd st = elim (get db st.store cmd.task_id) [
    | err x ↦ (st, some not_found)
    | ok t ↦
        if str_eq t.state cmd.target_state
        then set_retry_count later cmd t st
        else if not (str_eq t.state cmd.current_state)
        then (st, some state_mismatch)
        else if not (is_transition_allowed e.config cmd.current_state cmd.target_state)
        then (st, some transition_denied)
        else apply_command now later cmd t st
  ]
