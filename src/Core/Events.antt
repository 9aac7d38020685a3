-- ===== src/Core/Events.antt =====
-- pkg/core/core.go: the two handlers on the event bus beside the one of timeouts. A matched policy
-- makes a task and takes a slot of `taskSem`; a component's command moves a task, and a terminal
-- state gives the slot back. Tracing is left out, and so is a bus that refuses an event, which is
-- only logged.
use nuts.Base.{
  ℕ, suc, ◌+◌, ◌-◌, String, Bool, true, false, not, ◌&&◌, ◌||◌, Option, none, some, List, [], ◌∷◌,
  ◌++◌, if◌then◌else◌, ltb, is_empty, insert, join,
}
use nuts.Base.Int.{ℤ, pos}
use nuts.Db.{Db, Json, is_some}
use nuts.Task.{Time, TaskState, Task, Result, ok, err}
use nuts.Task.Config.{is_terminal_state}
use nuts.Task.Store.Ops.{update}
use nuts.Task.Engine.{
  Metadata, TaskEvent, LogEntry, World, Engine, State, TransitionCommand, CommandResult,
  handle_transition_command, text_at, merge, extensions_of, topic_prefix,
}
use nuts.Task.Engine.Create.{TaskSpec, create_task}
use nuts.Core.Timeout.{CoreState, Settings, Clock, compute_effective_timeout, handle_timeout_event}
mod Repeated
mod Slots
mod Tests

-- `ComponentPayload` of the API.
pub record ComponentPayload : Type 0 where
  pub task_id : String
  pub current_state : TaskState
  pub target_state : TaskState
  pub component_name : String
  pub success : Bool
  pub message : String

-- `event.TypedPayload`, as the handler of commands tells it apart.
pub data TypedPayload : Type 0 where
  missing : TypedPayload
  other : TypedPayload
  component : Option ComponentPayload → TypedPayload

-- What the handler of matched policies reads off its event, and the identity it makes. `trigger` is
-- the event itself, which the payload builder reads.
pub record PolicyMatched (E : Type 0) : Type 0 where
  pub task_id : String
  pub policy_id : String
  pub trigger_event_type : String
  pub trigger_event_id : String
  pub policy_timeout : String
  pub trace_id : String
  pub extensions : Metadata
  pub trigger : E

-- The readings of the clock while a task is made: in the store, twice, for the deadline, and in the
-- last update.
pub record Readings : Type 0 where
  pub created : Time
  pub recorded : Time
  pub now : Time
  pub updated : Time

unfoldable pub log_entry : {D : Type 0} → Engine → LogEntry → State D → State D
log_entry e entry st =
    let w : World = st.world in
    if e.has_log then record st { world = record w { logged = w.logged ++ (entry ∷ []) } } else st

unfoldable pub publish : {D : Type 0} → TaskEvent → State D → State D
publish event st =
    let w : World = st.world in
    record st { world = record w { published = w.published ++ (event ∷ []) } }

unfoldable pub component_command : ComponentPayload → TransitionCommand
component_command p = record {
  task_id = p.task_id;
  current_state = p.current_state;
  target_state = p.target_state;
  result = some (record { success = p.success; message = p.message });
  component_name = p.component_name;
  set_retry_count = none;
  set_timeout_at = none;
}

unfoldable pub received_entry : ComponentPayload → LogEntry
received_entry p = record {
  stage = "command";
  event_type = "StateTransitionCommand";
  topic = "";
  task_id = p.task_id;
  old_state = p.current_state;
  new_state = p.target_state;
}

-- The metadata that a match gives its task.
unfoldable pub matched_metadata : {E : Type 0} → PolicyMatched E → Metadata
matched_metadata m =
    let named : Metadata =
      ("policy_id", m.policy_id)
      ∷ (("trigger_event_type", m.trigger_event_type)
          ∷ (("trigger_event_id", m.trigger_event_id) ∷ [])) in
    let timed =
      if is_empty m.policy_timeout then named else insert "policy_timeout" m.policy_timeout named in
    let traced = if is_empty m.trace_id then timed else insert "trace_id" m.trace_id timed in
    merge traced m.extensions

unfoldable pub matched_spec : {E : Type 0} → PolicyMatched E → TaskSpec E
unfolding matched_metadata
matched_spec m = record {
  id = m.task_id;
  name = join "Task for policy " m.policy_id;
  description = join "Policy " (join m.policy_id (join " triggered by " m.trigger_event_type));
  priority = pos 0;
  metadata = matched_metadata m;
  event = some m.trigger;
}

-- The map of the spec, into which `CreateTask` put what the builder made, is the task's metadata.
unfoldable pub created_event : {E : Type 0} → PolicyMatched E → Task → TaskEvent
created_event m t = record {
  topic = join topic_prefix t.state;
  task_id = t.id;
  old_state = "";
  new_state = t.state;
  policy_id = m.policy_id;
  trigger_event_type = text_at "trigger_event_type" t.metadata;
  trigger_event_id = text_at "trigger_event_id" t.metadata;
  extensions = extensions_of t.metadata;
}

unfoldable pub created_entry : Task → LogEntry
created_entry t = record {
  stage = "task_create";
  event_type = "TaskCreated";
  topic = "";
  task_id = t.id;
  old_state = "";
  new_state = t.state;
}

unfoldable pub state_entry : Task → LogEntry
state_entry t = record {
  stage = "task_state";
  event_type = "TaskStateChanged";
  topic = join topic_prefix t.state;
  task_id = t.id;
  old_state = "";
  new_state = t.state;
}

module _ {D : Type 0} (db : Db D (Json Task)) (e : Engine) where
  -- `handleTransitionCommand`
  unfoldable pub handle_command : Time → Time → TypedPayload → CoreState D → CoreState D
  unfolding log_entry component_command received_entry
  handle_command now later missing c = c
  handle_command now later other c = c
  handle_command now later (component none) c = c
  handle_command now later (component (some p)) c =
      let heard = log_entry e (received_entry p) c.tasks in
      let (st, failure) = handle_transition_command db e now later (component_command p) heard in
      if is_empty p.task_id || (is_empty p.current_state || is_empty p.target_state)
      then c
      else if is_some failure
      then record c { tasks = st }
      else if is_terminal_state e.config p.target_state
      then record c { tasks = st; task_sem = c.task_sem - 1 }
      else record c { tasks = st }

  module _ {E : Type 0} (set : Settings)
      (builders : String → Option (E → TaskState → Option Metadata))
      (default_builder : E → TaskState → Option Metadata) (max_concurrent : ℕ) where
    -- The part of `handlePolicyMatchedEvent` after the task is made: its deadline is stored and
    -- pushed, and the task is logged and announced.
    unfoldable pub announce : Readings → PolicyMatched E → Task → CoreState D → CoreState D
    unfolding log_entry publish created_event created_entry state_entry
    announce times m t c =
        let told = log_entry e (created_entry t) c.tasks in
        let at =
          times.now
          + compute_effective_timeout set.parse_duration m.policy_timeout set.default_timeout in
        let tell : State D → State D =
          λ st. publish (created_event m t) (log_entry e (state_entry t) st) in
        elim (update db times.updated told.store (record t { timeout_at = some at })) [
          | err x ↦ record c { tasks = tell told }
          | ok (u, s) ↦ record c {
            tasks = tell (record told { store = s });
            pushed = c.pushed ++ ((t.id, at) ∷ []);
          }
        ]

    -- `handlePolicyMatchedEvent`. With no slot free the handler waits: it has done nothing yet.
    unfoldable pub handle_policy_matched : Readings → PolicyMatched E → CoreState D → CoreState D
    unfolding matched_spec announce
    handle_policy_matched times m c =
        let (st, made) =
          create_task builders default_builder e db times.created times.recorded (matched_spec m)
            c.tasks in
        if not (ltb c.task_sem max_concurrent) then c else elim made [
          | err x ↦ record c { tasks = st }
          | ok t ↦ announce times m t (record c { tasks = st; task_sem = suc c.task_sem })
        ]

    -- What the core is called with, each with the readings of its clocks.
    pub data CoreEvent : Type 0 where
      policy_matched : Readings → PolicyMatched E → CoreEvent
      command : Time → Time → TypedPayload → CoreEvent
      timeout : Clock → String → TaskState → CoreEvent

    unfoldable pub handle : CoreEvent → CoreState D → CoreState D
    unfolding handle_policy_matched handle_command
    handle (policy_matched times m) c = handle_policy_matched times m c
    handle (command now later payload) c = handle_command now later payload c
    handle (timeout clock id state) c = handle_timeout_event db set e clock id state c

    -- The events one after another.
    unfoldable pub handle_all : List CoreEvent → CoreState D → CoreState D
    unfolding handle
    handle_all [] c = c
    handle_all (event ∷ events) c = handle_all events (handle event c)
