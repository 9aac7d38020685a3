-- ===== src/Task/Engine/Tests.antt =====
-- One task through a small state machine, over the in-memory backend.
use nuts.Base.{
  if◌then◌else◌, ◌≡◌, refl, String, true, false, none, some, List, [], ◌∷◌, arith, str_eq,
  Bool-cases, inl, inr, subst, sym, ◌∙◌, lookup, ℕ, eq_iff, Option,
}
use nuts.Base.Int.{pos}
use nuts.Db.{Db, Json, is_some}
use nuts.Db.Memory.{MemoryDb, memory, memory-DbLaws, new, get, write, list}
use nuts.Task.{Task, ok, err, ok-injective, not_found, transition_denied, TaskState}
use nuts.Task.Config.{StateMachineConfig, StateConfig, is_transition_allowed, is_terminal_state}
use nuts.Task.Store.{TaskStore}
use nuts.Task.Store.Ops.{get as get_task}
use nuts.Task.Store.Query.{new_task_store, read}
use nuts.Task.Store.Invariant.{Inv}
use nuts.Task.Store.Rebuild.{new_task_store-Inv, Keyed}
use nuts.Task.Engine.{Engine, State, TransitionCommand, handle_transition_command, Metadata}
use nuts.Task.Engine.Create.{TaskSpec, fresh_task, store_task}
use nuts.Task.Engine.Created.{store_task-Inv, store_task-other, store_task_succeeds}
use nuts.Task.Engine.Creation.{CreatedFrom, create_task_succeeds}
use nuts.Task.Engine.Progress.{handle_permitted, handle_twice}
use nuts.Task.Engine.Safety.{handle-Inv, handle-Accepted, handle-refused, Accepted}
use nuts.Task.Engine.Paths.{Call, Walk, run, run-Walk, run-Inv, run_final, run-Archives, Archives}

abbrev Backend : Type 0
Backend = MemoryDb (Json Task)

abbrev backend : Db Backend (Json Task)
backend = memory

writes : (d : Backend) (k : String) (x : Json Task) → is_some (backend.write d k x) ≡ true
unfolding write
writes d k x = refl

plain_state : StateConfig
plain_state = record {
  description = "";
  auto_retry = false;
  max_retries = pos 0;
  retry_to_state = "";
}

abbrev machine : StateMachineConfig
machine = record {
  name = "task_lifecycle";
  initial_state = "pending";
  terminal_states = "completed" ∷ "failed" ∷ [];
  states =
      ("pending", plain_state)
      ∷ ("running", plain_state)
      ∷ ("completed", plain_state)
      ∷ ("failed", plain_state)
      ∷ [];
  transitions =
      record { from = "pending"; to = "running"; allowed = true }
      ∷ record { from = "running"; to = "completed"; allowed = true }
      ∷ record { from = "running"; to = "failed"; allowed = true }
      ∷ [];
  payload_builder = "";
  max_process_time = "";
}

abbrev engine : Engine
engine = record { config = machine; has_bus = true; has_log = true; has_metrics = true }

abbrev spec : TaskSpec ℕ
spec = record {
  id = "t1";
  name = "job";
  description = "";
  priority = pos 0;
  metadata = ("policy_id", "p1") ∷ [];
  event = none;
}

abbrev first_task : Task
first_task = fresh_task spec spec.metadata

empty_store : TaskStore Backend
empty_store = new_task_store backend new (pos 10)

empty-Keyed : Keyed backend new
unfolding get lookup new read
empty-Keyed key t e = cc

empty-Inv : Inv backend empty_store
unfolding empty_store list new
empty-Inv = new_task_store-Inv backend memory-DbLaws new (pos 10) [] refl tt empty-Keyed

store : TaskStore Backend
store = (store_task backend "pending" 100 101 first_task empty_store).0

nothing_yet : get_task backend empty_store first_task.id ≡ err not_found
unfolding get_task get empty_store new_task_store new lookup
nothing_yet = refl

store-Inv : Inv backend store
unfolding store fresh_task
store-Inv =
    store_task-Inv backend memory-DbLaws "pending" 100 101 first_task empty_store empty-Inv
      nothing_yet refl

-- The task as the store holds it.
made :
    let (s, r) = store_task backend "pending" 100 101 first_task empty_store in
    (u : Task) × (r ≡ ok u)
    × (get_task backend s first_task.id ≡ ok u)
    × (u.id ≡ first_task.id)
    × (u.state ≡ "pending")
    × (u.version ≡ 1)
    × (u.archived_at ≡ none)
    × (u.metadata ≡ first_task.metadata)
    × (u.name ≡ first_task.name)
    × (u.priority ≡ first_task.priority)
    × (u.trace_id ≡ first_task.trace_id)
unfolding fresh_task
made =
    store_task_succeeds backend memory-DbLaws writes "pending" 100 101 first_task empty_store
      empty-Inv nothing_yet refl refl refl

abbrev stored : State Backend
stored = record {
  store = store;
  world = record {
    published = [];
    logged = [];
    metrics = record { created = 1; transitions = []; archived = 0; retries = 0; errors = 0 };
  };
}

abbrev start : TransitionCommand
start = record {
  task_id = "t1";
  current_state = "pending";
  target_state = "running";
  result = none;
  component_name = "worker";
  set_retry_count = none;
  set_timeout_at = none;
}

abbrev finish : TransitionCommand
finish = record start { current_state = "running"; target_state = "completed" }

abbrev skip : TransitionCommand
skip = record start { target_state = "completed" }

stored_task :
    (u : Task) × (get_task backend store "t1" ≡ ok u)
    × (u.state ≡ "pending")
    × (u.archived_at ≡ none)
unfolding store fresh_task
stored_task = let m = made in (m.0, m.2, m.4, m.6)

start_goes : (handle_transition_command backend engine 200 201 start stored).1 ≡ none
unfolding is_transition_allowed
start_goes =
    handle_permitted backend engine 200 201 start stored writes stored_task.0 stored_task.1
      stored_task.2 refl refl

abbrev started : State Backend
started = (handle_transition_command backend engine 200 201 start stored).0

started-Inv : Inv backend started.store
started-Inv = handle-Inv backend memory-DbLaws engine 200 201 start stored store-Inv

-- A builder that sets a key of its own and one of the spec's.
abbrev builders : String → Option (ℕ → TaskState → Option Metadata)
builders name =
    if str_eq name "default"
    then some (λ ev state. some (("policy_id", "p2") ∷ (("trace_id", "t") ∷ [])))
    else none

abbrev event_spec : TaskSpec ℕ
event_spec = record spec { event = some 4 }

abbrev nothing_made : State Backend
nothing_made = record {
  store = empty_store;
  world = record {
    published = [];
    logged = [];
    metrics = record { created = 0; transitions = []; archived = 0; retries = 0; errors = 0 };
  };
}

create_task_succeeds_example :
    CreatedFrom builders
      (λ ev state. none)
      engine
      backend
      100
      101
      event_spec
      (("policy_id", "p2") ∷ (("trace_id", "t") ∷ []))
      nothing_made
unfolding fresh_task
create_task_succeeds_example =
    create_task_succeeds builders (λ ev state. none) engine backend memory-DbLaws writes 100 101
      event_spec (("policy_id", "p2") ∷ (("trace_id", "t") ∷ [])) nothing_made empty-Inv nothing_yet
      refl refl (refl, (refl, tt))

handle-Inv_example : Inv backend started.store
handle-Inv_example = handle-Inv backend memory-DbLaws engine 200 201 start stored store-Inv

handle_permitted_example : (handle_transition_command backend engine 200 201 start stored).1 ≡ none
unfolding is_transition_allowed
handle_permitted_example =
    handle_permitted backend engine 200 201 start stored writes stored_task.0 stored_task.1
      stored_task.2 refl refl

handle-Accepted_example : Accepted backend engine start stored started
handle-Accepted_example =
    handle-Accepted backend memory-DbLaws engine 200 201 start stored store-Inv start_goes

handle_twice_example :
    handle_transition_command backend engine 200 201 start started ≡ (started, none)
handle_twice_example =
    handle_twice backend engine 200 201 start stored memory-DbLaws store-Inv refl start_goes

-- No transition leads from `pending` to `completed`.
skip_denied :
    (handle_transition_command backend engine 200 201 skip stored).1 ≡ some transition_denied
unfolding is_transition_allowed handle_transition_command
skip_denied = rw (stored_task.1, handle_transition_command) (rw stored_task.2 refl)

handle-refused_example :
    let st = (handle_transition_command backend engine 200 201 skip stored).0 in
    (st.store ≡ store) × (st.world.published ≡ [])
handle-refused_example = handle-refused backend memory-DbLaws engine 200 201 skip stored skip_denied

abbrev calls : List Call
calls = (200, 201, start) ∷ (300, 301, finish) ∷ (400, 401, start) ∷ []

run-Walk_example :
    (u : Task) × (get_task backend (run backend engine calls stored).store "t1" ≡ ok u)
    × Walk machine stored_task.0.state u.state
run-Walk_example =
    run-Walk backend engine memory-DbLaws calls stored "t1" stored_task.0 store-Inv stored_task.1

run-Inv_example : Inv backend (run backend engine calls stored).store
run-Inv_example = run-Inv backend engine memory-DbLaws calls stored store-Inv

nothing_else : (id : String) → get_task backend empty_store id ≡ err not_found
unfolding get_task get empty_store new_task_store new lookup
nothing_else id = refl

store-Archives : Archives backend engine store
unfolding is_terminal_state fresh_task store
store-Archives id t r = elim (Bool-cases (str_eq "t1" id)) [
  | inl same ↦
      let u = made.0 in
      let here : u ≡ t = ok-injective (sym made.2 ∙ (rw (sym ((eq_iff "t1" id).0 same)) at r)) in
      subst (λ w. is_some w.archived_at ≡ is_terminal_state machine w.state) here
        (rw (made.4, made.6) refl)
  | inr other ↦ ground (
    arith,
    r,
    nothing_else id,
    store_task-other backend memory-DbLaws "pending" 100 101 first_task empty_store id empty-Inv
        nothing_yet refl other,
  )
]

run-Archives_example : Archives backend engine (run backend engine calls stored).store
run-Archives_example =
    run-Archives backend engine memory-DbLaws calls stored store-Inv store-Archives

-- Where an accepted command leaves its task.
arrival :
    (cmd : TransitionCommand) (st st' : State Backend)
    → Accepted backend engine cmd st st'
    → (u : Task) × (get_task backend st'.store cmd.task_id ≡ ok u) × (u.state ≡ cmd.target_state)
arrival cmd st st' a =
    (a.after, ground (arith, a.tasks cmd.task_id, eq_iff cmd.task_id cmd.task_id), a.arrived)

started_task : (u : Task) × (get_task backend started.store "t1" ≡ ok u) × (u.state ≡ "running")
started_task =
    arrival start stored started
      (handle-Accepted backend memory-DbLaws engine 200 201 start stored store-Inv start_goes)

abbrev finished : State Backend
finished = (handle_transition_command backend engine 300 301 finish started).0

finish_goes : (handle_transition_command backend engine 300 301 finish started).1 ≡ none
unfolding is_transition_allowed
finish_goes =
    handle_permitted backend engine 300 301 finish started writes started_task.0 started_task.1
      started_task.2 refl refl

finished-Inv : Inv backend finished.store
finished-Inv = handle-Inv backend memory-DbLaws engine 300 301 finish started started-Inv

finished_task : (u : Task) × (get_task backend finished.store "t1" ≡ ok u) × (u.state ≡ "completed")
finished_task =
    arrival finish started finished
      (handle-Accepted backend memory-DbLaws engine 300 301 finish started started-Inv finish_goes)

closed : (b : String) → is_transition_allowed machine finished_task.0.state b ≡ false
unfolding is_transition_allowed
closed b = rw finished_task.2 refl

run_final_example :
    (u : Task) × (get_task backend (run backend engine calls finished).store "t1" ≡ ok u)
    × (u.state ≡ finished_task.0.state)
run_final_example =
    run_final backend engine memory-DbLaws calls finished "t1" finished_task.0 finished-Inv
      finished_task.1 closed
