-- ===== src/Core/Events/Tests.antt =====
-- The core's handlers on one task, over the in-memory backend.
use nuts.Base.{
  ◌≡◌, refl, ◌≤◌, ◌-◌, ℕ, String, true, false, Option, some, none, List, [], ◌∷◌, arith, lookup,
}
use nuts.Base.Int.{pos}
use nuts.Db.{encoded}
use nuts.Db.Memory.{memory-DbLaws, get}
use nuts.Task.{Task, TaskState, ok}
use nuts.Task.Config.{is_terminal_state}
use nuts.Task.Store.{task_key}
use nuts.Task.Store.Ops.{get as get_task}
use nuts.Task.Store.Query.{new_task_store, read}
use nuts.Task.Store.Invariant.{Inv}
use nuts.Task.Engine.{Metadata}
use nuts.Core.Timeout.{CoreState}
use nuts.Core.Timeout.Tests.{Backend, backend, engine, settings, clock, store-Inv, core, late_task}
use nuts.Core.Events.{
  ComponentPayload, component, PolicyMatched, CoreEvent, policy_matched, command, timeout,
  handle_command, handle_all,
}
use nuts.Core.Events.Slots.{FreshIds, handle_all-Safe}
use nuts.Core.Events.Repeated.{repeated_command_lem}

abbrev no_builders : String → Option (ℕ → TaskState → Option Metadata)
no_builders name = none

abbrev no_extras : ℕ → TaskState → Option Metadata
no_extras event state = some []

abbrev a_match : PolicyMatched ℕ
a_match = record {
  task_id = "b";
  policy_id = "p";
  trigger_event_type = "oom";
  trigger_event_id = "e1";
  policy_timeout = "";
  trace_id = "tr";
  extensions = [];
  trigger = 3;
}

abbrev fails : ComponentPayload
fails = record {
  task_id = "a";
  current_state = "running";
  target_state = "failed";
  component_name = "worker";
  success = false;
  message = "";
}

abbrev events : List (CoreEvent backend engine settings no_builders no_extras 2)
events =
    policy_matched (record { created = 40; recorded = 41; now = 42; updated = 43 }) a_match
    ∷ (command 50 51 (component (some fails)) ∷ (timeout clock "b" "running" ∷ []))

events-FreshIds : FreshIds backend memory-DbLaws engine settings no_builders no_extras 2 events core
unfolding get_task get read lookup new_task_store task_key nuts.Base.join
events-FreshIds = (refl, (tt, (tt, tt)))

handle_all-Safe_example :
    Inv backend (handle_all backend engine settings no_builders no_extras 2 events core).tasks.store
    × ((handle_all backend engine settings no_builders no_extras 2 events core).task_sem ≤ 2)
handle_all-Safe_example =
    handle_all-Safe backend memory-DbLaws engine settings no_builders no_extras 2 events core
      events-FreshIds store-Inv (omega arith)

abbrev failed_task : Task
failed_task = record late_task { state = "failed"; archived_at = some 30 }

-- The task has failed, and two other tasks hold a slot each.
abbrev after : CoreState Backend
after = record core {
  tasks = record (core.tasks) {
    store =
        new_task_store backend (record { entries = (task_key "a", encoded failed_task) ∷ [] })
          (pos 5);
  };
  task_sem = 2;
}

has_failed : get_task backend after.tasks.store "a" ≡ ok failed_task
unfolding get_task get read lookup new_task_store task_key nuts.Base.join
has_failed = refl

repeated_command_lem_example :
    ((handle_command backend engine 60 61 (component (some fails)) after).tasks.store
      ≡ after.tasks.store)
    × ((handle_command backend engine 60 61 (component (some fails)) after).task_sem ≡ 2 - 1)
unfolding is_terminal_state
repeated_command_lem_example =
    repeated_command_lem backend engine 60 61 fails failed_task after refl refl refl refl has_failed
      refl
