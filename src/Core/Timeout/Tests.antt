-- ===== src/Core/Timeout/Tests.antt =====
-- A task whose time is up in the state `running`.
use nuts.Base.{
  refl, ◌≡◌, ◌≤◌, ◌<◌, ◌*◌, ◌-◌, ℕ, String, Bool, true, false, Option, some, none, List, [], ◌∷◌,
  arith, eq_iff, if◌then◌else◌, lookup,
}
use nuts.Base.Int.{pos}
use nuts.Db.{Db, Json, encoded, is_some}
use nuts.Db.Memory.{MemoryDb, memory, memory-DbLaws, get, list, write}
use nuts.Task.{Task, ok}
use nuts.Task.Config.{StateConfig, is_transition_allowed, is_terminal_state}
use nuts.Task.Store.{TaskStore, task_key}
use nuts.Task.Store.Ops.{get as get_task}
use nuts.Task.Store.Query.{new_task_store, read}
use nuts.Task.Store.Invariant.{Inv}
use nuts.Task.Store.Rebuild.{new_task_store-Inv, Keyed}
use nuts.Task.Engine.{Engine}
use nuts.Core.Timeout.{CoreState, Clock, Settings, second, backoff, timed_out, handle_timeout_event}
use nuts.Core.Timeout.Delays.{backoff_bounds}
use nuts.Core.Timeout.Progress.{timed_out_ends}

abbrev pub Backend : Type 0
Backend = MemoryDb (Json Task)

abbrev pub backend : Db Backend (Json Task)
backend = memory

pub writes : (d : Backend) (k : String) (x : Json Task) → is_some (backend.write d k x) ≡ true
unfolding write
writes d k x = refl

abbrev pub late_task : Task
late_task = record {
  id = "a";
  trace_id = "";
  name = "job";
  description = "";
  priority = pos 0;
  version = 1;
  retry_count = 0;
  state = "running";
  result = none;
  metadata = [];
  created_at = 10;
  updated_at = 10;
  started_at = none;
  completed_at = none;
  state_history = [];
  state_updated_at = 10;
  timeout_at = some 20;
  archive_eligible = false;
  archived_at = none;
}

abbrev plain_state : StateConfig
plain_state = record {
  description = "";
  auto_retry = false;
  max_retries = pos 0;
  retry_to_state = "";
}

abbrev pub engine : Engine
engine = record {
  config = record {
    name = "lifecycle";
    initial_state = "running";
    terminal_states = "completed" ∷ "failed" ∷ [];
    states = ("running", plain_state) ∷ ("completed", plain_state) ∷ ("failed", plain_state) ∷ [];
    transitions = record { from = "running"; to = "failed"; allowed = true } ∷ [];
    payload_builder = "";
    max_process_time = "";
  };
  has_bus = true;
  has_log = true;
  has_metrics = true;
}

abbrev pub settings : Settings
settings = record {
  parse_duration = λ text. some (pos 5000000000);
  default_timeout = "";
  max_backoff_seconds = pos 60;
  retry_message = λ n. "retry";
  archive_message = λ s n. "timeout";
  archive_error = λ s n. "timed out";
}

abbrev pub clock : Clock
clock = record { checked = 30; restarted = 31; attempt = λ i. (32, 33); finished = 34 }

abbrev held : Backend
held = record { entries = (task_key "a", encoded late_task) ∷ [] }

held-Keyed : Keyed backend held
unfolding read get lookup
held-Keyed key t e = ground (arith, eq_iff key (task_key "a"), eq_iff (task_key "a") key, e)

abbrev pub store : TaskStore Backend
store = new_task_store backend held (pos 5)

listed_keys : backend.list held "task:" ≡ some (task_key "a" ∷ [])
unfolding list task_key nuts.Base.join
listed_keys = refl

pub store-Inv : Inv backend store
store-Inv =
    new_task_store-Inv backend memory-DbLaws held (pos 5) (task_key "a" ∷ []) listed_keys (refl, tt)
      held-Keyed

pub has_task : get_task backend store "a" ≡ ok late_task
unfolding get_task get read lookup new_task_store task_key nuts.Base.join
has_task = refl

abbrev pub core : CoreState Backend
core = record {
  tasks = record {
    store = store;
    world = record {
      published = [];
      logged = [];
      metrics = record { created = 0; transitions = []; archived = 0; retries = 0; errors = 0 };
    };
  };
  pushed = [];
  logged = [];
  task_sem = 1;
}

timed_out_ends_example :
    let c = handle_timeout_event backend settings engine clock "a" "running" core in
    (w : Task) × (get_task backend c.tasks.store "a" ≡ ok w)
    × (is_terminal_state engine.config w.state ≡ true)
    × (w.result ≡ some (timed_out settings late_task))
    × (c.task_sem ≡ 1 - 1)
unfolding lookup is_transition_allowed
timed_out_ends_example =
    timed_out_ends backend memory-DbLaws writes settings engine clock "a" late_task plain_state core
      store-Inv has_task refl refl refl refl refl

backoff_bounds_example :
    (3 < 63
      → (delay : ℕ) × (backoff (pos 60) 3 ≡ pos delay) × (second ≤ delay) × (delay ≤ 60 * second))
    × (63 ≤ 3 → backoff (pos 60) 3 ≡ pos 0)
backoff_bounds_example = backoff_bounds 60 3 (omega arith) (omega arith)
