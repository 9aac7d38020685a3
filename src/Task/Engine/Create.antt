-- ===== src/Task/Engine/Create.antt =====
-- pkg/task/state_machine_engine.go: `CreateTask`. The payload builders of `PayloadBuilderFactory`,
-- and the event that they read, are parameters: `none` stands for a builder that is not registered
-- and for one that fails.
use nuts.Base.{String, false, Option, none, some, [], if◌then◌else◌, is_empty, suc}
use nuts.Base.Int.{ℤ}
use nuts.Db.{Db, Json}
use nuts.Task.{Time, TaskState, Task, Result, ok, err, ◌>>=◌, or_fail, build_failed}
use nuts.Task.Store.{TaskStore}
use nuts.Task.Store.Ops.{get, create, update_state_with_record}
use nuts.Task.Engine.{Metadata, World, Engine, State, text_at, merge, with_metrics}

-- `TaskSpec`
pub record TaskSpec (E : Type 0) : Type 0 where
  pub id : String
  pub name : String
  pub description : String
  pub priority : ℤ
  pub metadata : Metadata
  pub event : Option E

-- The task that `CreateTask` hands to the store.
unfoldable pub fresh_task : {E : Type 0} → TaskSpec E → Metadata → Task
fresh_task spec metadata = record {
  id = spec.id;
  trace_id = text_at "trace_id" metadata;
  name = spec.name;
  description = spec.description;
  priority = spec.priority;
  version = 0;
  retry_count = 0;
  state = "";
  result = none;
  metadata = metadata;
  created_at = 0;
  updated_at = 0;
  started_at = none;
  completed_at = none;
  state_history = [];
  state_updated_at = 0;
  timeout_at = none;
  archive_eligible = false;
  archived_at = none;
}

-- The store's part: create, set the initial state, read back. A later failure leaves what the
-- earlier steps wrote.
unfoldable pub store_task :
    {D : Type 0}
    → Db D (Json Task)
    → TaskState
    → Time
    → Time
    → Task
    → TaskStore D
    → TaskStore D × Result Task
store_task db initial now later t s = elim (create db now s t) [
  | err x ↦ (s, err x)
  | ok (t', s₁) ↦ elim (update_state_with_record db later s₁ t.id initial "system" "task created") [
    | err x ↦ (s₁, err x)
    | ok s₂ ↦ (s₂, get db s₂ t.id)
  ]
]

module _ {E : Type 0} (builders : String → Option (E → TaskState → Option Metadata))
    (default_builder : E → TaskState → Option Metadata) (e : Engine) where
  -- The builder that the configuration names, or the default one if there is none of that name.
  unfoldable pub builder_for : E → TaskState → Option Metadata
  builder_for = elim (builders builder_name) [ none ↦ default_builder | some b ↦ b ]
    where
      builder_name : String
      builder_name =
          if is_empty e.config.payload_builder then "default" else e.config.payload_builder

  -- The metadata of the new task: the spec's, with what the builder makes of the event on top.
  unfoldable pub spec_metadata : TaskSpec E → Result Metadata
  spec_metadata spec = elim spec.event [
    | none ↦ ok spec.metadata
    | some ev ↦ do
      built ← or_fail (builder_for ev e.config.initial_state) build_failed
      ok (merge spec.metadata built)
  ]

  unfoldable pub counted_creation : Result Task → World → World
  counted_creation (err x) w = w
  counted_creation (ok t) w = with_metrics e (λ m. record m { created = suc m.created }) w

  unfoldable pub create_task :
      {D : Type 0} → Db D (Json Task) → Time → Time → TaskSpec E → State D → State D × Result Task
  create_task db now later spec st = elim (spec_metadata spec) [
    | err x ↦ (st, err x)
    | ok metadata ↦
        let (s, r) =
          store_task db e.config.initial_state now later (fresh_task spec metadata) st.store in
        (record { store = s; world = counted_creation r st.world }, r)
  ]
