-- ===== src/Core/Events/Slots.antt =====
-- pkg/core/core.go: what the core keeps over any sequence of its events.
use nuts.Base.{
  ◌≡◌, refl, sym, subst, ℕ, suc, ◌+◌, ◌≤◌, String, ◌||◌, Option, none, some, List, [], ◌∷◌, ltb,
  is_empty, arith, Bool-cases, Option-cases, inl, inr, lookup,
}
use nuts.Db.{Db, DbLaws, Json, is_some}
use nuts.Task.{Time, TaskState, Task, ok, err, not_found, Result-cases}
use nuts.Task.Config.{is_terminal_state, StateConfig}
use nuts.Task.Store.{TaskStore}
use nuts.Task.Store.Ops.{get, update, create, update_state_with_record}
use nuts.Task.Store.Invariant.{Inv}
use nuts.Task.Store.Keeps.{update-Inv}
use nuts.Task.Engine.{Metadata, Engine, State, handle_transition_command}
use nuts.Task.Engine.Safety.{handle-Inv}
use nuts.Task.Engine.Create.{create_task, spec_metadata, fresh_task, store_task}
use nuts.Task.Engine.Created.{store_task-Inv}
use nuts.Core.Timeout.{
  CoreState, Settings, Clock, handle_timeout_event, handle_task_retry, handle_task_archive,
  log_timeout,
}
use nuts.Core.Timeout.Safety.{handle_timeout_event-Inv}
use nuts.Core.Events.{
  TypedPayload, missing, other, component, PolicyMatched, Readings, CoreEvent, policy_matched,
  command, timeout, log_entry, publish, component_command, received_entry, matched_spec, announce,
  handle_command, handle_policy_matched, handle, handle_all, created_event, created_entry,
  state_entry, compute_effective_timeout,
}
use nuts.Core.Events.Repeated.{log_entry-store}

module _ {D : Type 0} (db : Db D (Json Task)) (laws : DbLaws db) (e : Engine) where
  handle_command-Inv :
      (now later : Time) (p : TypedPayload) (c : CoreState D)
      → Inv db c.tasks.store
      → Inv db (handle_command db e now later p c).tasks.store
        × ((handle_command db e now later p c).task_sem ≤ c.task_sem)
  unfolding handle_command
  handle_command-Inv now later missing c v = (v, omega arith)
  handle_command-Inv now later other c v = (v, omega arith)
  handle_command-Inv now later (component none) c v = (v, omega arith)
  handle_command-Inv now later (component (some p)) c v =
      let heard = log_entry e (received_entry p) c.tasks in
      let v' : Inv db heard.store = rw (log_entry-store e (received_entry p) c.tasks) v in
      let kept = handle-Inv db laws e now later (component_command p) heard v' in
      let run = handle_transition_command db e now later (component_command p) heard in
      elim (Bool-cases
        (is_empty p.task_id || (is_empty p.current_state || is_empty p.target_state))) [
          | inl bad ↦ rw (handle_command, bad) (v, omega arith)
          | inr good ↦ elim (Bool-cases (is_some run.1)) [
            | inl failed ↦ rw (handle_command, good, failed) (kept, omega arith)
            | inr fine ↦ elim (Bool-cases (is_terminal_state e.config p.target_state)) [
              | inl t ↦ rw (handle_command, good, fine, t) (kept, omega arith)
              | inr t ↦ rw (handle_command, good, fine, t) (kept, omega arith)
            ]
          ]
        ]

  -- What `CreateTask` returns is what is stored.
  store_task-get :
      (initial : TaskState) (now later : Time) (t : Task) (s : TaskStore D)
      → Inv db (store_task db initial now later t s).0
      → (u : Task) → (store_task db initial now later t s).1 ≡ ok u
      → get db (store_task db initial now later t s).0 u.id ≡ ok u
  unfolding store_task
  store_task-get initial now later t s v u i = elim (Result-cases (create db now s t)) [
    | inl (x, bad) ↦ absurd (ground (arith, bad, i))
    | inr ((t', s₁), made) ↦
        elim (Result-cases
          (update_state_with_record db later s₁ t.id initial "system" "task created")) [
            | inl (x, bad) ↦ absurd (ground (arith, made, bad, i))
            | inr (s₂, set) ↦
                let out : (store_task db initial now later t s).0 ≡ s₂ =
                  ground (arith, made, set) in
                let g : get db s₂ t.id ≡ ok u = ground (arith, made, set, i) in
                let own : u.id ≡ t.id = (subst (Inv db) out v).keyed t.id u g in
                subst (λ x. get db x u.id ≡ ok u) (sym out)
                  (subst (λ k. get db s₂ k ≡ ok u) (sym own) g)
          ]
  ]

  retry-slots :
      (set : Settings) (clock : Clock) (t : Task) (cfg : StateConfig) (c : CoreState D)
      → (handle_task_retry db set e clock t cfg c).task_sem ≤ c.task_sem
  unfolding handle_task_retry
  retry-slots set clock t cfg c = ground arith

  archive-slots :
      (set : Settings) (clock : Clock) (t : Task) (c : CoreState D)
      → (handle_task_archive db set e clock t c).task_sem ≤ c.task_sem
  unfolding handle_task_archive
  archive-slots set clock t c = ground arith

  handle_timeout_event-slots :
      (set : Settings) (clock : Clock) (id : String) (current : TaskState) (c : CoreState D)
      → (handle_timeout_event db set e clock id current c).task_sem ≤ c.task_sem
  unfolding handle_timeout_event log_timeout
  handle_timeout_event-slots set clock id current c =
      elim (Result-cases (get db c.tasks.store id)) [
        | inl (x, bad) ↦ ground (arith, bad)
        | inr (t, there) ↦ elim (Option-cases (lookup t.state e.config.states)) [
          | inl n ↦ ground (arith, there, n)
          | inr (cfg, known) ↦ ground (
            arith,
            there,
            known,
            retry-slots set clock t cfg (log_timeout e t cfg c),
            archive-slots set clock t (log_timeout e t cfg c),
          )
        ]
      ]

  module _ {E : Type 0} (set : Settings)
      (builders : String → Option (E → TaskState → Option Metadata))
      (default_builder : E → TaskState → Option Metadata) (max : ℕ) where
    tell-store :
        (m : PolicyMatched E) (t : Task) (st : State D)
        → (publish (created_event m t) (log_entry e (state_entry t) st)).store ≡ st.store
    unfolding publish
    tell-store m t st = log_entry-store e (state_entry t) st

    announce-Inv :
        (times : Readings) (m : PolicyMatched E) (t : Task) (c : CoreState D)
        → Inv db c.tasks.store
        → get db c.tasks.store t.id ≡ ok t
        → Inv db (announce db e set builders default_builder max times m t c).tasks.store
          × ((announce db e set builders default_builder max times m t c).task_sem ≡ c.task_sem)
    unfolding announce
    announce-Inv times m t c v r =
        let told = log_entry e (created_entry t) c.tasks in
        let same : told.store ≡ c.tasks.store = log_entry-store e (created_entry t) c.tasks in
        let v' : Inv db told.store = subst (Inv db) (sym same) v in
        let r' : get db told.store t.id ≡ ok t = subst (λ s. get db s t.id ≡ ok t) (sym same) r in
        let at =
          times.now
          + compute_effective_timeout set.parse_duration m.policy_timeout set.default_timeout in
        let due : Task = record t { timeout_at = some at } in
        elim (Result-cases (update db times.updated told.store due)) [
          | inl (x, bad) ↦ rw (announce, bad) (subst (Inv db) (sym (tell-store m t told)) v', refl)
          | inr ((u, s), good) ↦
              let kept =
                update-Inv db laws times.updated told.store s due t u v' r' refl refl (λ a. a)
                  good in
              rw (announce, good)
                (subst (Inv db) (sym (tell-store m t (record told { store = s }))) kept, refl)
        ]

    create_task-Inv :
        (now later : Time) (m : PolicyMatched E) (st : State D)
        → Inv db st.store
        → get db st.store m.task_id ≡ err not_found
        → Inv db (create_task builders default_builder e db now later (matched_spec m) st).0.store
          × ((t : Task)
              → (create_task builders default_builder e db now later (matched_spec m) st).1 ≡ ok t
              → get db
                  (create_task builders default_builder e db now later (matched_spec m) st).0.store
                  t.id
                ≡ ok t)
    unfolding create_task
    create_task-Inv now later m st v fresh =
        elim (Result-cases (spec_metadata builders default_builder e (matched_spec m))) [
          | inl (x, bad) ↦ rw (create_task, bad) (v, λ t i. absurd (ground (arith, i)))
          | inr (metadata, good) ↦
              let t₀ = fresh_task (matched_spec m) metadata in
              let kept =
                store_task-Inv db laws e.config.initial_state now later t₀ st.store v
                  (unfold fresh_task matched_spec in fresh) (unfold fresh_task in refl) in
              rw (create_task, good)
                (kept, store_task-get e.config.initial_state now later t₀ st.store kept)
        ]

    handle_policy_matched-Inv :
        (times : Readings) (m : PolicyMatched E) (c : CoreState D)
        → Inv db c.tasks.store
        → get db c.tasks.store m.task_id ≡ err not_found
        → c.task_sem ≤ max
        → Inv db (handle_policy_matched db e set builders default_builder max times m c).tasks.store
          × ((handle_policy_matched db e set builders default_builder max times m c).task_sem ≤ max)
    unfolding handle_policy_matched
    handle_policy_matched-Inv times m c v fresh h =
        let made =
          create_task builders default_builder e db times.created times.recorded (matched_spec m)
            c.tasks in
        let (kept, there) = create_task-Inv times.created times.recorded m c.tasks v fresh in
        elim (Bool-cases (ltb c.task_sem max)) [
          | inr full ↦ rw (handle_policy_matched, full) (v, h)
          | inl free ↦ elim (Result-cases made.1) [
            | inl (x, bad) ↦ rw (handle_policy_matched, free, bad) (kept, h)
            | inr (t, good) ↦
                let (kept', same) =
                  announce-Inv times m t (record c { tasks = made.0; task_sem = suc c.task_sem })
                    kept (there t good) in
                rw (handle_policy_matched, free, good) (kept', ground (arith, same, free))
          ]
        ]

    abbrev FreshAt : CoreEvent db e set builders default_builder max → CoreState D → Type 0
    FreshAt (policy_matched times m) c = get db c.tasks.store m.task_id ≡ err not_found
    FreshAt (command now later p) c = Unit
    FreshAt (timeout clock id state) c = Unit

    -- The identities made for new tasks are new in the store, each when its event comes.
    abbrev pub FreshIds :
        List (CoreEvent db e set builders default_builder max) → CoreState D → Type 0
    FreshIds [] c = Unit
    FreshIds (event ∷ events) c =
        FreshAt event c × FreshIds events (handle db e set builders default_builder max event c)

    -- Over any sequence of matched policies, commands and timeouts, in any order, the state index
    -- stays in agreement with the tasks, and no more than the configured number of slots is taken,
    -- when each new task gets an identity that the store does not hold.
    pub handle_all-Safe :
        (events : List (CoreEvent db e set builders default_builder max)) (c : CoreState D)
        → FreshIds events c
        → Inv db c.tasks.store
        → c.task_sem ≤ max
        → Inv db (handle_all db e set builders default_builder max events c).tasks.store
          × ((handle_all db e set builders default_builder max events c).task_sem ≤ max)
    unfolding handle_all handle
    handle_all-Safe [] c f v h = (v, h)
    handle_all-Safe (policy_matched times m ∷ events) c (f, fs) v h =
        let (v', h') = handle_policy_matched-Inv times m c v f h in
        handle_all-Safe events
          (handle_policy_matched db e set builders default_builder max times m c) fs v' h'
    handle_all-Safe (command now later p ∷ events) c (f, fs) v h =
        let (v', h') = handle_command-Inv now later p c v in
        handle_all-Safe events (handle_command db e now later p c) fs v' (omega (arith, h, h'))
    handle_all-Safe (timeout clock id state ∷ events) c (f, fs) v h =
        handle_all-Safe events (handle_timeout_event db set e clock id state c) fs
          (handle_timeout_event-Inv db laws set e clock id state c v)
          (omega (arith, h, handle_timeout_event-slots set clock id state c))
