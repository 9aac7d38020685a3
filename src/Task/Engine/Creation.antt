-- ===== src/Task/Engine/Creation.antt =====
-- pkg/task/state_machine_engine.go: `CreateTask`, from the spec to the task in the store.
use nuts.Base.{
  ◌≡◌, refl, String, true, false, Option, none, some, [], ◌∷◌, if◌then◌else◌, is_empty, str_eq,
  arith, eq_iff, contains, keys, Distinct, lookup, lookup-insert, insert, Option-cases, inl, inr,
  subst, sym, ap, ◌∙◌, str_eq_cases,
}
use nuts.Db.{Db, DbLaws, Json, is_some}
use nuts.Task.{Time, TaskState, Task, ok, err, not_found}
use nuts.Task.Store.Ops.{get}
use nuts.Task.Store.Invariant.{Inv}
use nuts.Task.Engine.{Metadata, Engine, State, text_at, merge}
use nuts.Task.Engine.Create.{TaskSpec, fresh_task, builder_for, spec_metadata, create_task}
use nuts.Task.Engine.Created.{store_task-Inv, store_task-other, store_task_succeeds}

lookup-keys : (m : Metadata) (k : String) → contains (keys m) k ≡ false → lookup k m ≡ none
unfolding lookup
lookup-keys [] k e = refl
lookup-keys ((a, v) ∷ m) k e = ground (arith, e, lookup-keys m k)

-- What is merged wins over what was there.
lookup-merge :
    (m built : Metadata) (k : String)
    → Distinct (keys built)
    → lookup k (merge m built) ≡ (elim (lookup k built) [ none ↦ lookup k m | some v ↦ some v ])
unfolding lookup merge
lookup-merge m [] k one = refl
lookup-merge m ((a, v) ∷ built) k (new, one) =
    lookup-merge (insert a v m) built k one ∙ elim (str_eq_cases a k) [
      | inl y ↦
          let gone : lookup k built ≡ none =
            subst (λ x. lookup x built ≡ none) y (lookup-keys built a new) in
          ground (arith, gone, y, lookup-insert a k v m, eq_iff a k)
      | inr n ↦ ground (arith, n, lookup-insert a k v m)
    ]

module _ {E : Type 0} (builders : String → Option (E → TaskState → Option Metadata))
    (default_builder : E → TaskState → Option Metadata) (e : Engine) where
  -- What is built from the event of the spec, when there is one, by the builder of the configured
  -- name, "default" where none is configured, or by the default builder where none has the name.
  abbrev pub built_from : TaskSpec E → Option Metadata
  built_from spec = elim spec.event [
    | none ↦ some []
    | some ev ↦
        let name =
          if is_empty e.config.payload_builder then "default" else e.config.payload_builder in
        elim (builders name) [
          | none ↦ default_builder ev e.config.initial_state
          | some build ↦ build ev e.config.initial_state
        ]
  ]

  builder_for_lem :
      (spec : TaskSpec E) (ev : E) (built : Metadata)
      → spec.event ≡ some ev
      → built_from spec ≡ some built
      → builder_for builders default_builder e ev e.config.initial_state ≡ some built
  unfolding builder_for
  builder_for_lem spec ev built n b =
      let name =
        if is_empty e.config.payload_builder then "default" else e.config.payload_builder in
      elim (Option-cases (builders name)) [
        | inl m ↦ ground (arith, n, m, b)
        | inr (build, m) ↦ ground (arith, n, m, b)
      ]

  spec_metadata_lem :
      (spec : TaskSpec E) (built : Metadata)
      → built_from spec ≡ some built
      → spec_metadata builders default_builder e spec ≡ ok (merge spec.metadata built)
  unfolding spec_metadata merge
  spec_metadata_lem spec built b = elim (Option-cases spec.event) [
    | inl n ↦
        let empty : [] ≡ built = ground (arith, n, b) in
        rw (spec_metadata, n) (ap (λ (x : Metadata). ok (merge spec.metadata x)) empty)
    | inr (ev, n) ↦
        let found = builder_for_lem spec ev built n b in rw (spec_metadata, n) (rw found refl)
  ]

  module _ {D : Type 0} (db : Db D (Json Task)) where
    -- The task of the spec is made in the state, with what was built on top of the spec's metadata.
    abbrev pub CreatedFrom : Time → Time → TaskSpec E → Metadata → State D → Type 0
    CreatedFrom now later spec built st =
        let (st', made) = create_task builders default_builder e db now later spec st in
        (u : Task) × (made ≡ ok u)
        × (get db st'.store spec.id ≡ ok u)
        × (u.id ≡ spec.id)
        × (u.name ≡ spec.name)
        × (u.priority ≡ spec.priority)
        × (u.state ≡ e.config.initial_state)
        × (u.version ≡ 1)
        × (u.archived_at ≡ none)
        × ((k : String)
            → lookup k u.metadata
              ≡ (elim (lookup k built) [ none ↦ lookup k spec.metadata | some v ↦ some v ]))
        × (u.trace_id ≡ text_at "trace_id" u.metadata)
        × ((j : String) → str_eq spec.id j ≡ false → get db st'.store j ≡ get db st.store j)
        × Inv db st'.store

    -- On a backend whose writes succeed and a store with its invariant that holds no task of the id,
    -- `CreateTask` with a nonempty id and a builder that succeeds returns the task of the spec: in
    -- the configured initial state, at version 1, not archived, with the builder's metadata over the
    -- spec's, and its trace read from them. The store holds that task under its id, keeps every other
    -- task and its invariant. The builder's map has each key once.
    pub create_task_succeeds :
        DbLaws db
        → ((d : D) (k : String) (x : Json Task) → is_some (db.write d k x) ≡ true)
        → (now later : Time) (spec : TaskSpec E) (built : Metadata) (st : State D) → Inv db st.store
        → get db st.store spec.id ≡ err not_found
        → is_empty spec.id ≡ false
        → built_from spec ≡ some built
        → Distinct (keys built)
        → CreatedFrom now later spec built st
    unfolding create_task fresh_task
    create_task_succeeds laws writes now later spec built st v fresh named b one =
        let metadata = merge spec.metadata built in
        let t = fresh_task spec metadata in
        let initial = e.config.initial_state in
        let good = spec_metadata_lem spec built b in
        let (u, made, there, id, state, version, alive, same, name, priority, trace) =
          store_task_succeeds db laws writes initial now later t st.store v fresh refl refl named in
        rw (create_task, good)
          (
            u,
            made,
            there,
            id,
            name,
            priority,
            state,
            version,
            alive,
            λ k. ap (lookup k) same ∙ lookup-merge spec.metadata built k one,
            trace ∙ ap (text_at "trace_id") (sym same),
            λ j n. store_task-other db laws initial now later t st.store j v fresh refl n,
            store_task-Inv db laws initial now later t st.store v fresh refl,
          )
