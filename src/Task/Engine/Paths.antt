-- ===== src/Task/Engine/Paths.antt =====
-- What holds of a task over any sequence of commands.
use nuts.Base.{
  ◌≡◌, refl, ◌⊎◌, inl, inr, String, true, false, List, [], ◌∷◌, eq_iff, arith, sym, subst, ◌∙◌,
  str_eq_cases, Option-cases,
}
use nuts.Db.{Db, DbLaws, Json, is_some}
use nuts.Task.{Time, TaskState, Task, ok, err, Err, ok-injective, Result-cases}
use nuts.Task.Config.{StateMachineConfig, is_terminal_state, is_transition_allowed}
use nuts.Task.Store.{TaskStore}
use nuts.Task.Store.Ops.{get}
use nuts.Task.Store.Invariant.{Inv}
use nuts.Task.Engine.{Engine, State, TransitionCommand, handle_transition_command}
use nuts.Task.Engine.Safety.{handle-Inv, handle-refused, handle-Accepted, Accepted}

-- A walk along the allowed transitions.
pub data Walk (cfg : StateMachineConfig) : TaskState → TaskState → Type 0 where
  stay : {a : TaskState} → Walk cfg a a
  step : {a b c : TaskState} → is_transition_allowed cfg a b ≡ true → Walk cfg b c → Walk cfg a c

-- A command, with the engine's and the store's readings of the clock.
abbrev pub Call : Type 0
Call = Time × Time × TransitionCommand

module _ {D : Type 0} (db : Db D (Json Task)) (e : Engine) where
  -- Commands one after the other, whatever each of them returns.
  unfoldable pub run : List Call → State D → State D
  run [] st = st
  run ((now, later, cmd) ∷ more) st = run more (handle_transition_command db e now later cmd st).0

  -- A task is archived exactly if its state is terminal.
  abbrev pub Archives : TaskStore D → Type 0
  Archives s =
      (id : String) (t : Task)
      → get db s id ≡ ok t
      → is_some t.archived_at ≡ is_terminal_state e.config t.state

  -- How one command can change a task.
  pub record Stepped (t u : Task) : Type 0 where
    pub edge : (u.state ≡ t.state) ⊎ (is_transition_allowed e.config t.state u.state ≡ true)
    pub archiving :
        ((u.state ≡ t.state) × (u.archived_at ≡ t.archived_at))
        ⊎ (is_some u.archived_at ≡ is_terminal_state e.config u.state)

  module _ (laws : DbLaws db) (now later : Time) (cmd : TransitionCommand) (st : State D)
      (v : Inv db st.store) where
    abbrev after_cmd : State D
    after_cmd = (handle_transition_command db e now later cmd st).0

    Accepted-Stepped : (a : Accepted db e cmd st after_cmd) → Stepped a.before a.after
    Accepted-Stepped a = record {
      edge = ground (arith, a.arrived);
      archiving = ground (arith, a.arrived);
    }

    -- Every stored task is still there after a command, and has stayed or taken one allowed step.
    pub handle-Stepped :
        (id : String) (t : Task)
        → get db st.store id ≡ ok t
        → (u : Task) × (get db after_cmd.store id ≡ ok u) × Stepped t u
    handle-Stepped id t r =
        elim (Option-cases (handle_transition_command db e now later cmd st).1) [
          | inr (x, bad) ↦ (
            t,
            rw (handle-refused db laws e now later cmd st bad).0 r,
            record { edge = inl refl; archiving = inl (refl, refl) },
          )
          | inl good ↦
              let a = handle-Accepted db laws e now later cmd st v good in
              elim (str_eq_cases id cmd.task_id) [
                | inl same ↦ (
                  a.after,
                  ground (arith, a.tasks id, same, eq_iff cmd.task_id id),
                  subst (λ x. Stepped x a.after) (ok-injective (sym a.read ∙ (rw same at r)))
                      (Accepted-Stepped a),
                )
                | inr other ↦ (
                  t,
                  ground
                      (arith, a.tasks id, eq_iff id cmd.task_id, eq_iff cmd.task_id id, other, r),
                  record { edge = inl refl; archiving = inl (refl, refl) },
                )
              ]
        ]

    -- A command brings no task into being.
    handle-absent :
        (id : String) (x : Err) → get db st.store id ≡ err x → get db after_cmd.store id ≡ err x
    handle-absent id x r = elim (Option-cases (handle_transition_command db e now later cmd st).1) [
      | inr (y, bad) ↦ rw (handle-refused db laws e now later cmd st bad).0 r
      | inl good ↦
          let a = handle-Accepted db laws e now later cmd st v good in
          elim (str_eq_cases id cmd.task_id) [
            | inl same ↦ ground (arith, a.read, same, r)
            | inr other ↦
                ground (arith, a.tasks id, eq_iff id cmd.task_id, eq_iff cmd.task_id id, other, r)
          ]
    ]

    handle-Archives : Archives st.store → Archives after_cmd.store
    handle-Archives a id u r = elim (Result-cases (get db st.store id)) [
      | inl (x, none_there) ↦ ground (arith, handle-absent id x none_there, r)
      | inr (t, there) ↦
          let (u', r', one) = handle-Stepped id t there in
          let same : u' ≡ u = ok-injective (sym r' ∙ r) in
          subst (λ w. is_some w.archived_at ≡ is_terminal_state e.config w.state) same
            (elim one.archiving [
              | inl (same_state, same_time) ↦ rw (same_state, same_time) (a id t there)
              | inr settled ↦ settled
            ])
    ]

  -- The store's invariant is kept by any sequence of commands.
  pub run-Inv :
      (laws : DbLaws db) (calls : List Call) (st : State D)
      → Inv db st.store
      → Inv db (run calls st).store
  unfolding run
  run-Inv laws [] st v = v
  run-Inv laws ((now, later, cmd) ∷ more) st v =
      run-Inv laws more _ (handle-Inv db laws e now later cmd st v)

  -- From a store with its invariant, after any sequence of commands a stored task is still stored,
  -- and its state has walked along allowed transitions.
  pub run-Walk :
      (laws : DbLaws db) (calls : List Call) (st : State D) (id : String) (t : Task)
      → Inv db st.store
      → get db st.store id ≡ ok t
      → (u : Task) × (get db (run calls st).store id ≡ ok u) × Walk e.config t.state u.state
  unfolding run
  run-Walk laws [] st id t v r = (t, r, stay)
  run-Walk laws ((now, later, cmd) ∷ more) st id t v r =
      let (u, r', one) = handle-Stepped laws now later cmd st v id t r in
      let (w, r'', walk) = run-Walk laws more _ id u (handle-Inv db laws e now later cmd st v) r' in
      (
        w,
        r'',
        elim one.edge [
          | inl same ↦ subst (λ a. Walk e.config a w.state) same walk
          | inr allowed ↦ step allowed walk
        ],
      )

  -- If the store has its invariant and its archived tasks are exactly those in a terminal state, the
  -- archived tasks are exactly those in a terminal state after any sequence of commands.
  pub run-Archives :
      (laws : DbLaws db) (calls : List Call) (st : State D)
      → Inv db st.store
      → Archives st.store
      → Archives (run calls st).store
  unfolding run
  run-Archives laws [] st v a = a
  run-Archives laws ((now, later, cmd) ∷ more) st v a =
      run-Archives laws more _ (handle-Inv db laws e now later cmd st v)
        λ id u r. handle-Archives laws now later cmd st v a id u r

  -- From a store with its invariant, a task in a state with no allowed way out is still stored and
  -- still in that state after any sequence of commands.
  pub run_final :
      (laws : DbLaws db) (calls : List Call) (st : State D) (id : String) (t : Task)
      → Inv db st.store
      → get db st.store id ≡ ok t
      → ((b : TaskState) → is_transition_allowed e.config t.state b ≡ false)
      → (u : Task) × (get db (run calls st).store id ≡ ok u) × (u.state ≡ t.state)
  run_final laws calls st id t v r closed =
      let (u, r', walk) = run-Walk laws calls st id t v r in (u, r', stuck walk closed)
    where
      stuck :
          {a b : TaskState}
          → Walk e.config a b
          → ((c : TaskState) → is_transition_allowed e.config a c ≡ false)
          → b ≡ a
      stuck stay h = refl
      stuck (step {b = b} allowed _) h = absurd (ground (arith, h b, allowed))
