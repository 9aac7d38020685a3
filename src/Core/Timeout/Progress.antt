-- ===== src/Core/Timeout/Progress.antt =====
-- A task whose time is up and that is not retried ends in a terminal state, if one is allowed.
use nuts.Base.{
  ap, ◌∙◌, refl, ◌≡◌, ℕ, ◌-◌, String, Bool, true, false, ◌&&◌, ◌||◌, Option, none, some, List, [],
  ◌∷◌, Bool-cases, inl, inr, str_eq, eq_iff, is_empty, lookup, arith, sym, subst, contains,
}
use nuts.Db.{Db, DbLaws, Json, is_some}
use nuts.Base.Int.{ltb_ℤ, pos}
use nuts.Task.Store.{TaskStore}
use nuts.Task.{TaskResult, Task, TaskState, ok}
use nuts.Task.Config.{StateConfig, is_transition_allowed, is_terminal_state}
use nuts.Task.Store.Ops.{get, update_result, bumped}
use nuts.Task.Store.Invariant.{Inv, get-put}
use nuts.Task.Engine.{Engine, State, handle_transition_command, set_retry_count}
use nuts.Task.Engine.Safety.{handle-Accepted}
use nuts.Task.Engine.Progress.{handle_permitted, put_succeeds}
use nuts.Core.Timeout.Safety.{try_terminals-Inv, log_timeout-tasks}
use nuts.Core.Timeout.{
  CoreState, Clock, Settings, archive_command, try_terminals, timed_out, handle_task_archive,
  log_timeout, handle_timeout_event,
}

module _ {D : Type 0} (db : Db D (Json Task)) (laws : DbLaws db)
    (writes : (d : D) (k : String) (x : Json Task) → is_some (db.write d k x) ≡ true)
    (set : Settings) (e : Engine) (clock : Clock) where
  -- Is one of the states allowed from the task's?
  abbrev pub some_allowed : List TaskState → TaskState → Bool
  some_allowed [] s = false
  some_allowed (target ∷ more) s = is_transition_allowed e.config s target || some_allowed more s

  archive_goes :
      (i : ℕ) (target : TaskState) (t : Task) (st : State D)
      → get db st.store t.id ≡ ok t
      → is_transition_allowed e.config t.state target ≡ true
      → (handle_transition_command db e
          (clock.attempt i).0
          (clock.attempt i).1
          (archive_command set t target)
          st).1
        ≡ none
  unfolding archive_command
  archive_goes i target t st r allowed = elim (Bool-cases (str_eq t.state target)) [
    | inl there ↦ again i target t st r there
    | inr other ↦
        handle_permitted db e (clock.attempt i).0 (clock.attempt i).1 (archive_command set t target)
          st writes t r refl other allowed
  ]
    where
      again :
          (i : ℕ) (target : TaskState) (t : Task) (st : State D)
          → get db st.store t.id ≡ ok t
          → str_eq t.state target ≡ true
          → (handle_transition_command db e
              (clock.attempt i).0
              (clock.attempt i).1
              (archive_command set t target)
              st).1
            ≡ none
      again i target t st r there =
          unfold handle_transition_command set_retry_count archive_command in
          ground (arith, r, there)

  try_terminals_lem :
      (i : ℕ) (targets : List TaskState) (t : Task) (st : State D)
      → Inv db st.store
      → get db st.store t.id ≡ ok t
      → some_allowed targets t.state ≡ true
      → let (st', moved) = try_terminals db set e clock i targets t st in
        (moved ≡ true)
        × (u : Task) × (get db st'.store t.id ≡ ok u)
        × (contains targets u.state ≡ true)
  unfolding try_terminals
  try_terminals_lem i [] t st v r h = cc
  try_terminals_lem i (target ∷ more) t st v r h =
      elim (Bool-cases (is_transition_allowed e.config t.state target)) [
        | inl allowed ↦
            let times = clock.attempt i in
            let cmd = archive_command set t target in
            let good = archive_goes i target t st r allowed in
            let a = handle-Accepted db laws e times.0 times.1 cmd st v good in
            rw (allowed, good, try_terminals)
              (
                refl,
                a.after,
                (unfold archive_command in (ground (arith, a.tasks t.id, eq_iff t.id t.id))),
                (unfold archive_command in (ground (arith, a.arrived, eq_iff target target))),
              )
        | inr denied ↦
            let (moved, u, r', among) =
              try_terminals_lem i more t st v r (ground (arith, h, denied)) in
            rw (denied, try_terminals) (moved, u, r', ground (arith, among))
      ]

  update_result_succeeds :
      (s : TaskStore D) (id : String) (u : Task) (result : Option TaskResult)
      → get db s id ≡ ok u
      → u.id ≡ id
      → (s' : TaskStore D) × (update_result db clock.finished s id result ≡ ok s')
        × (w : Task) × (get db s' id ≡ ok w)
        × (w.state ≡ u.state)
        × (w.result ≡ result)
  unfolding update_result bumped
  update_result_succeeds s id u result r named =
      let next = record u { result = result; updated_at = clock.finished } in
      let ((w, s'), wrote) = put_succeeds db writes s next in
      let got = get-put db laws s next w s' id wrote in
      (
        s',
        rw (r, update_result) (rw wrote refl),
        w,
        ground (arith, got.3, named, eq_iff u.id id),
        ground (arith, got.0),
        ground (arith, got.0),
      )

  handle_task_archive_lem :
      (t : Task) (c : CoreState D)
      → Inv db c.tasks.store
      → get db c.tasks.store t.id ≡ ok t
      → some_allowed e.config.terminal_states t.state ≡ true
      → let c' = handle_task_archive db set e clock t c in
        (w : Task) × (get db c'.tasks.store t.id ≡ ok w)
        × (is_terminal_state e.config w.state ≡ true)
        × (w.result ≡ some (timed_out set t))
        × (c'.task_sem ≡ c.task_sem - 1)
  unfolding handle_task_archive is_terminal_state
  handle_task_archive_lem t c v r allowed =
      let targets = e.config.terminal_states in
      let (moved, u, r', among) = try_terminals_lem 0 targets t c.tasks v r allowed in
      let st' = (try_terminals db set e clock 0 targets t c.tasks).0 in
      let v' = try_terminals-Inv db laws set e clock 0 targets t c.tasks v in
      let (s', done, w, there, same, result) =
        update_result_succeeds st'.store t.id u (some (timed_out set t)) r' (v'.keyed t.id u r') in
      (
        w,
        rw (moved, done, handle_task_archive) there,
        rw same among,
        result,
        rw (moved, handle_task_archive) refl,
      )

  -- On a backend whose writes succeed and from a store with its invariant: when the time of a task is
  -- up in its state, the state is configured, it is not to be retried or not again, and a terminal
  -- state is allowed from it, the task ends in a terminal state with the result of a timeout, and
  -- one slot is given back, if one was taken.
  pub timed_out_ends :
      (id : String) (t : Task) (cfg : StateConfig) (c : CoreState D)
      → Inv db c.tasks.store
      → get db c.tasks.store id ≡ ok t
      → is_empty id ≡ false
      → is_empty t.state ≡ false
      → lookup t.state e.config.states ≡ some cfg
      → (cfg.auto_retry && ltb_ℤ (pos t.retry_count) cfg.max_retries) ≡ false
      → some_allowed e.config.terminal_states t.state ≡ true
      → let c' = handle_timeout_event db set e clock id t.state c in
        (w : Task) × (get db c'.tasks.store id ≡ ok w)
        × (is_terminal_state e.config w.state ≡ true)
        × (w.result ≡ some (timed_out set t))
        × (c'.task_sem ≡ c.task_sem - 1)
  unfolding handle_timeout_event log_timeout
  timed_out_ends id t cfg c v r named some_state known over allowed =
      let logged = log_timeout e t cfg c in
      let same : logged.tasks ≡ c.tasks = log_timeout-tasks db laws set e clock t cfg c in
      let id_eq : t.id ≡ id = v.keyed id t r in
      let here : str_eq t.state t.state ≡ true = ground (arith, eq_iff t.state t.state) in
      let r' : get db logged.tasks.store t.id ≡ ok t =
        ap (λ (st : State D). get db st.store t.id) same ∙ ap (get db c.tasks.store) id_eq ∙ r in
      let (w, there, terminal, result, slots) =
        handle_task_archive_lem t logged (subst (λ (st : State D). Inv db st.store) (sym same) v) r'
          allowed in
      let slots' : logged.task_sem ≡ c.task_sem = ground arith in
      let after = handle_task_archive db set e clock t logged in
      rw (named, some_state, r, here, known, over, handle_timeout_event)
        (
          w,
          ap (get db after.tasks.store) (sym id_eq) ∙ there,
          terminal,
          result,
          slots ∙ ap (λ k. k - 1) slots',
        )
