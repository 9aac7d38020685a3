-- ===== src/Core/Events/Repeated.antt =====
-- pkg/core/core.go: what a command does that comes again, and a log entry to the tasks.
use nuts.Base.{
  ◌≡◌, refl, sym, subst, ◌-◌, true, false, none, some, is_empty, arith, Bool-cases, eq_iff, inl,
  inr,
}
use nuts.Db.{Db, Json}
use nuts.Task.{Time, Task, ok}
use nuts.Task.Config.{is_terminal_state}
use nuts.Task.Store.Ops.{get}
use nuts.Task.Engine.{LogEntry, Engine, State, handle_transition_command, set_retry_count}
use nuts.Core.Timeout.{CoreState}
use nuts.Core.Events.{
  component, ComponentPayload, log_entry, component_command, received_entry, handle_command,
}

module _ {D : Type 0} (e : Engine) where
  pub log_entry-store : (entry : LogEntry) (st : State D) → (log_entry e entry st).store ≡ st.store
  unfolding log_entry
  log_entry-store entry st = elim (Bool-cases e.has_log) [
    | inl y ↦ rw (log_entry, y) refl
    | inr n ↦ rw (log_entry, n) refl
  ]

module _ {D : Type 0} (db : Db D (Json Task)) (e : Engine) where
  repeated_quiet :
      (now later : Time) (p : ComponentPayload) (t : Task) (st : State D)
      → get db st.store p.task_id ≡ ok t
      → t.state ≡ p.target_state
      → handle_transition_command db e now later (component_command p) st ≡ (st, none)
  unfolding handle_transition_command set_retry_count component_command
  repeated_quiet now later p t st r at =
      rw (handle_transition_command, r) (ground (arith, at, eq_iff t.state p.target_state))

  -- A command that names the terminal state its task already is in, and sets nothing, changes no
  -- task, yet gives a slot back, each time that it comes.
  pub repeated_command_lem :
      (now later : Time) (p : ComponentPayload) (t : Task) (c : CoreState D)
      → is_empty p.task_id ≡ false
      → is_empty p.current_state ≡ false
      → is_empty p.target_state ≡ false
      → is_terminal_state e.config p.target_state ≡ true
      → get db c.tasks.store p.task_id ≡ ok t
      → t.state ≡ p.target_state
      → ((handle_command db e now later (component (some p)) c).tasks.store ≡ c.tasks.store)
        × ((handle_command db e now later (component (some p)) c).task_sem ≡ c.task_sem - 1)
  unfolding handle_command
  repeated_command_lem now later p t c a b d terminal r at =
      let heard = log_entry e (received_entry p) c.tasks in
      let same = log_entry-store e (received_entry p) c.tasks in
      let r' : get db heard.store p.task_id ≡ ok t =
        subst (λ s. get db s p.task_id ≡ ok t) (sym same) r in
      let quiet : handle_transition_command db e now later (component_command p) heard
          ≡ (heard, none) =
        repeated_quiet now later p t heard r' at in
      rw (handle_command, a, b, d, quiet, terminal) (same, refl)
