-- ===== src/Task/Engine/Progress.antt =====
-- A permitted command goes through, and a repeated one changes nothing.
use nuts.Base.{◌≡◌, refl, String, true, false, none, str_eq, eq_iff, arith, Option-cases, inl, inr}
use nuts.Db.{Db, DbLaws, Json, is_some, encoded}
use nuts.Task.{Time, Task, ok, TaskState}
use nuts.Task.Config.{is_transition_allowed}
use nuts.Task.Store.{TaskStore, task_key}
use nuts.Task.Store.Ops.{get, put, transition_state, bumped, transitioned, transitioned_index}
use nuts.Task.Store.Invariant.{Inv}
use nuts.Task.Engine.{
  Engine, State, TransitionCommand, handle_transition_command, apply_command, set_retry_count,
  triggered_by, reason_of, changes_of, post_commit, Changes,
}
use nuts.Task.Engine.Safety.{handle-Accepted}

module _ {D : Type 0} (db : Db D (Json Task))
    (writes : (d : D) (k : String) (x : Json Task) → is_some (db.write d k x) ≡ true) where
  pub put_succeeds : (s : TaskStore D) (t : Task) → (p : Task × TaskStore D) × (put db s t ≡ ok p)
  unfolding put
  put_succeeds s t = elim (Option-cases (db.write s.backing (task_key t.id) (encoded (bumped t)))) [
    | inl e ↦ absurd (ground (arith, e, writes s.backing (task_key t.id) (encoded (bumped t))))
    | inr (d, e) ↦ ((bumped t, record s { backing = d }), ground (arith, e))
  ]

  transition_succeeds {ℓ} :
      {W : Type ℓ} (now : Time) (s : TaskStore D) (id : String) (target : TaskState)
      (by why : String) (c : Changes) (post : W → W) (w : W) (t : Task)
      → get db s id ≡ ok t
      → (r : Task × TaskStore D × W) × (transition_state db now s id target by why c post w ≡ ok r)
  unfolding transition_state
  transition_succeeds now s id target by why c post w t r =
      let ((u, s₁), e) = put_succeeds s (transitioned s.max_state_history now target by why c t) in
      let index =
        transitioned_index id t.state target t.created_at c.set_archived_at s.state_index in
      ((u, record s₁ { state_index = index }, post w), rw (r, transition_state) (rw e refl))

module _ {D : Type 0} (db : Db D (Json Task)) (e : Engine) (now later : Time)
    (cmd : TransitionCommand) (st : State D) where
  -- On a backend whose writes succeed, a command that names a stored task, its state and an allowed
  -- transition to another state returns no error.
  pub handle_permitted :
      ((d : D) (k : String) (x : Json Task) → is_some (db.write d k x) ≡ true)
      → (t : Task) → get db st.store cmd.task_id ≡ ok t
      → t.state ≡ cmd.current_state
      → str_eq cmd.current_state cmd.target_state ≡ false
      → is_transition_allowed e.config cmd.current_state cmd.target_state ≡ true
      → (handle_transition_command db e now later cmd st).1 ≡ none
  unfolding handle_transition_command apply_command
  handle_permitted writes t r here ne allowed =
      let (x, done) =
        transition_succeeds db writes later st.store cmd.task_id cmd.target_state (triggered_by cmd)
          (reason_of cmd) (changes_of e now cmd t) (post_commit e cmd t) st.world t r in
      let moves : str_eq t.state cmd.target_state ≡ false = rw here ne in
      let named : str_eq t.state cmd.current_state ≡ true = (eq_iff _ _).1 here in
      rw (r, handle_transition_command) (rw (moves, named, allowed) (rw (done, apply_command) refl))

  -- From a store with its invariant, a command without a retry count that returned no error, given
  -- once more at the same times, returns no error and changes nothing: neither the store, nor what
  -- was published, logged and counted.
  pub handle_twice :
      DbLaws db
      → Inv db st.store
      → cmd.set_retry_count ≡ none
      → (handle_transition_command db e now later cmd st).1 ≡ none
      → let st' = (handle_transition_command db e now later cmd st).0 in
        handle_transition_command db e now later cmd st' ≡ (st', none)
  handle_twice laws v plain good =
      let st' = (handle_transition_command db e now later cmd st).0 in
      let a = handle-Accepted db laws e now later cmd st v good in
      again st' a.after (ground (arith, a.tasks cmd.task_id, eq_iff cmd.task_id cmd.task_id))
        a.arrived plain
    where
      again :
          (s : State D) (u : Task)
          → get db s.store cmd.task_id ≡ ok u
          → u.state ≡ cmd.target_state
          → cmd.set_retry_count ≡ none
          → handle_transition_command db e now later cmd s ≡ (s, none)
      again s u r arrived none_set =
          unfold handle_transition_command set_retry_count in
          ground (arith, r, eq_iff u.state cmd.target_state)
