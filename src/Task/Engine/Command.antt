-- ===== src/Task/Engine/Command.antt =====
-- What `HandleTransitionCommand` does on each of its branches, and the properties of a single command.
use nuts.Base.{
  ◌≡◌, inl, inr, true, false, not, Option, none, some, if◌then◌else◌, str_eq, eq_iff, Bool-cases,
  Option-cases, ℕ, suc,
}
use nuts.Db.{Db, DbLaws, Json}
use nuts.Task.{Time, Task, ok, err, Err, Result-cases, not_found, state_mismatch, transition_denied}
use nuts.Task.Config.{is_transition_allowed}
use nuts.Task.Store.{TaskStore}
use nuts.Task.Store.Ops.{get, transition_state}
use nuts.Task.Store.Invariant.{Moved, transition_state-Moved}
use nuts.Task.Engine.{
  Engine, State, TransitionCommand, set_retry_count, apply_command, handle_transition_command,
  changes_of, post_commit, count_transition, triggered_by, reason_of, only_retry_count,
  with_metrics,
}

module _ {D : Type 0} (db : Db D (Json Task)) (e : Engine) where
  -- The ways in which a command can end.
  pub data Handled (now later : Time) (cmd : TransitionCommand) (st : State D)
      : State D → Option Err → Type 0 where
    missing :
        {x : Err}
        → get db st.store cmd.task_id ≡ err x
        → Handled now later cmd st st (some not_found)
    repeated :
        (t : Task)
        → get db st.store cmd.task_id ≡ ok t
        → t.state ≡ cmd.target_state
        → cmd.set_retry_count ≡ none
        → Handled now later cmd st st none
    counted :
        (t u : Task) (s' : TaskStore D) (n : ℕ)
        → get db st.store cmd.task_id ≡ ok t
        → t.state ≡ cmd.target_state
        → cmd.set_retry_count ≡ some n
        → Moved db later st.store cmd.task_id t.state "system" "retry count update"
            (only_retry_count (some n))
            t
            u
            s'
        → Handled now later cmd st (record { store = s'; world = st.world }) none
    count_failed :
        {x : Err} (t : Task)
        → get db st.store cmd.task_id ≡ ok t
        → t.state ≡ cmd.target_state
        → Handled now later cmd st st (some x)
    mismatched :
        (t : Task)
        → get db st.store cmd.task_id ≡ ok t
        → str_eq t.state cmd.target_state ≡ false
        → str_eq t.state cmd.current_state ≡ false
        → Handled now later cmd st st (some state_mismatch)
    denied :
        (t : Task)
        → get db st.store cmd.task_id ≡ ok t
        → str_eq t.state cmd.target_state ≡ false
        → is_transition_allowed e.config cmd.current_state cmd.target_state ≡ false
        → Handled now later cmd st st (some transition_denied)
    failed :
        {x : Err} (t : Task)
        → get db st.store cmd.task_id ≡ ok t
        → Handled now later cmd st
            (record st {
              world = with_metrics e (λ m. record m { errors = suc m.errors }) st.world;
            })
            (some x)
    moved :
        (t u : Task) (s' : TaskStore D)
        → get db st.store cmd.task_id ≡ ok t
        → str_eq t.state cmd.target_state ≡ false
        → t.state ≡ cmd.current_state
        → is_transition_allowed e.config cmd.current_state cmd.target_state ≡ true
        → Moved db later st.store cmd.task_id cmd.target_state
            (triggered_by cmd)
            (reason_of cmd)
            (changes_of e now cmd t)
            t
            u
            s'
        → Handled now later cmd st
            (record {
              store = s';
              world =
                  count_transition e cmd (changes_of e now cmd t) (post_commit e cmd t st.world);
            })
            none

module _ {D : Type 0} (db : Db D (Json Task)) (laws : DbLaws db) (e : Engine) (now later : Time)
    (cmd : TransitionCommand) (st : State D) where
  set_retry_count-Handled :
      (t : Task)
      → get db st.store cmd.task_id ≡ ok t
      → t.state ≡ cmd.target_state
      → let (st', r) = set_retry_count db e later cmd t st in Handled db e now later cmd st st' r
  unfolding set_retry_count
  set_retry_count-Handled t r same = elim (Option-cases cmd.set_retry_count) [
    | inl n ↦ simp (n, set_retry_count) (repeated t r same n)
    | inr (n, c) ↦
        elim (Result-cases (
          transition_state db later st.store cmd.task_id t.state "system" "retry count update"
            (only_retry_count (some n)) (λ w. w) st.world)) [
              | inl (x, f) ↦ simp (c, set_retry_count) (rw (f) (count_failed t r same))
              | inr ((u, s', w'), f) ↦
                  let (m, world) =
                    transition_state-Moved db laws later st.store cmd.task_id t.state "system"
                      "retry count update" (only_retry_count (some n)) (λ w. w) st.world t u s' w' r
                      f in
                  simp (c, set_retry_count) (rw (f, world) (counted t u s' n r same c m))
            ]
  ]

  apply_command-Handled :
      (t : Task)
      → get db st.store cmd.task_id ≡ ok t
      → str_eq t.state cmd.target_state ≡ false
      → t.state ≡ cmd.current_state
      → is_transition_allowed e.config cmd.current_state cmd.target_state ≡ true
      → let (st', r) = apply_command db e now later cmd t st in Handled db e now later cmd st st' r
  unfolding apply_command
  apply_command-Handled t r ne same allowed =
      let c = changes_of e now cmd t in
      elim (Result-cases (
        transition_state db later st.store cmd.task_id cmd.target_state (triggered_by cmd)
          (reason_of cmd) c (post_commit e cmd t) st.world)) [
            | inl (x, f) ↦ rw (f, apply_command) (failed t r)
            | inr ((u, s', w'), f) ↦
                let (m, world) =
                  transition_state-Moved db laws later st.store cmd.task_id cmd.target_state
                    (triggered_by cmd) (reason_of cmd) c (post_commit e cmd t) st.world t u s' w' r
                    f in
                rw (f, apply_command, world) (moved t u s' r ne same allowed m)
          ]

  -- Every run of a command is one of these.
  pub handle-Handled :
      let (st', r) = handle_transition_command db e now later cmd st in
      Handled db e now later cmd st st' r
  unfolding handle_transition_command
  handle-Handled = elim (Result-cases (get db st.store cmd.task_id)) [
    | inl (x, r) ↦ rw (r, handle_transition_command) (missing r)
    | inr (t, r) ↦ rw (r, handle_transition_command) (found t r)
  ]
    where
      found :
          (t : Task)
          → get db st.store cmd.task_id ≡ ok t
          → let (st', r) =
              if str_eq t.state cmd.target_state
              then set_retry_count db e later cmd t st
              else if not (str_eq t.state cmd.current_state)
              then (st, some state_mismatch)
              else if not (is_transition_allowed e.config cmd.current_state cmd.target_state)
              then (st, some transition_denied)
              else apply_command db e now later cmd t st in
            Handled db e now later cmd st st' r
      found t r = elim (Bool-cases (str_eq t.state cmd.target_state)) [
        | inl same ↦ rw same (set_retry_count-Handled t r ((eq_iff _ _).0 same))
        | inr ne ↦ rw ne (elim (Bool-cases (str_eq t.state cmd.current_state)) [
          | inr other ↦ rw other (mismatched t r ne other)
          | inl here ↦
              rw here
                (elim (Bool-cases
                  (is_transition_allowed e.config cmd.current_state cmd.target_state)) [
                    | inr no_edge ↦ rw no_edge (denied t r ne no_edge)
                    | inl edge ↦ rw edge (apply_command-Handled t r ne ((eq_iff _ _).0 here) edge)
                  ])
        ])
      ]
