-- ===== src/Task/Engine/Safety.antt =====
-- What every command keeps, and what a command that is accepted or refused does.
use nuts.Base.{
  ◌≡◌, refl, ◌⊎◌, inl, inr, String, true, false, Option, none, some, [], ◌∷◌, ◌++◌, if◌then◌else◌,
  str_eq, eq_iff, arith, subst, str_eq_refl,
}
use nuts.Db.{Db, DbLaws, Json, is_some}
use nuts.Task.{Time, TaskState, Task, ok, Err, inc64}
use nuts.Task.Config.{is_terminal_state, is_transition_allowed}
use nuts.Task.Store.{TaskStore, record_transition}
use nuts.Task.Store.Ops.{get, Changes, transitioned, new_archived_at, bumped}
use nuts.Task.Store.Invariant.{Inv, Moved, tracks}
use nuts.Task.Store.Keeps.{Moved-Inv}
use nuts.Task.Engine.{
  Engine, State, TransitionCommand, handle_transition_command, changes_of, post_commit,
  count_transition, command_event,
}
use nuts.Task.Engine.Command.{
  Handled, missing, repeated, counted, count_failed, mismatched, denied, failed, moved,
  handle-Handled,
}

-- What an accepted command leaves: the task it named is in the target state, every other task is as
-- it was, and either the task was there already and nothing was published, or it came from the
-- command's current state over an allowed transition, is archived exactly if the target state is
-- terminal, has the next version, and one event about it was published if there is a bus.
pub record Accepted {D : Type 0} (db : Db D (Json Task)) (e : Engine) (cmd : TransitionCommand)
    (st st' : State D) : Type 0 where
  pub before : Task
  pub after : Task
  pub read : get db st.store cmd.task_id ≡ ok before
  pub arrived : after.state ≡ cmd.target_state
  pub tasks :
      (j : String)
      → get db st'.store j ≡ (if str_eq cmd.task_id j then ok after else get db st.store j)
  pub step :
      ((before.state ≡ cmd.target_state)
        × (st'.world.published ≡ st.world.published)
        × (after.archived_at ≡ before.archived_at))
      ⊎ ((before.state ≡ cmd.current_state)
          × (is_transition_allowed e.config cmd.current_state cmd.target_state ≡ true)
          × (is_some after.archived_at ≡ is_terminal_state e.config cmd.target_state)
          × (after.version ≡ inc64 before.version)
          × (st'.world.published ≡ (
              if e.has_bus
              then st.world.published ++ (command_event cmd before ∷ [])
              else st.world.published)))

module _ {D : Type 0} (db : Db D (Json Task)) (laws : DbLaws db) (e : Engine) where
  module _ (now later : Time) (cmd : TransitionCommand) where
    changes_of-tracks :
        (t : Task)
        → str_eq t.state cmd.target_state ≡ false
        → tracks t cmd.target_state (changes_of e now cmd t) ≡ true
    unfolding changes_of
    changes_of-tracks t ne = ground arith

    Handled-Inv :
        {st st' : State D} {r : Option Err}
        → Handled db e now later cmd st st' r
        → Inv db st.store
        → Inv db st'.store
    Handled-Inv (missing _) v = v
    Handled-Inv (repeated _ _ _ _) v = v
    Handled-Inv {st = st} (counted t u s' n r same c m) v =
        Moved-Inv db laws later st.store cmd.task_id t.state _ _ _ t u s' m v
          (ground (arith, str_eq_refl t.state))
    Handled-Inv (count_failed _ _ _) v = v
    Handled-Inv (mismatched _ _ _ _) v = v
    Handled-Inv (denied _ _ _ _) v = v
    Handled-Inv (failed _ _) v = v
    Handled-Inv {st = st} (moved t u s' r ne _ _ m) v =
        Moved-Inv db laws later st.store cmd.task_id cmd.target_state _ _ _ t u s' m v
          (changes_of-tracks t ne)

    -- Every command, accepted or refused, keeps the store's invariant: keys match the tasks' ids, and
    -- the state index holds exactly the tasks that are not archived, newest first, without repeats.
    pub handle-Inv :
        (st : State D)
        → Inv db st.store
        → Inv db (handle_transition_command db e now later cmd st).0.store
    handle-Inv st v = Handled-Inv (handle-Handled db laws e now later cmd st) v

    Handled-refused :
        {st st' : State D} {r : Option Err}
        → Handled db e now later cmd st st' r
        → is_some r ≡ true
        → (st'.store ≡ st.store) × (st'.world.published ≡ st.world.published)
    Handled-refused (missing _) h = (refl, refl)
    Handled-refused (repeated _ _ _ _) h = cc
    Handled-refused (counted _ _ _ _ _ _ _ _) h = cc
    Handled-refused (count_failed _ _ _) h = (refl, refl)
    Handled-refused (mismatched _ _ _ _) h = (refl, refl)
    Handled-refused (denied _ _ _ _) h = (refl, refl)
    Handled-refused (failed _ _) h = (refl, ground arith)
    Handled-refused (moved _ _ _ _ _ _ _ _) h = cc

    -- A command that returns an error leaves every task and the index as they were, and publishes
    -- nothing.
    pub handle-refused :
        (st : State D) {x : Err}
        → (handle_transition_command db e now later cmd st).1 ≡ some x
        → ((handle_transition_command db e now later cmd st).0.store ≡ st.store)
          × ((handle_transition_command db e now later cmd st).0.world.published
              ≡ st.world.published)
    handle-refused st h = Handled-refused (handle-Handled db laws e now later cmd st) (rw h refl)

    Moved-tasks :
        {s s' : TaskStore D} {id : String} {target : TaskState} {by why : String} {c : Changes}
        {t u : Task}
        → Inv db s
        → Moved db later s id target by why c t u s'
        → (j : String) → get db s' j ≡ (if str_eq id j then ok u else get db s j)
    Moved-tasks {s} {s'} {id} {t = t} {u = u} v m j =
        subst (λ k. get db s' j ≡ (if str_eq k j then ok u else get db s j)) (v.keyed id t m.read)
          (m.reads j)

    Handled-Accepted :
        {st st' : State D} {r : Option Err}
        → Handled db e now later cmd st st' r
        → Inv db st.store
        → r ≡ none
        → Accepted db e cmd st st'
    unfolding transitioned record_transition bumped new_archived_at changes_of post_commit
        count_transition
    Handled-Accepted (missing _) v h = cc
    Handled-Accepted (repeated t r same _) v h = record {
      before = t;
      after = t;
      read = r;
      arrived = same;
      tasks = λ j. ground (arith, eq_iff cmd.task_id j, r);
      step = inl (same, refl, refl);
    }
    Handled-Accepted (counted t u s' n r same c m) v h = record {
      before = t;
      after = u;
      read = r;
      arrived = ground (arith, m.after, same);
      tasks = Moved-tasks v m;
      step = inl (same, refl, ground (arith, m.after));
    }
    Handled-Accepted (count_failed _ _ _) v h = cc
    Handled-Accepted (mismatched _ _ _ _) v h = cc
    Handled-Accepted (denied _ _ _ _) v h = cc
    Handled-Accepted (failed _ _) v h = cc
    Handled-Accepted (moved t u s' r ne same allowed m) v h = record {
      before = t;
      after = u;
      read = r;
      arrived = ground (arith, m.after);
      tasks = Moved-tasks v m;
      step = inr (same, allowed, ground (arith, m.after), ground (arith, m.after), ground arith);
    }

    -- From a store with its invariant, a command that returns no error does what `Accepted` says: the
    -- task it names is in the target state afterwards and no other task has changed; and either it
    -- was there before and nothing was published, or it was in the command's current state, the
    -- transition is allowed, the task is archived exactly if the target state is terminal, its
    -- version is the next one, and one event was published if there is a bus.
    pub handle-Accepted :
        (st : State D)
        → Inv db st.store
        → (handle_transition_command db e now later cmd st).1 ≡ none
        → Accepted db e cmd st (handle_transition_command db e now later cmd st).0
    handle-Accepted st v h = Handled-Accepted (handle-Handled db laws e now later cmd st) v h
