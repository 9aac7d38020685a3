-- ===== src/Core/Timeout.antt =====
-- pkg/core/core.go: what happens to a task whose time is up. `handleTimeoutEvent` retries it, after a
-- growing delay, or moves it to a terminal state.
use nuts.Base.{
  ℕ, suc, ◌+◌, ◌-◌, ◌*◌, ◌%◌, ◌^◌, String, Bool, true, false, not, ◌&&◌, ◌||◌, Option, none, some,
  List, [], ◌∷◌, ◌++◌, if◌then◌else◌, ltb, str_eq, is_empty, lookup,
}
use nuts.Base.Int.{ℤ, pos, negsuc, ltb_ℤ, pos_part, neg_part}
use nuts.Db.{Db, Json}
use nuts.Task.{Time, TaskState, Task, TaskResult, Result, ok, err, Err}
use nuts.Task.Config.{StateMachineConfig, StateConfig, is_transition_allowed}
use nuts.Task.Store.Ops.{get, update_result}
use nuts.Task.Engine.{
  Engine, State, TransitionCommand, CommandResult, handle_transition_command, text_at,
}
pub mod Delays
pub mod Safety
mod Progress
pub mod Tests

-- A timeout as the event log gets it.
pub record TimeoutEntry : Type 0 where
  pub trace_id : String
  pub task_id : String
  pub old_state : TaskState
  pub auto_retry : Bool

-- The core hands its event log to the engine, so the engine's `has_log` is about both.
--
-- What the handlers of `Core` reach: the engine's state, the deadlines pushed to the timeout checker,
-- the entries logged, and the slots taken of `taskSem`.
pub record CoreState (D : Type 0) : Type 0 where
  pub tasks : State D
  pub pushed : List (String × Time)
  pub logged : List TimeoutEntry
  pub task_sem : ℕ

-- The readings of the clock: in `handleTaskRetry`, for the new deadline, in the engine and the store at
-- each attempt, and in `UpdateResult`.
pub record Clock : Type 0 where
  pub checked : Time
  pub restarted : Time
  pub attempt : ℕ → Time × Time
  pub finished : Time

abbrev pub second : ℕ
second = 1000000000

-- The signed value of 64 bits.
unfoldable pub signed64 : ℕ → ℤ
signed64 n = let w = n % 2 ^ 64 in if ltb w (2 ^ 63) then pos w else negsuc (2 ^ 64 - 1 - w)

-- `backoff`: `1 << n` is negative at 63 and 0 from 64 on, and so is its product with a second.
unfoldable pub backoff : ℤ → ℕ → ℤ
backoff max_backoff_seconds retry_count =
    let max = if ltb_ℤ (pos 0) max_backoff_seconds then pos_part max_backoff_seconds else 60 in
    if ltb retry_count 63
    then signed64 ((if ltb max (2 ^ retry_count) then max else 2 ^ retry_count) * second)
    else pos 0

-- `time.ParseDuration`, of the standard library: `none` is an error, with the duration 0.
module _ (parse_duration : String → Option ℤ) where
  -- `computeEffectiveTimeout`
  unfoldable pub compute_effective_timeout : String → String → ℕ
  compute_effective_timeout rule default =
      let given : ℕ = elim (parse_duration default) [
        | none ↦ 1800 * second
        | some d ↦ if ltb_ℤ (pos 0) d then pos_part d else 1800 * second
      ] in
      elim (parse_duration rule) [
        | none ↦ given
        | some d ↦ if ltb_ℤ (pos 0) d && ltb (pos_part d) given then pos_part d else given
      ]

-- The configuration that the handlers read, and the texts that `fmt.Sprintf` makes.
pub record Settings : Type 0 where
  pub parse_duration : String → Option ℤ
  pub default_timeout : String
  pub max_backoff_seconds : ℤ
  pub retry_message : ℕ → String
  pub archive_message : TaskState → ℕ → String
  pub archive_error : TaskState → ℕ → String

-- The command of `handleTaskRetry`.
unfoldable pub retry_command : Settings → Engine → Time → Task → StateConfig → TransitionCommand
retry_command set e restarted t cfg = record {
  task_id = t.id;
  current_state = t.state;
  target_state = if is_empty cfg.retry_to_state then e.config.initial_state else cfg.retry_to_state;
  result = some (record { success = true; message = set.retry_message (suc t.retry_count) });
  component_name = "timeout-handler";
  set_retry_count = some (suc t.retry_count);
  set_timeout_at = new_deadline;
}
  where
    effective : ℕ
    effective =
        compute_effective_timeout set.parse_duration (text_at "policy_timeout" t.metadata)
          set.default_timeout

    new_deadline : Option Time
    new_deadline = if ltb 0 effective then some (restarted + effective) else none

-- The command of `handleTaskArchive` for one terminal state.
unfoldable pub archive_command : Settings → Task → TaskState → TransitionCommand
archive_command set t target = record {
  task_id = t.id;
  current_state = t.state;
  target_state = target;
  result = some (record { success = false; message = set.archive_message t.state t.retry_count });
  component_name = "timeout-handler";
  set_retry_count = none;
  set_timeout_at = none;
}

-- Has the delay before the next retry not passed yet?
unfoldable pub must_wait : Settings → Time → Task → Bool
must_wait set now t =
    let delay = backoff set.max_backoff_seconds t.retry_count in
    ltb (now + neg_part delay) (t.state_updated_at + pos_part delay)

unfoldable pub timed_out : Settings → Task → TaskResult
timed_out set t = record {
  success = false;
  output = "";
  error = set.archive_error t.state t.retry_count;
  exit_code = pos 0;
  duration = pos 0;
}

unfoldable pub log_timeout : {D : Type 0} → Engine → Task → StateConfig → CoreState D → CoreState D
log_timeout e t cfg c =
    if e.has_log
    then record c {
      logged =
          c.logged
          ++ (record {
            trace_id = t.trace_id;
            task_id = t.id;
            old_state = t.state;
            auto_retry = cfg.auto_retry;
          }
              ∷ []);
    }
    else c

module _ {D : Type 0} (db : Db D (Json Task)) (set : Settings) (e : Engine) (clock : Clock) where
  -- `handleTaskRetry`
  unfoldable pub handle_task_retry : Task → StateConfig → CoreState D → CoreState D
  handle_task_retry t cfg c =
      let cmd = retry_command set e clock.restarted t cfg in
      let (now, later) = clock.attempt 0 in
      let (st, failure) = handle_transition_command db e now later cmd c.tasks in
      let done = record c { tasks = st } in
      if must_wait set clock.checked t then c else elim failure [
        | some _ ↦ done
        | none ↦ elim cmd.set_timeout_at [
          | none ↦ done
          | some at ↦ record done { pushed = c.pushed ++ ((t.id, at) ∷ []) }
        ]
      ]

  -- The loop of `handleTaskArchive`: the first terminal state that is allowed and taken ends it. `i`
  -- counts the attempts.
  unfoldable pub try_terminals : ℕ → List TaskState → Task → State D → State D × Bool
  try_terminals i [] t st = (st, false)
  try_terminals i (target ∷ more) t st =
      let skipped = try_terminals i more t st in
      let (now, later) = clock.attempt i in
      let (st', failure) =
        handle_transition_command db e now later (archive_command set t target) st in
      let retried = try_terminals (suc i) more t st' in
      if is_transition_allowed e.config t.state target
      then elim failure [ none ↦ (st', true) | some _ ↦ retried ]
      else skipped

  -- `handleTaskArchive`: on success the result is written and a slot is given back, if one is taken.
  unfoldable pub handle_task_archive : Task → CoreState D → CoreState D
  handle_task_archive t c =
      let (st, moved) = try_terminals 0 e.config.terminal_states t c.tasks in
      let settled : State D =
        elim (update_result db clock.finished st.store t.id (some (timed_out set t))) [
          | err _ ↦ st
          | ok s ↦ record st { store = s }
        ] in
      if moved
      then record c { tasks = settled; task_sem = c.task_sem - 1 }
      else record c { tasks = st }

  -- `handleTimeoutEvent`
  unfoldable pub handle_timeout_event : String → TaskState → CoreState D → CoreState D
  handle_timeout_event task_id current_state c =
      if is_empty task_id || is_empty current_state
      then c
      else elim (get db c.tasks.store task_id) [
        | err _ ↦ c
        | ok t ↦
            if not (str_eq t.state current_state)
            then c
            else elim (lookup t.state e.config.states) [
              | none ↦ c
              | some cfg ↦
                  if cfg.auto_retry && ltb_ℤ (pos t.retry_count) cfg.max_retries
                  then handle_task_retry t cfg (log_timeout e t cfg c)
                  else handle_task_archive t (log_timeout e t cfg c)
            ]
      ]
