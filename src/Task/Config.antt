-- ===== src/Task/Config.antt =====
-- pkg/task/sm_factory.go: the configuration of the state machine and its two tests.
use nuts.Base.{contains, ◌&&◌, ◌||◌, Bool, false, String, List, [], ◌∷◌, str_eq}
use nuts.Base.Int.{ℤ}

pub record StateConfig : Type 0 where
  pub description : String
  pub auto_retry : Bool
  pub max_retries : ℤ
  pub retry_to_state : String

pub record TransitionConfig : Type 0 where
  pub from : String
  pub to : String
  pub allowed : Bool

pub record StateMachineConfig : Type 0 where
  pub name : String
  pub initial_state : String
  pub terminal_states : List String
  pub states : List (String × StateConfig)
  pub transitions : List TransitionConfig
  pub payload_builder : String
  pub max_process_time : String

unfoldable pub is_terminal_state : StateMachineConfig → String → Bool
is_terminal_state cfg s = contains cfg.terminal_states s

unfoldable pub allowed_in : List TransitionConfig → String → String → Bool
allowed_in [] f t = false
allowed_in (c ∷ cs) f t = (str_eq c.from f && str_eq c.to t && c.allowed) || allowed_in cs f t

unfoldable pub is_transition_allowed : StateMachineConfig → String → String → Bool
unfolding allowed_in
is_transition_allowed cfg f t = allowed_in cfg.transitions f t
