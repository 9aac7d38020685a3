-- ===== src/Task/Validator/Finish.antt =====
-- pkg/task/sm_validator.go with the engine's rule: where a task can go in an accepted configuration.
use nuts.Base.{◌≡◌, true, none, String, Memᴰ, subst}
use nuts.Task.Config.{StateConfig, StateMachineConfig, is_terminal_state, is_transition_allowed}
use nuts.Task.Engine.Paths.{Walk, stay, step}
use nuts.Task.Validator.{defined, retry_target}
use nuts.Task.Validator.Edges.{Leads, allowed, retried}
use nuts.Task.Validator.Accepted.{validate, Route, start, then_to, validate_lem}

module _ (cfg : StateMachineConfig) where
  Walk-append : {a b c : String} → Walk cfg a b → Walk cfg b c → Walk cfg a c
  Walk-append stay v = v
  Walk-append (step e w) v = step e (Walk-append w v)

  Leads-allowed :
      ((s : String) (state : StateConfig)
        → Memᴰ (s, state) cfg.states
        → state.auto_retry ≡ true
        → is_transition_allowed cfg s (retry_target cfg state) ≡ true)
      → (s t : String) → Leads cfg s t
      → is_transition_allowed cfg s t ≡ true
  Leads-allowed retries s t (allowed e) = e
  Leads-allowed retries s t (retried state m on to) =
      subst (λ x. is_transition_allowed cfg s x ≡ true) to (retries s state m on)

  Route-Walk :
      ((s t : String) → Leads cfg s t → is_transition_allowed cfg s t ≡ true)
      → (s t : String) → Route cfg s t
      → Walk cfg s t
  Route-Walk each s t start = stay
  Route-Walk each s t (then_to {t = u} r e) =
      Walk-append (Route-Walk each s u r) (step (each u t e) stay)

  -- In a configuration that is accepted, and in which the target of every automatic retry is an
  -- allowed transition, allowed transitions lead from the first state to every state and from every
  -- state to a terminal one.
  pub validate-Walk :
      validate cfg ≡ none
      → ((s : String) (state : StateConfig)
          → Memᴰ (s, state) cfg.states
          → state.auto_retry ≡ true
          → is_transition_allowed cfg s (retry_target cfg state) ≡ true)
      → (s : String) → defined cfg s ≡ true
      → Walk cfg cfg.initial_state s
        × ((t : String) × (is_terminal_state cfg t ≡ true) × Walk cfg s t)
  validate-Walk e retries s d =
      let (from, (t, terminal, to)) = validate_lem cfg e s d in
      let each = Leads-allowed retries in
      (Route-Walk each cfg.initial_state s from, (t, terminal, Route-Walk each s t to))
