-- ===== src/Task/Validator/Tests.antt =====
-- Concrete configurations, checked.
use nuts.Base.{
  ◌≡◌, ◌↔◌, refl, sym, ap, subst, arith, inl, inr, Memᴰ, true, false, none, some, [], ◌∷◌, String,
  contains, lookup, insert, lookup_list, join,
}
use mathlib.Core.List.Memᴰ
use nuts.Base.Int.{pos}
use nuts.Task.Config.{
  StateConfig, TransitionConfig, StateMachineConfig, is_terminal_state, is_transition_allowed,
  allowed_in,
}
use nuts.Task.Validator.{
  Graph, defined, reachable_states, can_reach_terminal, check_terminals, add_edge, add_transitions,
  add_retries, retry_target, enqueue, search, dfs, dfs_each, infinite_loop,
}
use nuts.Task.Validator.Cycles.{
  state_of, cycle_of, before, min_index, normalize_cycle, spaced, unique_cycles, walk_each, walk,
  find_cycles,
}
use nuts.Task.Validator.Search.{Reach}
use nuts.Task.Validator.Reachable.{reachable_states_lem}
use nuts.Task.Validator.Terminal.{can_reach_terminal_lem}
use nuts.Task.Engine.Paths.{Walk}
use nuts.Task.Validator.Finish.{validate-Walk}
use nuts.Task.Validator.Accepted.{
  each_name, has_terminal, each_ends, check_graph, validate, Route, validate_lem,
}

abbrev plain : StateConfig
plain = record { description = ""; auto_retry = false; max_retries = pos 0; retry_to_state = "" }

abbrev retrying : StateConfig
retrying = record {
  description = "";
  auto_retry = true;
  max_retries = pos 3;
  retry_to_state = "pending";
}

abbrev may : String → String → TransitionConfig
may from to = record { from = from; to = to; allowed = true }

abbrev a_config : StateMachineConfig
a_config = record {
  name = "default";
  initial_state = "pending";
  terminal_states = "done" ∷ [];
  states = ("pending", plain) ∷ (("running", plain) ∷ (("done", plain) ∷ []));
  transitions = may "pending" "running" ∷ (may "running" "done" ∷ (may "pending" "done" ∷ []));
  payload_builder = "";
  max_process_time = "";
}

-- A loop of states that are not terminal, "v" and "u", whose closing edge is looked at after a
-- terminal state led to "u".
abbrev loop_config : StateMachineConfig
loop_config = record {
  name = "loop";
  initial_state = "v";
  terminal_states = "t" ∷ [];
  states = ("v", plain) ∷ (("u", plain) ∷ (("t", plain) ∷ []));
  transitions = may "v" "t" ∷ (may "t" "u" ∷ (may "v" "u" ∷ (may "u" "v" ∷ [])));
  payload_builder = "";
  max_process_time = "";
}

-- What `Validate` says: it accepts a plain configuration, and refuses a retry that leads back with
-- no terminal state between. It misses the loop above, and finds it without the terminal state.
runs :
    (validate a_config ≡ none)
    × (validate (record a_config {
      states = ("pending", plain) ∷ (("running", retrying) ∷ (("done", plain) ∷ []));
    })
        ≡ some infinite_loop)
    × (validate loop_config ≡ none)
    × (validate (record loop_config {
      transitions = may "v" "u" ∷ (may "u" "v" ∷ (may "v" "t" ∷ (may "t" "t" ∷ [])));
    })
        ≡ some infinite_loop)
unfolding validate check_graph each_name has_terminal each_ends defined check_terminals add_edge
    add_transitions add_retries retry_target enqueue search reachable_states dfs dfs_each
    can_reach_terminal state_of cycle_of before min_index normalize_cycle spaced unique_cycles
    walk_each walk find_cycles lookup insert lookup_list join
runs = (refl, refl, refl, refl)

-- A state whose only way out is the edge of its retry, which is no allowed transition.
abbrev stuck_config : StateMachineConfig
stuck_config = record a_config {
  states = ("pending", record retrying { retry_to_state = "done" }) ∷ (("done", plain) ∷ []);
  transitions = [];
}

stuck_accepted :
    (validate stuck_config ≡ none) × (is_transition_allowed stuck_config "pending" "done" ≡ false)
unfolding validate check_graph each_name has_terminal each_ends defined check_terminals add_edge
    add_transitions add_retries retry_target enqueue search reachable_states dfs dfs_each
    can_reach_terminal state_of cycle_of before min_index normalize_cycle spaced unique_cycles
    walk_each walk find_cycles lookup insert lookup_list join is_transition_allowed allowed_in
stuck_accepted = (refl, refl)

running_defined : defined a_config "running" ≡ true
unfolding defined lookup
running_defined = refl

validate_lem_example :
    Route a_config "pending" "running"
    × ((t : String) × (is_terminal_state a_config t ≡ true) × Route a_config "running" t)
validate_lem_example = validate_lem a_config runs.0 "running" running_defined

abbrev a_graph : Graph
a_graph = ("a", "b" ∷ ("c" ∷ [])) ∷ (("b", "a" ∷ []) ∷ [])

reachable_states_lem_example :
    (contains (reachable_states "b" a_graph) "c" ≡ true) ↔ Reach a_graph "b" "c"
reachable_states_lem_example = reachable_states_lem a_graph "b" "c"

can_reach_terminal_lem_example :
    (can_reach_terminal "b" a_graph ("c" ∷ []) ≡ true)
    ↔ ((t : String) × (contains ("c" ∷ []) t ≡ true) × Reach a_graph "b" t)
can_reach_terminal_lem_example = can_reach_terminal_lem a_graph ("c" ∷ []) "b"

-- A failed task is tried again by an allowed transition.
abbrev failing : StateConfig
failing = record retrying { retry_to_state = "" }

abbrev retry_config : StateMachineConfig
retry_config = record a_config {
  terminal_states = "done" ∷ ("failed" ∷ []);
  states =
      ("pending", plain) ∷ (("running", plain) ∷ (("failed", failing) ∷ (("done", plain) ∷ [])));
  transitions =
      may "pending" "running"
      ∷ (may "running" "done" ∷ (may "running" "failed" ∷ (may "failed" "pending" ∷ [])));
}

retry_accepted : (validate retry_config ≡ none) × (defined retry_config "failed" ≡ true)
unfolding validate check_graph each_name has_terminal each_ends defined check_terminals add_edge
    add_transitions add_retries retry_target enqueue search reachable_states dfs dfs_each
    can_reach_terminal state_of cycle_of before min_index normalize_cycle spaced unique_cycles
    walk_each walk find_cycles lookup insert lookup_list join
retry_accepted = (refl, refl)

abbrev Named : Type 0
Named = String × StateConfig

retries_allowed :
    (s : String) (state : StateConfig)
    → Memᴰ (s, state) retry_config.states
    → state.auto_retry ≡ true
    → is_transition_allowed retry_config s (retry_target retry_config state) ≡ true
unfolding is_transition_allowed allowed_in retry_target
retries_allowed s state m on = elim (Memᴰ.cases_cons m) [
  | inl a ↦ absurd (ground (arith, plain_never a))
  | inr m₁ ↦ elim (Memᴰ.cases_cons m₁) [
    | inl a ↦ absurd (ground (arith, plain_never a))
    | inr m₂ ↦ elim (Memᴰ.cases_cons m₂) [
      | inl a ↦
          subst
            (λ (x : Named).
              is_transition_allowed retry_config x.0 (retry_target retry_config x.1) ≡ true)
            (sym a) refl
      | inr m₃ ↦ elim (Memᴰ.cases_cons m₃) [
        | inl a ↦ absurd (ground (arith, plain_never a))
        | inr none_left ↦ absurd (Memᴰ.not-nil none_left)
      ]
    ]
  ]
]
  where
    plain_never : {name : String} → ◌≡◌ {A = Named} (s, state) (name, plain) → true ≡ false
    plain_never a = ground (arith, on, ap (λ (x : Named). x.1.auto_retry) a)

validate-Walk_example :
    Walk retry_config "pending" "failed"
    × ((t : String) × (is_terminal_state retry_config t ≡ true) × Walk retry_config "failed" t)
validate-Walk_example =
    validate-Walk retry_config retry_accepted.0 retries_allowed "failed" retry_accepted.1
