-- ===== src/Task/Validator/Accepted.antt =====
-- pkg/task/sm_validator.go: `Validate`, and what a configuration that it accepts has.
use nuts.Base.{
  ◌≡◌, Bool, true, false, not, ◌&&◌, ◌||◌, Option, none, some, List, [], ◌∷◌, String, if◌then◌else◌,
  str_eq, is_empty, contains, lookup, arith, Bool-cases, inl, inr, lookup_list, str_eq_cases, subst,
  sym,
}
use nuts.Db.{is_some}
use nuts.Task.Config.{StateConfig, StateMachineConfig, is_terminal_state, is_transition_allowed}
use nuts.Task.Validator.{
  Graph, ValidationError, no_initial_state, undefined_initial_state, no_terminal_state,
  unreachable_state, dead_end, infinite_loop, defined, check_terminals, add_transitions,
  add_retries, reachable_states, can_reach_terminal,
}
use nuts.Task.Validator.Cycles.{find_cycles}
use nuts.Task.Validator.Search.{Edge, Reach, here, step}
use nuts.Task.Validator.Reachable.{reachable_states_lem}
use nuts.Task.Validator.Terminal.{can_reach_terminal_lem}
use nuts.Task.Validator.Edges.{Leads, allowed, retried, add_transitions-Edge, add_retries-Edge}

-- The loops over the names of the states.
unfoldable pub each_name : (String → Bool) → List (String × StateConfig) → Bool
each_name ok [] = true
each_name ok ((name, state) ∷ more) = ok name && each_name ok more

unfoldable pub has_terminal : List String → List String → Bool
has_terminal terminals [] = false
has_terminal terminals (s ∷ cycle) = contains terminals s || has_terminal terminals cycle

unfoldable pub each_ends : List String → List (List String) → Bool
unfolding has_terminal
each_ends terminals [] = true
each_ends terminals (c ∷ cycles) = has_terminal terminals c && each_ends terminals cycles

-- The checks on the graph.
unfoldable pub check_graph : StateMachineConfig → Graph → Option ValidationError
unfolding each_name each_ends
check_graph cfg graph =
    let reachable = reachable_states cfg.initial_state graph in
    if not (each_name (λ name. contains reachable name || str_eq name cfg.initial_state) cfg.states)
    then some unreachable_state
    else if not (
        each_name
          (λ name.
            contains cfg.terminal_states name || can_reach_terminal name graph cfg.terminal_states)
          cfg.states)
    then some dead_end
    else if not (each_ends cfg.terminal_states (find_cycles cfg.initial_state graph))
    then some infinite_loop
    else none

-- `Validate`; `none` is acceptance.
unfoldable pub validate : StateMachineConfig → Option ValidationError
unfolding check_graph
validate cfg =
    if is_empty cfg.initial_state
    then some no_initial_state
    else if not (defined cfg cfg.initial_state)
    then some undefined_initial_state
    else elim cfg.terminal_states [
      | [] ↦ some no_terminal_state
      | s ∷ ss ↦ elim (check_terminals cfg cfg.terminal_states) [
        | some e ↦ some e
        | none ↦
            let built = add_transitions cfg [] cfg.transitions in
            elim built.0 [
              | some e ↦ some e
              | none ↦
                  let whole = add_retries cfg built.1 cfg.states in
                  elim whole.0 [ some e ↦ some e | none ↦ check_graph cfg whole.1 ]
            ]
      ]
    ]

-- The states that the machine may come to from one of them.
pub data Route (cfg : StateMachineConfig) (s : String) : String → Type 0 where
  start : Route cfg s s
  then_to : {t u : String} → Route cfg s t → Leads cfg t u → Route cfg s u

Reach-Route :
    (cfg : StateMachineConfig) (graph : Graph) (s t : String)
    → ((a b : String) → Edge graph a b → Leads cfg a b)
    → Reach graph s t
    → Route cfg s t
Reach-Route cfg graph s t leads here = start
Reach-Route cfg graph s t leads (step {s = u} r e) =
    then_to (Reach-Route cfg graph s u leads r) (leads u t e)

each_name-lookup :
    (ok : String → Bool) (states : List (String × StateConfig)) (name : String)
    → each_name ok states ≡ true
    → is_some (lookup name states) ≡ true
    → ok name ≡ true
unfolding each_name lookup
each_name-lookup ok [] name e d = absurd (ground (arith, d))
each_name-lookup ok ((k, state) ∷ more) name e d = elim (str_eq_cases k name) [
  | inl y ↦ subst (λ x. ok x ≡ true) y (ground (arith, e))
  | inr n ↦ each_name-lookup ok more name (ground (arith, e)) (ground (arith, d, n))
]

validate-graph :
    (cfg : StateMachineConfig)
    → validate cfg ≡ none
    → (graph : Graph) × ((a b : String) → Edge graph a b → Leads cfg a b)
      × (check_graph cfg graph ≡ none)
unfolding validate is_transition_allowed lookup_list lookup
validate-graph cfg e =
    let first = add_transitions cfg [] cfg.transitions in
    let whole = add_retries cfg first.1 cfg.states in
    let (one, two, checked) : (first.0 ≡ none)
        × (whole.0 ≡ none)
        × (check_graph cfg whole.1 ≡ none) =
      ground (arith, e) in
    (
      whole.1,
      λ a b g. elim (add_retries-Edge cfg cfg.states first.1 a b two g) [
        | inl i ↦ allowed (ground (arith, i, add_transitions-Edge cfg cfg.transitions [] a b one))
        | inr (state, m, on, to) ↦ retried state m on to
      ],
      checked,
    )

-- In a configuration that is accepted, every state is on some route from the first one, and has a
-- route to a terminal one. A step of a route is an allowed transition or the edge of an automatic
-- retry, which need not be an allowed transition.
pub validate_lem :
    (cfg : StateMachineConfig)
    → validate cfg ≡ none
    → (s : String) → defined cfg s ≡ true
    → Route cfg cfg.initial_state s
      × ((t : String) × (is_terminal_state cfg t ≡ true) × Route cfg s t)
unfolding check_graph defined is_terminal_state
validate_lem cfg e s d =
    let (graph, leads, checked) = validate-graph cfg e in
    let (one, two) : (each_name
            (λ name.
              contains (reachable_states cfg.initial_state graph) name
              || str_eq name cfg.initial_state)
            cfg.states
          ≡ true)
        × (each_name
              (λ name.
                contains cfg.terminal_states name
                || can_reach_terminal name graph cfg.terminal_states)
              cfg.states
            ≡ true) =
      ground (arith, checked) in
    let from =
      each_name-lookup
        (λ name.
          contains (reachable_states cfg.initial_state graph) name || str_eq name cfg.initial_state)
        cfg.states s one d in
    let to =
      each_name-lookup
        (λ name.
          contains cfg.terminal_states name || can_reach_terminal name graph cfg.terminal_states)
        cfg.states s two d in
    (
      elim (str_eq_cases s cfg.initial_state) [
        | inl y ↦ subst (Route cfg cfg.initial_state) (sym y) start
        | inr n ↦
            Reach-Route cfg graph cfg.initial_state s leads
              ((reachable_states_lem graph cfg.initial_state s).0 (ground (arith, from, n)))
      ],
      elim (Bool-cases (contains cfg.terminal_states s)) [
        | inl y ↦ (s, y, start)
        | inr n ↦
            let (t, i, r) =
              (can_reach_terminal_lem graph cfg.terminal_states s).0 (ground (arith, to, n)) in
            (t, i, Reach-Route cfg graph s t leads r)
      ],
    )
