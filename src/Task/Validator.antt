-- ===== src/Task/Validator.antt =====
-- pkg/task/sm_validator.go: the checks on a configured state machine. A Go map from a state to its
-- successors is a list of pairs, and a set of states is the list of its elements.
use nuts.Base.{
  ◌≡◌, Bool, true, false, not, ◌&&◌, ◌||◌, Option, none, some, List, [], ◌∷◌, ◌++◌, String, ℕ, zero,
  suc, if◌then◌else◌, str_eq, is_empty, contains, lookup, lookup_list, insert, length, keys,
}
use nuts.Db.{is_some}
use nuts.Task.Config.{StateConfig, TransitionConfig, StateMachineConfig}
pub mod Cycles
pub mod Search
pub mod Reachable
pub mod Terminal
pub mod Edges
pub mod Accepted
mod Finish
mod Tests

abbrev pub Graph : Type 0
Graph = List (String × List String)

-- The errors of `Validate`, by the check that fails.
pub data ValidationError : Type 0 where
  no_initial_state undefined_initial_state no_terminal_state : ValidationError
  undefined_terminal_state undefined_from undefined_to : ValidationError
  undefined_retry_state unreachable_state dead_end infinite_loop : ValidationError

unfoldable pub defined : StateMachineConfig → String → Bool
defined cfg s = is_some (lookup s cfg.states)

-- `graph[from] = append(graph[from], to)`
unfoldable pub add_edge : String → String → Graph → Graph
add_edge from to graph = insert from (lookup_list from graph ++ (to ∷ [])) graph

unfoldable pub check_terminals : StateMachineConfig → List String → Option ValidationError
check_terminals cfg [] = none
check_terminals cfg (s ∷ ss) =
    if defined cfg s then check_terminals cfg ss else some undefined_terminal_state

-- The loop over the transitions.
unfoldable pub add_transitions :
    StateMachineConfig → Graph → List TransitionConfig → Option ValidationError × Graph
unfolding add_edge
add_transitions cfg graph [] = (none, graph)
add_transitions cfg graph (t ∷ ts) =
    let skip = add_transitions cfg graph ts in
    let rest = add_transitions cfg (add_edge t.from t.to graph) ts in
    if not t.allowed
    then skip
    else if not (defined cfg t.from)
    then (some undefined_from, graph)
    else if not (defined cfg t.to)
    then (some undefined_to, graph)
    else rest

-- Where an automatic retry leads.
unfoldable pub retry_target : StateMachineConfig → StateConfig → String
retry_target cfg state =
    if is_empty state.retry_to_state then cfg.initial_state else state.retry_to_state

-- The loop over the states that retry on their own.
unfoldable pub add_retries :
    StateMachineConfig → Graph → List (String × StateConfig) → Option ValidationError × Graph
unfolding add_edge
add_retries cfg graph [] = (none, graph)
add_retries cfg graph ((name, state) ∷ more) =
    let target = retry_target cfg state in
    let skip = add_retries cfg graph more in
    let rest = add_retries cfg (add_edge name target graph) more in
    if not state.auto_retry
    then skip
    else if not (defined cfg target)
    then (some undefined_retry_state, graph)
    else if str_eq target name
    then skip
    else rest

-- The inner loop of `reachableStates`, on the set and the end of the queue.
unfoldable pub enqueue : List String → List String → List String → List String × List String
enqueue reachable queue [] = (reachable, queue)
enqueue reachable queue (next ∷ more) =
    let skip = enqueue reachable queue more in
    let rest = enqueue (next ∷ reachable) (queue ++ (next ∷ [])) more in
    if contains reachable next then skip else rest

-- The loop on the queue.
unfoldable pub search : ℕ → Graph → List String → List String → List String
unfolding enqueue
search zero graph reachable queue = reachable
search (suc n) graph reachable [] = reachable
search (suc n) graph reachable (cur ∷ queue) =
    let next = enqueue reachable queue (lookup_list cur graph) in search n graph next.0 next.1

-- Every state that an edge leads to, each as often as it does.
abbrev pub targets : Graph → List String
targets [] = []
targets ((s, next) ∷ graph) = next ++ targets graph

-- `reachableStates`
unfoldable pub reachable_states : String → Graph → List String
unfolding search
reachable_states start graph =
    search (suc (suc (length (targets graph)))) graph (start ∷ []) (start ∷ [])

-- What a `dfs` of `canReachTerminal` answers, with the states that are visited after it. The path it
-- collects is for the message only.
pub record Answer : Type 0 where
  pub found : Bool
  pub visited : List String

-- The loop of `dfs` over the successors.
unfoldable pub dfs_each : (List String → String → Answer) → List String → List String → Answer
dfs_each visit visited [] = record { found = false; visited = visited }
dfs_each visit visited (next ∷ more) =
    let first = visit visited next in
    let rest = dfs_each visit first.visited more in if first.found then first else rest

unfoldable pub dfs : ℕ → Graph → List String → List String → String → Answer
unfolding dfs_each
dfs zero graph terminals visited s = record { found = false; visited = visited }
dfs (suc n) graph terminals visited s =
    let below = dfs_each (dfs n graph terminals) (s ∷ visited) (lookup_list s graph) in
    if contains visited s
    then record { found = false; visited = visited }
    else if contains terminals s
    then record { found = true; visited = visited }
    else below

-- `canReachTerminal`
unfoldable pub can_reach_terminal : String → Graph → List String → Bool
unfolding dfs
can_reach_terminal start graph terminals =
    (dfs (suc (suc (length (targets graph)))) graph terminals [] start).found
