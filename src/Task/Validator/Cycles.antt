-- ===== src/Task/Validator/Cycles.antt =====
-- pkg/task/sm_validator.go: `findCycles`, with what it makes of a cycle.
use nuts.Base.{
  Bool, none, some, List, [], ◌∷◌, ◌++◌, String, ℕ, zero, suc, ◌+◌, ◌%◌, if◌then◌else◌, str_eq,
  contains, join, lookup, lookup_list, insert, length, get_or, drop, tabulate,
}
use Prim.Native.String.{compare}
use text.Mathlib.Text.{is_lt}
use nuts.Task.Validator.{Graph, targets}

-- `visitState`
pub data VisitState : Type 0 where
  unvisited visiting visited : VisitState

-- The state that `dfs` shares: the path is the latest state first.
pub record Walk : Type 0 where
  pub state_map : List (String × VisitState)
  pub path_stack : List String
  pub cycles : List (List String)

unfoldable pub state_of : List (String × VisitState) → String → VisitState
state_of m s = elim (lookup s m) [ none ↦ unvisited | some v ↦ v ]

-- The loop back along the path, as far as the state that closes the cycle.
unfoldable pub cycle_of : String → List String → List String → List String
cycle_of next [] cycle = cycle
cycle_of next (s ∷ path) cycle =
    let longer = cycle_of next path (s ∷ cycle) in if str_eq s next then s ∷ cycle else longer

-- `cycle[i] < cycle[minIdx]`
unfoldable pub before : String → String → Bool
before a b = is_lt (compare a b)

unfoldable pub min_index : List String → ℕ → ℕ → List String → ℕ
unfolding before
min_index cycle least i [] = least
min_index cycle least i (s ∷ more) =
    min_index cycle (if before s (get_or cycle least "") then i else least) (suc i) more

unfoldable pub normalize_cycle : List String → List String
unfolding min_index
normalize_cycle cycle =
    let least = min_index cycle 0 0 cycle in
    tabulate (λ i. get_or cycle ((least + i) % length cycle) "") (length cycle)

-- `fmt.Sprintf("%v", c)`
unfoldable pub spaced : List String → String
spaced [] = "]"
spaced (s ∷ []) = join s "]"
spaced (s ∷ (t ∷ more)) = join s (join " " (spaced (t ∷ more)))

unfoldable pub unique_cycles : List String → List (List String) → List (List String)
unfolding spaced
unique_cycles seen [] = []
unique_cycles seen (c ∷ cycles) =
    let key = join "[" (spaced c) in
    let skip = unique_cycles seen cycles in
    let rest = unique_cycles (key ∷ seen) cycles in if contains seen key then skip else c ∷ rest

-- The loop of `dfs` over the successors.
unfoldable pub walk_each : (Walk → String → Walk) → Walk → List String → Walk
unfolding state_of normalize_cycle cycle_of
walk_each visit w [] = w
walk_each visit w (next ∷ more) =
    let deeper = walk_each visit (visit w next) more in
    let cycle = normalize_cycle (cycle_of next w.path_stack []) in
    let back = walk_each visit (record w { cycles = w.cycles ++ (cycle ∷ []) }) more in
    let skip = walk_each visit w more in
    elim (state_of w.state_map next) [ unvisited ↦ deeper | visiting ↦ back | visited ↦ skip ]

-- `dfs`
unfoldable pub walk : ℕ → Graph → Walk → String → Walk
unfolding walk_each
walk zero graph w s = w
walk (suc n) graph w s =
    let entered = record w {
      state_map = insert s visiting w.state_map;
      path_stack = s ∷ w.path_stack;
    } in
    let left = walk_each (walk n graph) entered (lookup_list s graph) in
    record left { state_map = insert s visited left.state_map; path_stack = drop 1 left.path_stack }

unfoldable pub find_cycles : String → Graph → List (List String)
unfolding walk unique_cycles
find_cycles start graph =
    let w =
      walk (suc (suc (length (targets graph)))) graph
        (record { state_map = []; path_stack = []; cycles = [] }) start in
    unique_cycles [] w.cycles
