-- ===== src/Task/Validator/Edges.antt =====
-- pkg/task/sm_validator.go: the edges of the graph come from the configuration.
use nuts.Base.{
  ◌≡◌, ◌⊎◌, true, not, ◌&&◌, ◌||◌, none, List, [], ◌∷◌, ◌++◌, String, if◌then◌else◌, str_eq,
  contains, contains-append, lookup_list, lookup-insert, arith, eq_iff, eq_refl, Bool-cases,
  str_eq_cases, inl, inr, Memᴰ, ap, subst,
}
use nuts.Task.Config.{
  StateConfig, TransitionConfig, StateMachineConfig, allowed_in, is_transition_allowed,
}
use nuts.Task.Validator.{Graph, add_edge, add_transitions, add_retries, retry_target}

-- One state may follow the other: by an allowed transition, or by an automatic retry.
pub data Leads (cfg : StateMachineConfig) (s t : String) : Type 0 where
  allowed : is_transition_allowed cfg s t ≡ true → Leads cfg s t
  retried :
      (state : StateConfig)
      → Memᴰ (s, state) cfg.states
      → state.auto_retry ≡ true
      → retry_target cfg state ≡ t
      → Leads cfg s t

lookup_list-add_edge :
    (from to : String) (graph : Graph) (s : String)
    → lookup_list s (add_edge from to graph)
      ≡ (if str_eq from s then lookup_list from graph ++ (to ∷ []) else lookup_list s graph)
unfolding add_edge lookup_list
lookup_list-add_edge from to graph s =
    ground (arith, lookup-insert from s (lookup_list from graph ++ (to ∷ [])) graph)

Edge-add_edge :
    (from to : String) (graph : Graph) (s t : String)
    → contains (lookup_list s (add_edge from to graph)) t
      ≡ (contains (lookup_list s graph) t || (str_eq from s && str_eq to t))
Edge-add_edge from to graph s t =
    rw (lookup_list-add_edge from to graph s) (elim (str_eq_cases from s) [
      | inl y ↦
          subst
            (λ x.
              contains
                (if str_eq from x then lookup_list from graph ++ (to ∷ []) else lookup_list x graph)
                t
              ≡ (contains (lookup_list x graph) t || (str_eq from x && str_eq to t)))
            y (ground (arith, eq_refl from, contains-append (lookup_list from graph) (to ∷ []) t))
      | inr n ↦ ground (arith, n)
    ])

pub add_transitions-Edge :
    (cfg : StateMachineConfig) (ts : List TransitionConfig) (graph : Graph) (s t : String)
    → (add_transitions cfg graph ts).0 ≡ none
    → contains (lookup_list s (add_transitions cfg graph ts).1) t
      ≡ (contains (lookup_list s graph) t || allowed_in ts s t)
unfolding add_transitions allowed_in
add_transitions-Edge cfg [] graph s t e = ground arith
add_transitions-Edge cfg (x ∷ ts) graph s t e = ground (
  arith,
  e,
  add_transitions-Edge cfg ts graph s t,
  add_transitions-Edge cfg ts (add_edge x.from x.to graph) s t,
  Edge-add_edge x.from x.to graph s t,
)

pub add_retries-Edge :
    (cfg : StateMachineConfig) (states : List (String × StateConfig)) (graph : Graph) (s t : String)
    → (add_retries cfg graph states).0 ≡ none
    → contains (lookup_list s (add_retries cfg graph states).1) t ≡ true
    → (contains (lookup_list s graph) t ≡ true)
      ⊎ ((state : StateConfig) × Memᴰ (s, state) states
          × (state.auto_retry ≡ true)
          × (retry_target cfg state ≡ t))
unfolding add_retries
add_retries-Edge cfg [] graph s t e i = inl i
add_retries-Edge cfg ((name, state) ∷ more) graph s t e i =
    let target = retry_target cfg state in
    elim (Bool-cases (state.auto_retry && not (str_eq target name))) [
      | inr n ↦
          later
            (add_retries-Edge cfg more graph s t (ground (arith, e, n)) (ground (arith, e, i, n)))
      | inl y ↦
          elim (add_retries-Edge cfg more (add_edge name target graph) s t (ground (arith, e, y))
            (ground (arith, e, i, y))) [
              | inr m ↦ later (inr m)
              | inl g ↦ elim (Bool-cases (str_eq name s && str_eq target t)) [
                | inl h ↦ inr (
                  state,
                  Memᴰ.head (ap (λ (x : String). (x, state)) (ground (arith, h, eq_iff name s))),
                  ground (arith, y),
                  ground (arith, h, eq_iff target t),
                )
                | inr h ↦ inl (ground (arith, g, h, Edge-add_edge name target graph s t))
              ]
            ]
    ]
  where
    later :
        (contains (lookup_list s graph) t ≡ true)
          ⊎ ((x : StateConfig) × Memᴰ (s, x) more
              × (x.auto_retry ≡ true)
              × (retry_target cfg x ≡ t))
        → (contains (lookup_list s graph) t ≡ true)
          ⊎ ((x : StateConfig) × Memᴰ (s, x) ((name, state) ∷ more)
              × (x.auto_retry ≡ true)
              × (retry_target cfg x ≡ t))
    later (inl a) = inl a
    later (inr (x, m, a, b)) = inr (x, Memᴰ.tail m, a, b)
