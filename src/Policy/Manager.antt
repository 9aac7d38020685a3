-- ===== src/Policy/Manager.antt =====
-- pkg/policy/manager.go, `DefaultPolicyManager`, and pkg/policy/dsl.go. The handlers run one at a
-- time here. A DSL engine is a parameter: the value type `P` stands for its programs and `E` for what
-- a program is evaluated on, the event's data and the context. What a store gives is a copy, as in
-- both stores that are modelled.
use nuts.Base.{
  Bool, true, false, not, ◌&&◌, Option, none, some, List, [], ◌∷◌, ◌++◌, String, ℕ, if◌then◌else◌,
  is_empty, lookup, insert, erase, length,
}
use nuts.Policy.{Policy}
use nuts.Policy.Store.{PolicyStore}
pub mod Compiled
pub mod Calls
pub mod Reload
pub mod Tests

-- `DSLEngine`; `none` is an error.
pub record DslEngine (P E : Type 0) : Type 0 where
  pub get_type : String
  pub validate : String → Bool
  pub compile : String → Option P
  pub evaluate_with_ctx : P → E → Option Bool

-- `DSLExpression`; `compiled` may be nil.
pub record DslExpression (P E : Type 0) : Type 0 where
  pub raw : String
  pub compiled : Option P
  pub engine : DslEngine P E

-- `DefaultPolicyManager`, over the state of its store, with the programs that were closed.
pub record PolicyManager (S P E : Type 0) : Type 0 where
  pub store : S
  pub engines : List (String × DslEngine P E)
  pub programs : List (String × DslExpression P E)
  pub closed : List (Option P)

-- The errors of the manager, by the step that failed.
pub data ManagerError : Type 0 where
  invalid store_failed compile_failed : ManagerError

-- `ManagerStats`
pub record ManagerStats : Type 0 where
  pub total_policies : ℕ
  pub enabled_policies : ℕ
  pub compiled_policies : ℕ
  pub registered_engines : ℕ

module _ {P E : Type 0} where
  -- `DSLExpression.EvaluateWithCtx`
  unfoldable pub evaluate_with_ctx : DslExpression P E → E → Option Bool
  evaluate_with_ctx e input = elim e.compiled [
    | none ↦ none
    | some program ↦ e.engine.evaluate_with_ctx program input
  ]

  -- The loop that closes every program.
  abbrev pub programs_of : List (String × DslExpression P E) → List (Option P)
  programs_of [] = []
  programs_of ((k, e) ∷ m) = e.compiled ∷ programs_of m

-- `NewDefaultPolicyManager`
abbrev pub new_policy_manager : {S P E : Type 0} → S → PolicyManager S P E
new_policy_manager s = record { store = s; engines = []; programs = []; closed = [] }

-- `RegisterEngine`
unfoldable pub register_engine :
    {S P E : Type 0} → PolicyManager S P E → DslEngine P E → PolicyManager S P E
register_engine m engine = record m { engines = insert engine.get_type engine m.engines }

unfoldable pub get_compiled_program :
    {S P E : Type 0} → PolicyManager S P E → String → Option (DslExpression P E)
get_compiled_program m id = lookup id m.programs

module _ {S X P E : Type 0} where
  unfoldable pub validate_policy_temp : PolicyManager S P E → Policy X → Bool
  validate_policy_temp m p =
      not (is_empty p.dsl)
      && (not (is_empty p.dsl_engine) && (elim (lookup p.dsl_engine m.engines) [
        | none ↦ false
        | some engine ↦ engine.validate p.dsl
      ]))

  unfoldable pub validate_policy : PolicyManager S P E → Policy X → Bool
  unfolding validate_policy_temp
  validate_policy m p = not (is_empty p.id) && validate_policy_temp m p

  -- `compilePolicy`; `none` is an error, after which the manager is as before.
  unfoldable pub compile_policy : PolicyManager S P E → Policy X → Option (PolicyManager S P E)
  compile_policy m p = elim (lookup p.dsl_engine m.engines) [
    | none ↦ none
    | some engine ↦ elim (engine.compile p.dsl) [
      | none ↦ none
      | some program ↦
          let expression : DslExpression P E = record {
            raw = p.dsl;
            compiled = some program;
            engine = engine;
          } in
          let closed' : List (Option P) = elim (lookup p.id m.programs) [
            | none ↦ m.closed
            | some old ↦ old.compiled ∷ m.closed
          ] in
          some (record m { programs = insert p.id expression m.programs; closed = closed' })
    ]
  ]

  -- The loop of `ReloadPolicies`: the first policy that does not compile ends it.
  unfoldable pub compile_all :
      PolicyManager S P E → List (Policy X) → Option ManagerError × PolicyManager S P E
  compile_all m [] = (none, m)
  compile_all m (p ∷ ps) = elim (compile_policy m p) [
    | none ↦ (some compile_failed, m)
    | some m' ↦ compile_all m' ps
  ]

  module _ (ops : PolicyStore S X) where
    unfoldable pub add_policy :
        PolicyManager S P E → Policy X → Option ManagerError × PolicyManager S P E
    unfolding validate_policy compile_policy
    add_policy m p =
        if not (validate_policy m p) then (some invalid, m) else elim (ops.create m.store p) [
          | none ↦ (some store_failed, m)
          | some (p', s) ↦
              let stored = record m { store = s } in
              elim (compile_policy stored p') [
                | some m' ↦ (none, m')
                | none ↦ elim (ops.delete s p'.id) [
                  | none ↦ (some compile_failed, stored)
                  | some s' ↦ (some compile_failed, record m { store = s' })
                ]
              ]
        ]

    unfoldable pub remove_policy :
        PolicyManager S P E → String → Option ManagerError × PolicyManager S P E
    remove_policy m id = elim (ops.delete m.store id) [
      | none ↦ (some store_failed, m)
      | some s ↦ elim (lookup id m.programs) [
        | none ↦ (none, record m { store = s })
        | some program ↦ (
          none,
          record m {
            store = s;
            programs = erase id m.programs;
            closed = program.compiled ∷ m.closed;
          },
        )
      ]
    ]

    unfoldable pub update_policy :
        PolicyManager S P E → Policy X → Option ManagerError × PolicyManager S P E
    unfolding validate_policy compile_policy
    update_policy m p =
        if not (validate_policy m p) then (some invalid, m) else elim (ops.update m.store p) [
          | none ↦ (some store_failed, m)
          | some (p', s) ↦
              let stored = record m { store = s } in
              elim (compile_policy stored p') [
                | some m' ↦ (none, m')
                | none ↦ (some compile_failed, stored)
              ]
        ]

    unfoldable pub get_policy :
        PolicyManager S P E → String → Option (Policy X) × PolicyManager S P E
    get_policy m id = let (found, s) = ops.get m.store id in (found, record m { store = s })

    unfoldable pub list_policies : PolicyManager S P E → Option (List (Policy X))
    list_policies m = ops.list m.store

    -- `EnablePolicy` and `DisablePolicy`, by the flag that they set.
    unfoldable pub set_enabled :
        Bool → PolicyManager S P E → String → Option ManagerError × PolicyManager S P E
    unfolding get_policy update_policy
    set_enabled b m id =
        let (found, m') = get_policy m id in
        elim found [
          | none ↦ (some store_failed, m')
          | some p ↦ update_policy m' (record p { enabled = b })
        ]

    abbrev pub enable_policy :
        PolicyManager S P E → String → Option ManagerError × PolicyManager S P E
    enable_policy = set_enabled true

    abbrev pub disable_policy :
        PolicyManager S P E → String → Option ManagerError × PolicyManager S P E
    disable_policy = set_enabled false

    unfoldable pub reload_policies : PolicyManager S P E → Option ManagerError × PolicyManager S P E
    unfolding compile_all
    reload_policies m =
        let cleared = record m { programs = []; closed = programs_of m.programs ++ m.closed } in
        elim (ops.list m.store) [
          | none ↦ (some store_failed, cleared)
          | some policies ↦ compile_all cleared policies
        ]

    -- `GetStats`: an error counts as zero.
    unfoldable pub get_stats : PolicyManager S P E → ManagerStats
    get_stats m = record {
      total_policies = elim (ops.count m.store) [ none ↦ 0 | some n ↦ n ];
      enabled_policies = elim (ops.list_enabled m.store) [ none ↦ 0 | some ps ↦ length ps ];
      compiled_policies = length m.programs;
      registered_engines = length m.engines;
    }

    -- `ValidatePolicy`
    unfoldable pub validate_stored : PolicyManager S P E → String → Bool × PolicyManager S P E
    unfolding get_policy
    validate_stored m id =
        let (found, m') = get_policy m id in
        elim found [
          | none ↦ (false, m')
          | some p ↦ elim (lookup p.dsl_engine m'.engines) [
            | none ↦ (false, m')
            | some engine ↦ (engine.validate p.dsl, m')
          ]
        ]
