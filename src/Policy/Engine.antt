-- ===== src/Policy/Engine.antt =====
-- pkg/policy/engine.go: `DefaultPolicyEngine`, over the manager and the store that both share. The
-- context is not cancelled; logging and the times that an evaluation and a match take are left out,
-- with the match rate, a float, and the average latency, which they feed.
use nuts.Base.{
  Bool, true, false, not, Option, none, some, List, [], ◌∷◌, String, ℕ, ◌+◌, ◌%◌, ◌^◌,
  if◌then◌else◌, length, map, select,
}
use nuts.Policy.{Policy, PolicyMatch, EvalError, not_compiled, eval_failed}
use nuts.Policy.Store.{PolicyStore}
use nuts.Policy.Manager.{
  PolicyManager, ManagerError, get_compiled_program, evaluate_with_ctx, reload_policies, get_policy,
}
pub mod Matching
pub mod Managed
mod Tests

-- `EngineStats`, each counter an int64.
pub record EngineStats : Type 0 where
  pub total_matches : ℕ
  pub total_evaluations : ℕ

-- `DefaultPolicyEngine`, with the default of `NewDefaultPolicyEngine` for its limit.
pub record PolicyEngine (S P E : Type 0) : Type 0 where
  pub manager : PolicyManager S P E
  pub stats : EngineStats

-- `NewDefaultPolicyEngine`
abbrev pub new_policy_engine : {S P E : Type 0} → PolicyManager S P E → PolicyEngine S P E
new_policy_engine m = record {
  manager = m;
  stats = record { total_matches = 0; total_evaluations = 0 };
}

-- `ResetStats`
unfoldable pub reset_stats : {S P E : Type 0} → PolicyEngine S P E → PolicyEngine S P E
reset_stats e = record e { stats = record { total_matches = 0; total_evaluations = 0 } }

-- `updateStats`
unfoldable pub update_stats : {X : Type 0} → EngineStats → List (PolicyMatch X) → EngineStats
update_stats s results = record {
  total_matches = (s.total_matches + length (select (λ r. r.matched) results)) % 2 ^ 64;
  total_evaluations = (s.total_evaluations + length results) % 2 ^ 64;
}

module _ {S X P E : Type 0} where
  -- `evaluatePolicy`
  unfoldable pub evaluate_policy : PolicyManager S P E → E → Policy X → PolicyMatch X
  unfolding get_compiled_program evaluate_with_ctx
  evaluate_policy m input p = elim (get_compiled_program m p.id) [
    | none ↦ record {
      policy_id = p.id;
      matched = false;
      error = some not_compiled;
      expansion = p.expansion;
      timeout = p.timeout;
    }
    | some program ↦ elim (evaluate_with_ctx program input) [
      | none ↦ record {
        policy_id = p.id;
        matched = false;
        error = some eval_failed;
        expansion = p.expansion;
        timeout = p.timeout;
      }
      | some matched ↦ record {
        policy_id = p.id;
        matched = matched;
        error = none;
        expansion = p.expansion;
        timeout = p.timeout;
      }
    ]
  ]

  module _ (ops : PolicyStore S X) where
    -- `Match`. The evaluations run at once: `order` puts their results in the order they end in.
    unfoldable pub match_event :
        (List (PolicyMatch X) → List (PolicyMatch X))
        → PolicyEngine S P E
        → E
        → Option (List (PolicyMatch X)) × PolicyEngine S P E
    unfolding evaluate_policy update_stats
    match_event order e input = elim (ops.list_enabled e.manager.store) [
      | none ↦ (none, e)
      | some policies ↦
          let results = order (map (evaluate_policy e.manager input) policies) in
          (some results, record e { stats = update_stats e.stats results })
    ]

    -- `Evaluate`; `none` is an error.
    unfoldable pub evaluate : PolicyEngine S P E → String → E → Option Bool × PolicyEngine S P E
    unfolding evaluate_policy get_policy
    evaluate e id input =
        let (found, m) = get_policy ops e.manager id in
        let e' = record e { manager = m } in
        elim found [
          | none ↦ (none, e')
          | some p ↦
              let verdict = evaluate_policy m input p in
              elim verdict.error [ none ↦ (some verdict.matched, e') | some err ↦ (none, e') ]
        ]

    -- `Start`
    unfoldable pub start : PolicyEngine S P E → Option ManagerError × PolicyEngine S P E
    unfolding reload_policies
    start e = let (err, m) = reload_policies ops e.manager in (err, record e { manager = m })

    -- `Health`
    unfoldable pub health : PolicyEngine S P E → Bool
    health e = elim (ops.count e.manager.store) [ none ↦ false | some n ↦ true ]
