-- ===== src/Policy/Engine/Matching.antt =====
-- pkg/policy/engine.go: what the engine makes of an event, against evaluating each policy's text.
use nuts.Base.{
  ◌≡◌, ◌↔◌, refl, sym, subst, Bool, true, false, Option, none, some, List, String, lookup, arith,
  Option-cases, inl, inr, Memᴰ, map, mem-map, ◌∙◌,
}
use nuts.Policy.{Policy, PolicyMatch, eval_failed}
use nuts.Policy.Store.{PolicyStore, PolicyStoreLaws, PolicyListLaws}
use nuts.Policy.Manager.{
  get_policy, DslEngine, PolicyManager, get_compiled_program, evaluate_with_ctx,
}
use nuts.Policy.Manager.Compiled.{Compiled, HasProgram}
use nuts.Policy.Engine.{PolicyEngine, evaluate_policy, match_event, evaluate}

-- The policy's text, evaluated by its engine as it stands, without any stored program.
abbrev pub verdict : {P E X : Type 0} → List (String × DslEngine P E) → E → Policy X → Option Bool
verdict engines input p = elim (lookup p.dsl_engine engines) [
  | none ↦ none
  | some engine ↦ elim (engine.compile p.dsl) [
    | none ↦ none
    | some program ↦ engine.evaluate_with_ctx program input
  ]
]

-- What a match should report of a policy.
abbrev pub report : {P E X : Type 0} → List (String × DslEngine P E) → E → Policy X → PolicyMatch X
report engines input p = elim (verdict engines input p) [
  | none ↦ record {
    policy_id = p.id;
    matched = false;
    error = some eval_failed;
    expansion = p.expansion;
    timeout = p.timeout;
  }
  | some b ↦ record {
    policy_id = p.id;
    matched = b;
    error = none;
    expansion = p.expansion;
    timeout = p.timeout;
  }
]

module _ {S X P E : Type 0} where
  evaluate_policy-report :
      (m : PolicyManager S P E) (input : E) (p : Policy X)
      → HasProgram m p.id p
      → evaluate_policy m input p ≡ report m.engines input p
  unfolding evaluate_policy get_compiled_program evaluate_with_ctx
  evaluate_policy-report m input p (e, l, (engine, program, n, c, x)) =
      elim (Option-cases (engine.evaluate_with_ctx program input)) [
        | inl v ↦ ground (arith, l, n, c, x, v)
        | inr (b, v) ↦ ground (arith, l, n, c, x, v)
      ]

  module _ {Good : S → Type 0} {view : S → String → Option (Policy X)} {ops : PolicyStore S X}
      (listing : PolicyListLaws ops Good view) where
    -- Over a store that meets its contract, when every stored policy has a program compiled from
    -- its present text, a match that succeeds reports, in whatever order the evaluations end,
    -- exactly one kind of result: for each enabled policy of the store, what evaluating its present
    -- text gives.
    pub match_event_lem :
        (order : List (PolicyMatch X) → List (PolicyMatch X))
        → ((xs : List (PolicyMatch X)) (x : PolicyMatch X) → Memᴰ x (order xs) ↔ Memᴰ x xs)
        → (e : PolicyEngine S P E) (input : E) (results : List (PolicyMatch X))
        → Good e.manager.store
        → Compiled view e.manager
        → (match_event ops order e input).0 ≡ some results
        → (r : PolicyMatch X)
        → Memᴰ r results ↔ (
            (p : Policy X) × (view e.manager.store p.id ≡ some p)
            × (p.enabled ≡ true)
            × (r ≡ report e.manager.engines input p))
    unfolding match_event
    match_event_lem order same e input results g h done r =
        elim (Option-cases (ops.list_enabled e.manager.store)) [
          | inl n ↦ absurd (ground (arith, n, done))
          | inr (ps, n) ↦
              let out : order (map (evaluate_policy e.manager input) ps) ≡ results =
                ground (arith, n, done) in
              let (there, back) = same (map (evaluate_policy e.manager input) ps) r in
              let (some_policy, of_policy) = mem-map (evaluate_policy e.manager input) ps r in
              (
                λ m.
                    let (p, t, i) = some_policy (there (subst (Memᴰ r) (sym out) m)) in
                    let (at, on) = (listing.enabled-view e.manager.store ps p g n).0 t in
                    (p, at, on, i ∙ evaluate_policy-report e.manager input p (h p.id p at)),
                λ (p, at, on, i). subst (Memᴰ r) out (
                    back (
                      of_policy (
                        p,
                        (listing.enabled-view e.manager.store ps p g n).1 (at, on),
                        i ∙ sym (evaluate_policy-report e.manager input p (h p.id p at)),
                      ))),
              )
        ]

    -- Over a store that meets its contract, when every stored policy has a program compiled from
    -- its present text, evaluating one policy answers what that text gives, with an error exactly
    -- where the policy is not stored or its text fails.
    pub evaluate_lem :
        PolicyStoreLaws ops Good view
        → (e : PolicyEngine S P E) (id : String) (input : E) → Good e.manager.store
        → Compiled view e.manager
        → (evaluate ops e id input).0 ≡ (elim (view e.manager.store id) [
          | none ↦ none
          | some p ↦ verdict e.manager.engines input p
        ])
    unfolding evaluate get_policy
    evaluate_lem laws e id input g h =
        let (g', found, same) = laws.get-view e.manager.store id g in
        elim (Option-cases (ops.get e.manager.store id).0) [
          | inl n ↦
              let at : view e.manager.store id ≡ none = sym found ∙ n in
              rw (evaluate, get_policy, n, at) refl
          | inr (p, n) ↦
              let at : view e.manager.store id ≡ some p = sym found ∙ n in
              let own = listing.id-view e.manager.store id p g at in
              let has = subst (λ j. HasProgram e.manager j p) (sym own) (h id p at) in
              let there =
                evaluate_policy-report
                  (record (e.manager) { store = (ops.get e.manager.store id).1 }) input p has in
              elim (Option-cases (verdict e.manager.engines input p)) [
                | inl v ↦ ground (arith, n, at, there, v)
                | inr (b, v) ↦ ground (arith, n, at, there, v)
              ]
        ]
