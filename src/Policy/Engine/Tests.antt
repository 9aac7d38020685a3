-- ===== src/Policy/Engine/Tests.antt =====
-- Concrete runs of the policy engine.
use nuts.Base.{◌≡◌, ◌↔◌, refl, true, none, some, List, [], ◌∷◌, String, ℕ, lookup, Memᴰ, insert}
use nuts.Policy.{Policy, PolicyMatch}
use nuts.Policy.Store.Memory.{Policies, memory, list_enabled, values, create, get}
use nuts.Policy.Store.Memory.Listing.{memory-PolicyListLaws, memory-PolicyStoreLaws}
use nuts.Policy.Manager.{
  set_enabled, get_policy, new_policy_manager, add_policy, validate_policy, validate_policy_temp,
  compile_policy, register_engine, get_compiled_program, evaluate_with_ctx,
}
use nuts.Policy.Manager.Calls.{Call, perform, register_dsl, add, disable}
use nuts.Policy.Manager.Tests.{
  text_engine, text_engine-Checks, a_policy, one_policy, one_policy-Compiled,
}
use nuts.Policy.Engine.{PolicyEngine, new_policy_engine, match_event, evaluate_policy, evaluate}
use nuts.Policy.Engine.Managed.{perform_all, AllAdmissible, managed_match_lem}
use nuts.Policy.Engine.Matching.{report, verdict, match_event_lem, evaluate_lem}

abbrev an_engine : PolicyEngine (Policies ℕ) String String
an_engine = new_policy_engine one_policy

abbrev a_match : PolicyMatch ℕ
a_match = record { policy_id = "p"; matched = true; error = none; expansion = 7; timeout = "1s" }

as_listed : List (PolicyMatch ℕ) → List (PolicyMatch ℕ)
as_listed xs = xs

matched_x : (match_event memory as_listed an_engine "x").0 ≡ some (a_match ∷ [])
unfolding as_listed match_event list_enabled values perform add_policy validate_policy
    validate_policy_temp compile_policy register_engine create lookup insert evaluate_policy
    get_compiled_program evaluate_with_ctx
matched_x = refl

as_listed_same : (xs : List (PolicyMatch ℕ)) (x : PolicyMatch ℕ) → Memᴰ x (as_listed xs) ↔ Memᴰ x xs
unfolding as_listed
as_listed_same xs x = (λ m. m, λ m. m)

match_event_lem_example : Memᴰ a_match (a_match ∷ []) ↔ (
    (p : Policy ℕ) × (lookup p.id one_policy.store ≡ some p)
    × (p.enabled ≡ true)
    × (a_match ≡ report one_policy.engines "x" p))
match_event_lem_example =
    match_event_lem memory-PolicyListLaws as_listed as_listed_same an_engine "x" (a_match ∷ [])
      one_policy-Compiled.0 one_policy-Compiled.1 matched_x a_match

evaluate_lem_example : (evaluate memory an_engine "p" "x").0 ≡ (elim (lookup "p" one_policy.store) [
  | none ↦ none
  | some p ↦ verdict one_policy.engines "x" p
])
evaluate_lem_example =
    evaluate_lem memory-PolicyListLaws memory-PolicyStoreLaws an_engine "p" "x"
      one_policy-Compiled.0 one_policy-Compiled.1

abbrev some_calls : List (Call ℕ String String)
some_calls =
    register_dsl text_engine
    ∷ (add (a_policy "p" "x" true) ∷ (add (a_policy "q" "bad" true) ∷ (disable "r" ∷ [])))

abbrev managed : PolicyEngine (Policies ℕ) String String
managed = new_policy_engine (perform_all memory (new_policy_manager []) some_calls)

managed_x : (match_event memory as_listed managed "x").0 ≡ some (a_match ∷ [])
unfolding as_listed match_event list_enabled values perform_all perform add_policy validate_policy
    validate_policy_temp compile_policy register_engine create lookup insert evaluate_policy
    get_compiled_program evaluate_with_ctx set_enabled get_policy get
managed_x = refl

some_calls_ok : AllAdmissible memory (new_policy_manager []) some_calls
unfolding lookup
some_calls_ok = ((refl, text_engine-Checks), (tt, (tt, (tt, tt))))

no_policy : (k : String) → lookup {V = Policy ℕ} k [] ≡ none
unfolding lookup
no_policy k = refl

managed_match_lem_example : Memᴰ a_match (a_match ∷ []) ↔ (
    (p : Policy ℕ) × (lookup p.id managed.manager.store ≡ some p)
    × (p.enabled ≡ true)
    × (a_match ≡ report managed.manager.engines "x" p))
managed_match_lem_example =
    managed_match_lem memory-PolicyStoreLaws memory-PolicyListLaws as_listed as_listed_same [] tt
      no_policy some_calls some_calls_ok managed "x" (a_match ∷ []) refl managed_x a_match
