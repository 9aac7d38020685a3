-- ===== src/Policy/Manager/Tests.antt =====
-- Concrete runs of the policy stores and the manager.
use nuts.Base.{
  ◌≡◌, refl, subst, not, Bool, true, none, some, [], String, ℕ, if◌then◌else◌, str_eq, lookup,
  arith, erase, insert,
}
use nuts.Policy.{Policy}
use nuts.Policy.Store.Memory.{Policies, memory, delete, create}
use nuts.Policy.Store.Memory.Listing.{Keyed, memory-PolicyStoreLaws, memory-PolicyListLaws}
use nuts.Policy.Manager.{
  DslEngine, PolicyManager, compile_failed, new_policy_manager, validate_policy,
  validate_policy_temp, compile_policy, register_engine, add_policy,
}
use nuts.Policy.Manager.Compiled.{Compiled, Checks, Checked}
use nuts.Policy.Manager.Calls.{add, update, perform, perform-Compiled, add_policy_failed_lem}

-- An engine whose programs are texts, which match themselves.
abbrev pub text_engine : DslEngine String String
text_engine = record {
  get_type = "text";
  validate = λ t. not (str_eq t "bad");
  compile = λ t. if str_eq t "bad" then none else some t;
  evaluate_with_ctx = λ t input. if str_eq t "boom" then none else some (str_eq t input);
}

abbrev pub a_policy : String → String → Bool → Policy ℕ
a_policy id text on = record {
  id = id;
  description = "";
  enabled = on;
  dsl = text;
  dsl_engine = "text";
  expansion = 7;
  timeout = "1s";
  version = 1;
}

abbrev pub no_policies : PolicyManager (Policies ℕ) String String
no_policies = register_engine (new_policy_manager []) text_engine

no_policies-Compiled : Compiled (λ s k. lookup k s) no_policies
unfolding lookup register_engine
no_policies-Compiled k p e = absurd (ground (arith, e))

-- What is stored can be deleted.
pub undo :
    (s : Policies ℕ) (k : String) (p : Policy ℕ)
    → lookup k s ≡ some p
    → (s' : Policies ℕ) × (memory.delete s k ≡ some s')
unfolding delete
undo s k p e = (erase k s, ground (arith, e))

pub text_engine-Checks : Checks text_engine
text_engine-Checks text = ground arith

no_policies-Checked : Checked no_policies
unfolding lookup register_engine insert
no_policies-Checked type engine e =
    let same : text_engine ≡ engine = ground (arith, e) in subst Checks same text_engine-Checks

-- A manager that holds one enabled policy.
abbrev pub one_policy : PolicyManager (Policies ℕ) String String
one_policy = (perform memory no_policies (add (a_policy "p" "x" true))).1

pub one_policy-Compiled :
    Keyed one_policy.store × Compiled (λ s k. lookup k s) one_policy × Checked one_policy
unfolding register_engine
one_policy-Compiled =
    perform-Compiled memory-PolicyStoreLaws memory-PolicyListLaws no_policies
      (add (a_policy "p" "x" true)) tt no_policies-Checked tt no_policies-Compiled

perform-Compiled_example :
    Keyed (perform memory one_policy (update (a_policy "p" "y" true))).1.store
    × Compiled (λ s k. lookup k s) (perform memory one_policy (update (a_policy "p" "y" true))).1
    × Checked (perform memory one_policy (update (a_policy "p" "y" true))).1
perform-Compiled_example =
    perform-Compiled memory-PolicyStoreLaws memory-PolicyListLaws one_policy
      (update (a_policy "p" "y" true)) tt one_policy-Compiled.2 one_policy-Compiled.0
      one_policy-Compiled.1

-- An engine that validates more than it compiles.
abbrev lax_engine : DslEngine String String
lax_engine = record text_engine { validate = λ t. true }

abbrev lax : PolicyManager (Policies ℕ) String String
lax = register_engine one_policy lax_engine

abbrev bad_policy : Policy ℕ
bad_policy = a_policy "q" "bad" true

bad_add : (add_policy memory lax bad_policy).0 ≡ some compile_failed
unfolding perform add_policy validate_policy validate_policy_temp compile_policy register_engine
    create delete lookup insert erase
bad_add = refl

add_policy_failed_lem_example :
    ((j : String) → lookup j (add_policy memory lax bad_policy).1.store ≡ lookup j lax.store)
    × ((add_policy memory lax bad_policy).1.programs ≡ lax.programs)
    × ((add_policy memory lax bad_policy).1.engines ≡ lax.engines)
add_policy_failed_lem_example =
    add_policy_failed_lem memory-PolicyStoreLaws undo lax bad_policy compile_failed
      (unfold register_engine in (one_policy-Compiled.0)) bad_add
