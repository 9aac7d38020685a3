-- ===== src/Policy/Engine/Managed.antt =====
-- pkg/policy/manager.go and engine.go together: matches after any calls on the manager.
use nuts.Base.{
  ◌≡◌, ◌↔◌, sym, subst, true, Option, none, some, List, [], ◌∷◌, String, Memᴰ, arith, lookup,
}
use nuts.Policy.{Policy, PolicyMatch}
use nuts.Policy.Store.{PolicyStore, PolicyStoreLaws, PolicyListLaws}
use nuts.Policy.Manager.{PolicyManager, new_policy_manager}
use nuts.Policy.Manager.Compiled.{Compiled, Checked}
use nuts.Policy.Manager.Calls.{Call, perform, Admissible, perform-Compiled}
use nuts.Policy.Engine.{PolicyEngine, match_event}
use nuts.Policy.Engine.Matching.{report, match_event_lem}

module _ {S X P E : Type 0} (ops : PolicyStore S X) where
  -- The calls one after another, whatever each of them returns.
  unfoldable pub perform_all : PolicyManager S P E → List (Call X P E) → PolicyManager S P E
  perform_all m [] = m
  perform_all m (c ∷ calls) = perform_all (perform ops m c).1 calls

  -- Each call is admissible when it comes.
  abbrev pub AllAdmissible : PolicyManager S P E → List (Call X P E) → Type 0
  AllAdmissible m [] = Unit
  AllAdmissible m (c ∷ calls) = Admissible ops m c × AllAdmissible (perform ops m c).1 calls

module _ {S X P E : Type 0} {Good : S → Type 0} {view : S → String → Option (Policy X)}
    {ops : PolicyStore S X} (laws : PolicyStoreLaws ops Good view)
    (listing : PolicyListLaws ops Good view) where
  perform_all-Compiled :
      (m : PolicyManager S P E) (calls : List (Call X P E))
      → AllAdmissible ops m calls
      → Checked m
      → Good m.store
      → Compiled view m
      → Good (perform_all ops m calls).store × Compiled view (perform_all ops m calls)
  unfolding perform_all
  perform_all-Compiled m [] ok k g h = (g, h)
  perform_all-Compiled m (c ∷ calls) (ok, more) k g h =
      let (g', h', k') = perform-Compiled laws listing m c ok k g h in
      perform_all-Compiled (perform ops m c).1 calls more k' g' h'

  -- A new manager over a store that meets its contract and has no policies takes any calls: it
  -- registers engines of new types that validate exactly what they compile, adds, removes, updates,
  -- enables and disables policies, with or without success, and reloads them when the store lists
  -- them. After these a match that succeeds reports, in whatever order the evaluations end, for
  -- each enabled policy of the store what evaluating its present text gives, and nothing else.
  pub managed_match_lem :
      (order : List (PolicyMatch X) → List (PolicyMatch X))
      → ((xs : List (PolicyMatch X)) (x : PolicyMatch X) → Memᴰ x (order xs) ↔ Memᴰ x xs)
      → (s : S) → Good s
      → ((k : String) → view s k ≡ none)
      → (calls : List (Call X P E)) → AllAdmissible ops (new_policy_manager s) calls
      → (e : PolicyEngine S P E) (input : E) (results : List (PolicyMatch X))
      → e.manager ≡ perform_all ops (new_policy_manager s) calls
      → (match_event ops order e input).0 ≡ some results
      → (r : PolicyMatch X)
      → Memᴰ r results ↔ (
          (p : Policy X) × (view e.manager.store p.id ≡ some p)
          × (p.enabled ≡ true)
          × (r ≡ report e.manager.engines input p))
  unfolding lookup
  managed_match_lem order same s g empty calls ok e input results at done r =
      let start : PolicyManager S P E = new_policy_manager s in
      let (g', h') =
        perform_all-Compiled start calls ok (λ type engine i. absurd (ground (arith, i))) g
          (λ k p i. absurd (ground (arith, i, empty k))) in
      let both =
        subst (λ (m : PolicyManager S P E). Good m.store × Compiled view m) (sym at) (g', h') in
      match_event_lem listing order same e input results both.0 both.1 done r
