-- ===== src/Policy/Manager/Calls.antt =====
-- pkg/policy/manager.go: the calls on the manager, one after another, and what a failed one leaves.
use nuts.Base.{
  ◌≡◌, refl, sym, ap, subst, Bool, true, false, Option, none, some, String, eq_iff, eq_refl, arith,
  Option-cases, Bool-cases, inl, inr, ◌∙◌, lookup, lookup-insert, str_eq,
}
use nuts.Db.{is_some}
use nuts.Policy.{Policy}
use nuts.Policy.Store.{PolicyStore, PolicyStoreLaws, PolicyListLaws}
use nuts.Policy.Manager.{
  DslEngine, PolicyManager, ManagerError, register_engine, validate_policy, compile_policy,
  add_policy, remove_policy, update_policy, get_policy, set_enabled, reload_policies,
}
use nuts.Policy.Manager.Compiled.{
  Compiled, Checks, Checked, add_policy-Compiled, remove_policy-Compiled, update_policy-Compiled,
}
use nuts.Policy.Manager.Reload.{reload_policies-Compiled, reload_succeeds, reload_policies-engines}

-- The calls that change the manager.
pub data Call (X P E : Type 0) : Type 0 where
  register_dsl : DslEngine P E → Call X P E
  add : Policy X → Call X P E
  remove : String → Call X P E
  update : Policy X → Call X P E
  enable disable : String → Call X P E
  reload : Call X P E

module _ {S X P E : Type 0} (ops : PolicyStore S X) where
  unfoldable pub perform :
      PolicyManager S P E → Call X P E → Option ManagerError × PolicyManager S P E
  perform m (register_dsl engine) = (none, register_engine m engine)
  perform m (add p) = add_policy ops m p
  perform m (remove k) = remove_policy ops m k
  perform m (update p) = update_policy ops m p
  perform m (enable k) = set_enabled ops true m k
  perform m (disable k) = set_enabled ops false m k
  perform m reload = reload_policies ops m

  -- The engine that is registered is of a new type and validates what it compiles, and a reload can
  -- list the policies. The other calls need nothing.
  abbrev pub Admissible : PolicyManager S P E → Call X P E → Type 0
  Admissible m (register_dsl engine) = (lookup engine.get_type m.engines ≡ none) × Checks engine
  Admissible m (add p) = Unit
  Admissible m (remove k) = Unit
  Admissible m (update p) = Unit
  Admissible m (enable k) = Unit
  Admissible m (disable k) = Unit
  Admissible m reload = is_some (ops.list m.store) ≡ true

module _ {S X P E : Type 0} {Good : S → Type 0} {view : S → String → Option (Policy X)}
    {ops : PolicyStore S X} (laws : PolicyStoreLaws ops Good view) where
  set_enabled-Compiled :
      (b : Bool) (m : PolicyManager S P E) (k : String)
      → Checked m
      → Good m.store
      → Compiled view m
      → Good (set_enabled ops b m k).1.store
        × Compiled view (set_enabled ops b m k).1
        × ((set_enabled ops b m k).1.engines ≡ m.engines)
  unfolding set_enabled get_policy
  set_enabled-Compiled b m k checked g h =
      let (g', found, same) = laws.get-view m.store k g in
      let m' : PolicyManager S P E = record m { store = (ops.get m.store k).1 } in
      let h' : Compiled view m' = λ j q i. h j q (sym (same j) ∙ i) in
      elim (Option-cases (ops.get m.store k).0) [
        | inl n ↦ rw (set_enabled, get_policy, n) (g', h', refl)
        | inr (p, n) ↦
            rw (set_enabled, get_policy, n)
              (update_policy-Compiled laws m' (record p { enabled = b }) checked g' h')
      ]

  register_engine-Compiled :
      (m : PolicyManager S P E) (engine : DslEngine P E)
      → lookup engine.get_type m.engines ≡ none
      → Checks engine
      → Checked m
      → Compiled view m
      → Compiled view (register_engine m engine) × Checked (register_engine m engine)
  unfolding register_engine
  register_engine-Compiled m engine fresh checks checked h = (
    λ k p at.
        let (e, l, (old, program, there, c, x)) = h k p at in
        (
          e,
          l,
          (
            old,
            program,
            ground (
              arith,
              there,
              fresh,
              lookup-insert engine.get_type p.dsl_engine engine m.engines,
              eq_iff engine.get_type p.dsl_engine,
            ),
            c,
            x,
          ),
        ),
    λ type other there. elim (Bool-cases (str_eq engine.get_type type)) [
      | inl y ↦
          let same : engine ≡ other =
            ground (arith, there, y, lookup-insert engine.get_type type engine m.engines) in
          subst Checks same checks
      | inr n ↦
          checked type other
            (ground (arith, there, n, lookup-insert engine.get_type type engine m.engines))
    ],
  )

  with_engines :
      (m m' : PolicyManager S P E)
      → Checked m
      → Good m'.store × Compiled view m' × (m'.engines ≡ m.engines)
      → Good m'.store × Compiled view m' × Checked m'
  with_engines m m' checked (g, h, same) =
      (g, h, λ type engine there. checked type engine (sym (ap (lookup type) same) ∙ there))

  -- Over a store that meets its contract every call keeps each stored policy compiled from its
  -- present text by its engine, and that the engines validate exactly what they compile:
  -- registering an engine of a new type that does so, adding, removing, updating, enabling and
  -- disabling, whether or not they succeed, and a reload when the store lists its policies.
  pub perform-Compiled :
      PolicyListLaws ops Good view
      → (m : PolicyManager S P E) (c : Call X P E) → Admissible ops m c
      → Checked m
      → Good m.store
      → Compiled view m
      → Good (perform ops m c).1.store
        × Compiled view (perform ops m c).1
        × Checked (perform ops m c).1
  unfolding perform
  perform-Compiled listing m (register_dsl engine) (fresh, checks) k g h =
      let (h', k') = register_engine-Compiled m engine fresh checks k h in
      (unfold register_engine in g, h', k')
  perform-Compiled listing m (add p) ok k g h =
      with_engines m (add_policy ops m p).1 k (add_policy-Compiled laws m p k g h)
  perform-Compiled listing m (remove i) ok k g h =
      with_engines m (remove_policy ops m i).1 k (remove_policy-Compiled laws m i g h)
  perform-Compiled listing m (update p) ok k g h =
      with_engines m (update_policy ops m p).1 k (update_policy-Compiled laws m p k g h)
  perform-Compiled listing m (enable i) ok k g h =
      with_engines m (set_enabled ops true m i).1 k (set_enabled-Compiled true m i k g h)
  perform-Compiled listing m (disable i) ok k g h =
      with_engines m (set_enabled ops false m i).1 k (set_enabled-Compiled false m i k g h)
  perform-Compiled listing m reload ok k g h =
      let (st, h') = reload_policies-Compiled listing m g (reload_succeeds listing m g h ok) in
      with_engines m (reload_policies ops m).1 k
        (subst Good (sym st) g, h', reload_policies-engines ops m)

  -- A policy that cannot be added leaves the stored policies, the programs and the engines as they
  -- were, when what was just stored can be deleted.
  pub add_policy_failed_lem :
      ((s : S) (k : String) (p : Policy X)
        → view s k ≡ some p
        → (s' : S) × (ops.delete s k ≡ some s'))
      → (m : PolicyManager S P E) (p : Policy X) (er : ManagerError) → Good m.store
      → (add_policy ops m p).0 ≡ some er
      → ((j : String) → view (add_policy ops m p).1.store j ≡ view m.store j)
        × ((add_policy ops m p).1.programs ≡ m.programs)
        × ((add_policy ops m p).1.engines ≡ m.engines)
  unfolding add_policy
  add_policy_failed_lem undo m p er g e = elim (Bool-cases (validate_policy m p)) [
    | inr n ↦ rw (add_policy, n) (λ j. refl, refl, refl)
    | inl y ↦ elim (Option-cases (ops.create m.store p)) [
      | inl n ↦ rw (add_policy, y, n) (λ j. refl, refl, refl)
      | inr ((p', s), n) ↦
          let (g', fresh, shape, seen) = laws.create-view m.store s p p' g n in
          let same : p'.id ≡ p.id = ap (λ (x : Policy X). x.id) shape in
          elim (Option-cases (compile_policy (record m { store = s }) p')) [
            | inr (m', c) ↦ absurd (ground (arith, e, y, n, c))
            | inl c ↦
                let (s', d) = undo s p'.id p' (ground (arith, seen p'.id, same, eq_refl p'.id)) in
                let (g'', gone) = laws.delete-view s s' p'.id g' d in
                rw (add_policy, y, n, c, d)
                  (λ j. ground (arith, gone j, seen j, fresh, same, eq_iff p.id j), refl, refl)
          ]
    ]
  ]
