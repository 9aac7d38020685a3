-- ===== src/Policy/Manager/Compiled.antt =====
-- pkg/policy/manager.go: the programs of the manager belong to the policies that its store holds.
use nuts.Base.{
  ◌≡◌, refl, sym, ◌∙◌, true, ℕ, false, Option, some, List, String, if◌then◌else◌, str_eq, eq_iff,
  lookup, lookup-insert, lookup-erase, arith, Option-cases, Bool-cases, inl, inr, subst, ap,
  str_eq_cases,
}
use nuts.Db.{is_some}
use nuts.Policy.{Policy}
use nuts.Policy.Store.{PolicyStore, PolicyStoreLaws}
use nuts.Policy.Manager.{
  DslEngine, DslExpression, PolicyManager, compile_policy, add_policy, remove_policy, update_policy,
  validate_policy, validate_policy_temp,
}

-- The expression is what the policy's engine compiles from the policy's text.
abbrev pub Runs :
    {X P E : Type 0} → List (String × DslEngine P E) → Policy X → DslExpression P E → Type 0
Runs {P = P} {E = E} engines p e =
    (engine : DslEngine P E) × (program : P) × (lookup p.dsl_engine engines ≡ some engine)
    × (engine.compile p.dsl ≡ some program)
    × (e ≡ record { raw = p.dsl; compiled = some program; engine = engine })

-- The manager has the policy's program under the id.
abbrev pub HasProgram : {S X P E : Type 0} → PolicyManager S P E → String → Policy X → Type 0
HasProgram {P = P} {E = E} m k p =
    (e : DslExpression P E) × (lookup k m.programs ≡ some e) × Runs m.engines p e

-- Every stored policy has a program, compiled from its present text.
abbrev pub Compiled :
    {S X P E : Type 0} → (S → String → Option (Policy X)) → PolicyManager S P E → Type 0
Compiled {X = X} view m = (k : String) (p : Policy X) → view m.store k ≡ some p → HasProgram m k p

-- The engine validates exactly the texts that it compiles, as `CEngine` does.
abbrev pub Checks : {P E : Type 0} → DslEngine P E → Type 0
Checks engine = (text : String) → engine.validate text ≡ is_some (engine.compile text)

-- Every registered engine does so.
abbrev pub Checked : {S P E : Type 0} → PolicyManager S P E → Type 0
Checked {P = P} {E = E} m =
    (type : String) (engine : DslEngine P E) → lookup type m.engines ≡ some engine → Checks engine

module _ {S X P E : Type 0} where
  -- A compiled policy has its program under its id, and the others keep theirs.
  pub compile_policy_lem :
      (m m' : PolicyManager S P E) (p : Policy X)
      → compile_policy m p ≡ some m'
      → (m'.store ≡ m.store)
        × (m'.engines ≡ m.engines)
        × ((e : DslExpression P E) × Runs m.engines p e
            × ((j : String)
                → lookup j m'.programs ≡ (if str_eq p.id j then some e else lookup j m.programs)))
  unfolding compile_policy
  compile_policy_lem m m' p e = elim (Option-cases (lookup p.dsl_engine m.engines)) [
    | inl n ↦ absurd (ground (arith, n, e))
    | inr (engine, n) ↦ elim (Option-cases (engine.compile p.dsl)) [
      | inl c ↦ absurd (ground (arith, n, c, e))
      | inr (program, c) ↦
          let x : DslExpression P E = record {
            raw = p.dsl;
            compiled = some program;
            engine = engine;
          } in
          (
            ground (arith, n, c, e),
            ground (arith, n, c, e),
            (
              x,
              (engine, program, n, c, refl),
              λ j. ground (arith, n, c, e, lookup-insert p.id j x m.programs),
            ),
          )
    ]
  ]

  -- Compiling a policy gives it its program and keeps those of the others.
  pub compile-HasProgram :
      (m m' : PolicyManager S P E) (p q : Policy X) (k : String)
      → compile_policy m p ≡ some m'
      → (p.id ≡ k → p ≡ q)
      → (str_eq p.id k ≡ false → HasProgram m k q)
      → HasProgram m' k q
  compile-HasProgram m m' p q k c here there =
      let (st, en, (e, r, l)) = compile_policy_lem m m' p c in
      elim (str_eq_cases p.id k) [
        | inl y ↦
            let r' : Runs m.engines q e = subst (λ x. Runs m.engines x e) (here y) r in
            (e, ground (arith, l k, y, eq_iff p.id k), subst (λ x. Runs x q e) (sym en) r')
        | inr n ↦
            let (e', l', r') = there n in
            (e', ground (arith, l k, l', n), subst (λ x. Runs x q e') (sym en) r')
      ]

  validated_compiles :
      (m : PolicyManager S P E) (s : S) (p p' : Policy X)
      → Checked m
      → validate_policy m p ≡ true
      → p' ≡ record p { version = p'.version }
      → (m' : PolicyManager S P E) × (compile_policy (record m { store = s }) p' ≡ some m')
  unfolding validate_policy validate_policy_temp
  validated_compiles m s p p' checked valid same =
      let text : p'.dsl ≡ p.dsl = ap (λ (x : Policy X). x.dsl) same in
      let kind : p'.dsl_engine ≡ p.dsl_engine = ap (λ (x : Policy X). x.dsl_engine) same in
      elim (Option-cases (lookup p.dsl_engine m.engines)) [
        | inl n ↦ absurd (ground (arith, valid, n))
        | inr (engine, n) ↦ elim (Option-cases (engine.compile p.dsl)) [
          | inl c ↦ absurd (ground (arith, valid, n, c, checked p.dsl_engine engine n p.dsl))
          | inr (program, c) ↦ elim (Option-cases (compile_policy (record m { store = s }) p')) [
            | inr found ↦ found
            | inl bad ↦ absurd (unfold compile_policy in ground (arith, bad, n, c, text, kind))
          ]
        ]
      ]

  module _ (view : S → String → Option (Policy X)) where
    -- Compiling the policy that was just stored keeps every program in step.
    stored-Compiled :
        (m m' : PolicyManager S P E) (s : S) (p : Policy X)
        → Compiled view m
        → ((j : String) → view s j ≡ (if str_eq p.id j then some p else view m.store j))
        → compile_policy (record m { store = s }) p ≡ some m'
        → (m'.store ≡ s) × Compiled view m'
    stored-Compiled m m' s p h seen c =
        let (st, en, found) = compile_policy_lem (record m { store = s }) m' p c in
        (
          st,
          λ k q i.
              let i' : view s k ≡ some q = subst (λ t. view t k ≡ some q) st i in
              compile-HasProgram (record m { store = s }) m' p q k c
                (λ y. ground (arith, seen k, i', y, eq_iff p.id k))
                (λ n. h k q (ground (arith, seen k, i', n))),
        )

  module _ {Good : S → Type 0} {view : S → String → Option (Policy X)} {ops : PolicyStore S X}
      (laws : PolicyStoreLaws ops Good view) where
    -- A policy that was added is compiled, and the others stay so.
    pub add_policy-Compiled :
        (m : PolicyManager S P E) (p : Policy X)
        → Checked m
        → Good m.store
        → Compiled view m
        → Good (add_policy ops m p).1.store
          × Compiled view (add_policy ops m p).1
          × ((add_policy ops m p).1.engines ≡ m.engines)
    unfolding add_policy
    add_policy-Compiled m p checked g h = elim (Bool-cases (validate_policy m p)) [
      | inr n ↦ rw (add_policy, n) (g, h, refl)
      | inl y ↦ elim (Option-cases (ops.create m.store p)) [
        | inl n ↦ rw (add_policy, y, n) (g, h, refl)
        | inr ((p', s), n) ↦
            let (g', fresh, shape, seen) = laws.create-view m.store s p p' g n in
            let same : p'.id ≡ p.id = ap (λ (x : Policy X). x.id) shape in
            let seen' = λ (j : String).
              subst (λ i. view s j ≡ (if str_eq i j then some p' else view m.store j)) (sym same)
                (seen j) in
            let (m', c) = validated_compiles m s p p' checked y shape in
            let (st, h') = stored-Compiled view m m' s p' h seen' c in
            let kept = (compile_policy_lem (record m { store = s }) m' p' c).1 in
            rw (add_policy, y, n, c) (subst Good (sym st) g', h', kept)
      ]
    ]

    pub remove_policy-Compiled :
        (m : PolicyManager S P E) (id : String)
        → Good m.store
        → Compiled view m
        → Good (remove_policy ops m id).1.store
          × Compiled view (remove_policy ops m id).1
          × ((remove_policy ops m id).1.engines ≡ m.engines)
    unfolding remove_policy
    remove_policy-Compiled m id g h = elim (Option-cases (ops.delete m.store id)) [
      | inl n ↦ rw (remove_policy, n) (g, h, refl)
      | inr (s, n) ↦
          let (g', seen) = laws.delete-view m.store s id g n in
          elim (Option-cases (lookup id m.programs)) [
            | inl o ↦
                rw (remove_policy, n, o) (g', λ k q i. h k q (ground (arith, seen k, i)), refl)
            | inr (x, o) ↦
                rw (remove_policy, n, o)
                  (
                    g',
                    λ k q i.
                        let (e, l, r) = h k q (ground (arith, seen k, i)) in
                        (e, ground (arith, l, seen k, i, lookup-erase id k m.programs), r),
                    refl,
                  )
          ]
    ]

    pub update_policy-Compiled :
        (m : PolicyManager S P E) (p : Policy X)
        → Checked m
        → Good m.store
        → Compiled view m
        → Good (update_policy ops m p).1.store
          × Compiled view (update_policy ops m p).1
          × ((update_policy ops m p).1.engines ≡ m.engines)
    unfolding update_policy
    update_policy-Compiled m p checked g h = elim (Bool-cases (validate_policy m p)) [
      | inr n ↦ rw (update_policy, n) (g, h, refl)
      | inl y ↦ elim (Option-cases (ops.update m.store p)) [
        | inl n ↦ rw (update_policy, y, n) (g, h, refl)
        | inr ((p', s), n) ↦
            let (g', next, old, seen) = laws.update-view m.store s p p' g n in
            let shape : p' ≡ record p { version = p'.version } =
              next
              ∙ ap (λ (v : ℕ). record p { version = v })
                  (sym (ap (λ (x : Policy X). x.version) next)) in
            let same : p'.id ≡ p.id = ap (λ (x : Policy X). x.id) shape in
            let seen' = λ (j : String).
              subst (λ i. view s j ≡ (if str_eq i j then some p' else view m.store j)) (sym same)
                (seen j) in
            let (m', c) = validated_compiles m s p p' checked y shape in
            let (st, h') = stored-Compiled view m m' s p' h seen' c in
            let kept = (compile_policy_lem (record m { store = s }) m' p' c).1 in
            rw (update_policy, y, n, c) (subst Good (sym st) g', h', kept)
      ]
    ]
