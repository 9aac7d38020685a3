-- ===== src/Policy/Manager/Reload.antt =====
-- pkg/policy/manager.go: `ReloadPolicies`, and what every call on the manager keeps.
use nuts.Base.{
  ◌≡◌, ◌⊎◌, true, refl, sym, Option, none, some, List, [], ◌∷◌, String, eq_iff, arith, Option-cases,
  inl, inr, Memᴰ, subst, ◌∙◌, ◌++◌, ap,
}
use mathlib.Core.List.Memᴰ
use nuts.Db.{is_some}
use nuts.Policy.{Policy}
use nuts.Policy.Store.{PolicyStore, PolicyListLaws}
use nuts.Policy.Manager.{
  DslExpression, PolicyManager, compile_policy, compile_all, reload_policies, programs_of,
}
use nuts.Policy.Manager.Compiled.{
  Runs, HasProgram, Compiled, compile_policy_lem, compile-HasProgram,
}

module _ {S X P E : Type 0} where
  -- The loop keeps the store, and gives a program to each policy of the list.
  compile_all-HasProgram :
      (ps : List (Policy X)) (m : PolicyManager S P E)
      → (compile_all m ps).0 ≡ none
      → ((compile_all m ps).1.store ≡ m.store)
        × ((q : Policy X)
            → ((p : Policy X) → Memᴰ p ps → p.id ≡ q.id → p ≡ q)
            → HasProgram m q.id q ⊎ Memᴰ q ps
            → HasProgram (compile_all m ps).1 q.id q)
  unfolding compile_all
  compile_all-HasProgram [] m e =
      (refl, λ q one o. elim o [ inl h ↦ h | inr n ↦ absurd (Memᴰ.not-nil n) ])
  compile_all-HasProgram (p ∷ ps) m e = elim (Option-cases (compile_policy m p)) [
    | inl n ↦ absurd (ground (arith, n, e))
    | inr (m', c) ↦
        let (st, kept) =
          compile_all-HasProgram ps m' (subst (λ x. x ≡ none) (rw (compile_all, c) refl) e) in
        rw (compile_all, c)
          (
            st ∙ (compile_policy_lem m m' p c).0,
            λ q one o. kept q (λ r t. one r (Memᴰ.tail t)) (now c q (one p (Memᴰ.head refl)) o),
          )
  ]
    where
      now :
          {m' : PolicyManager S P E}
          → compile_policy m p ≡ some m'
          → (q : Policy X) → (p.id ≡ q.id → p ≡ q)
          → HasProgram m q.id q ⊎ Memᴰ q (p ∷ ps)
          → HasProgram m' q.id q ⊎ Memᴰ q ps
      now {m' = m'} c q one (inl h) = inl (compile-HasProgram m m' p q q.id c one (λ n. h))
      now {m' = m'} c q one (inr t) = elim (Memᴰ.cases_cons t) [
        | inl y ↦ inl (
            compile-HasProgram m m' p q q.id c one
              (λ n. absurd (ground (arith, n, ap (λ (x : Policy X). x.id) y, eq_iff p.id q.id))))
        | inr t' ↦ inr t'
      ]

  compile_all-engines :
      (ps : List (Policy X)) (m : PolicyManager S P E) → (compile_all m ps).1.engines ≡ m.engines
  unfolding compile_all
  compile_all-engines [] m = refl
  compile_all-engines (p ∷ ps) m = elim (Option-cases (compile_policy m p)) [
    | inl n ↦ rw (compile_all, n) refl
    | inr (m', c) ↦
        rw (compile_all, c) (compile_all-engines ps m' ∙ (compile_policy_lem m m' p c).1)
  ]

  -- Policies that run on the engines compile.
  compile_all-done :
      (ps : List (Policy X)) (m : PolicyManager S P E)
      → ((p : Policy X) → Memᴰ p ps → (e : DslExpression P E) × Runs m.engines p e)
      → (compile_all m ps).0 ≡ none
  unfolding compile_all
  compile_all-done [] m runs = refl
  compile_all-done (p ∷ ps) m runs = elim (Option-cases (compile_policy m p)) [
    | inl n ↦
        let (e, (engine, program, there, c, x)) = runs p (Memᴰ.head refl) in
        absurd (unfold compile_policy in ground (arith, n, there, c))
    | inr (m', c) ↦
        let same : m.engines ≡ m'.engines = sym (compile_policy_lem m m' p c).1 in
        rw (compile_all, c)
          (compile_all-done ps m'
            (λ q t. let (e, r) = runs q (Memᴰ.tail t) in (e, subst (λ x. Runs x q e) same r)))
  ]

  module _ {Good : S → Type 0} {view : S → String → Option (Policy X)} {ops : PolicyStore S X}
      (listing : PolicyListLaws ops Good view) where
    -- A reload that succeeds leaves every stored policy compiled, whatever was compiled before.
    pub reload_policies-Compiled :
        (m : PolicyManager S P E)
        → Good m.store
        → (reload_policies ops m).0 ≡ none
        → ((reload_policies ops m).1.store ≡ m.store) × Compiled view (reload_policies ops m).1
    unfolding reload_policies
    reload_policies-Compiled m g e =
        let cleared : PolicyManager S P E = record m {
          programs = [];
          closed = programs_of m.programs ++ m.closed;
        } in
        elim (Option-cases (ops.list m.store)) [
          | inl n ↦ absurd (ground (arith, n, e))
          | inr (ps, n) ↦
              let (st, has) =
                compile_all-HasProgram ps cleared
                  (subst (λ x. x ≡ none) (rw (reload_policies, n) refl) e) in
              rw (reload_policies, n)
                (
                  st,
                  λ k q i.
                      let i' : view m.store k ≡ some q = subst (λ t. view t k ≡ some q) st i in
                      let own : q.id ≡ k = listing.id-view m.store k q g i' in
                      let i'' : view m.store q.id ≡ some q =
                        subst (λ j. view m.store j ≡ some q) (sym own) i' in
                      subst (λ j. HasProgram (compile_all cleared ps).1 j q) own
                        (has q
                          (λ p t y.
                            ground (arith, (listing.list-view m.store ps p g n).0 t, i'', y))
                          (inr ((listing.list-view m.store ps q g n).1 i''))),
                )
        ]

    -- A reload from a manager whose stored policies are compiled succeeds when the store lists them.
    pub reload_succeeds :
        (m : PolicyManager S P E)
        → Good m.store
        → Compiled view m
        → is_some (ops.list m.store) ≡ true
        → (reload_policies ops m).0 ≡ none
    unfolding reload_policies
    reload_succeeds m g h lists = elim (Option-cases (ops.list m.store)) [
      | inl n ↦ absurd (ground (arith, n, lists))
      | inr (ps, n) ↦
          rw (reload_policies, n)
            (compile_all-done ps
              (record m { programs = []; closed = programs_of m.programs ++ m.closed })
              (λ p t.
                let (e, l, r) = h p.id p ((listing.list-view m.store ps p g n).0 t) in (e, r)))
    ]

  pub reload_policies-engines :
      (ops : PolicyStore S X) (m : PolicyManager S P E)
      → (reload_policies ops m).1.engines ≡ m.engines
  unfolding reload_policies
  reload_policies-engines ops m = elim (Option-cases (ops.list m.store)) [
    | inl n ↦ rw (reload_policies, n) refl
    | inr (ps, n) ↦
        rw (reload_policies, n)
          (compile_all-engines ps
            (record m { programs = []; closed = programs_of m.programs ++ m.closed }))
  ]
