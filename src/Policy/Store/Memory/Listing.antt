-- ===== src/Policy/Store/Memory/Listing.antt =====
-- pkg/policy/store.go: what `MemoryPolicyStore` keeps and lists.
use nuts.Base.{
  ◌≡◌, refl, true, none, some, [], ◌∷◌, String, if◌then◌else◌, str_eq, lookup, insert, erase,
  lookup-insert, lookup-erase, select, arith, eq_iff, Option-cases, Bool-cases, inl, inr, Memᴰ,
  mem-select, ◌↔◌, subst, eq_refl, str_eq_sym, sym, ap,
}
use mathlib.Core.List.Memᴰ
use nuts.Policy.{Policy}
use nuts.Task.{inc64}
use nuts.Policy.Store.{PolicyStoreLaws, PolicyListLaws}
use nuts.Policy.Store.Memory.{
  Policies, memory, values, get, list, list_enabled, create, update, delete,
}

-- Each policy is stored under its own id, and each id once.
abbrev pub Keyed : {X : Type 0} → Policies X → Type 0
Keyed [] = Unit
Keyed ((k, p) ∷ s) = (p.id ≡ k) × (lookup k s ≡ none) × Keyed s

module _ {X : Type 0} where
  Keyed-insert : (s : Policies X) (p : Policy X) → Keyed s → Keyed (insert p.id p s)
  unfolding insert lookup
  Keyed-insert [] p h = (refl, refl, tt)
  Keyed-insert ((k, q) ∷ s) p (a, b, h) = elim (Bool-cases (str_eq k p.id)) [
    | inl e ↦ rw e (refl, ground (arith, e, b, eq_iff k p.id), h)
    | inr e ↦
        rw e
          (a, ground (arith, e, b, str_eq_sym k p.id, lookup-insert p.id k p s), Keyed-insert s p h)
  ]

  Keyed-erase : (s : Policies X) (k : String) → Keyed s → Keyed (erase k s)
  unfolding erase lookup
  Keyed-erase [] k h = tt
  Keyed-erase ((i, q) ∷ s) k (a, b, h) = elim (Bool-cases (str_eq i k)) [
    | inl e ↦ rw e (Keyed-erase s k h)
    | inr e ↦ rw e (a, ground (arith, b, lookup-erase k i s), Keyed-erase s k h)
  ]

  Keyed-lookup :
      (s : Policies X) (k : String) (p : Policy X) → Keyed s → lookup k s ≡ some p → p.id ≡ k
  unfolding lookup
  Keyed-lookup [] k p h e = absurd (ground (arith, e))
  Keyed-lookup ((i, q) ∷ s) k p (a, b, h) e = ground (arith, a, e, eq_iff i k, Keyed-lookup s k p h)

  mem-values :
      (s : Policies X) (p : Policy X) → Keyed s → Memᴰ p (values s) ↔ (lookup p.id s ≡ some p)
  unfolding lookup values
  mem-values [] p h = (λ m. absurd (Memᴰ.not-nil m), λ e. absurd (ground (arith, e)))
  mem-values ((k, q) ∷ s) p (a, b, h) = (
    λ m. elim (Memᴰ.cases_cons m) [
      | inl i ↦ ground (arith, i, a, eq_refl k, ap (λ (x : Policy X). x.id) i)
      | inr t ↦ ground (arith, (mem-values s p h).0 t, b, eq_iff k p.id)
    ],
    λ e. elim (Bool-cases (str_eq k p.id)) [
      | inl i ↦ Memᴰ.head (ground (arith, i, e))
      | inr i ↦ Memᴰ.tail ((mem-values s p h).1 (ground (arith, i, e)))
    ],
  )

  -- A listing of the in-memory store names exactly what it holds.
  pub memory-PolicyListLaws : PolicyListLaws {X = X} memory Keyed (λ s k. lookup k s)
  unfolding list list_enabled
  memory-PolicyListLaws = record {
    list-view = λ s ps p h e.
        subst (λ x. Memᴰ p x ↔ (lookup p.id s ≡ some p)) (ground (arith, e)) (mem-values s p h);
    enabled-view = λ s ps p h e.
        let i : select (λ p. p.enabled) (values s) ≡ ps = ground (arith, e) in
        let (a, b) = mem-values s p h in
        let (c, d) = mem-select (λ p. p.enabled) (values s) p in
        subst (λ x. Memᴰ p x ↔ ((lookup p.id s ≡ some p) × (p.enabled ≡ true))) i
          (λ m. let (t, y) = c m in (a t, y), λ t. d (b t.0, t.1));
    id-view = λ s k p. Keyed-lookup s k p;
  }

  -- The in-memory store meets the contract of `PolicyStore`, with the map itself as its view.
  pub memory-PolicyStoreLaws : PolicyStoreLaws {X = X} memory Keyed (λ s k. lookup k s)
  unfolding get create update delete
  memory-PolicyStoreLaws = record {
    get-view = λ s k g. (g, refl, λ j. refl);
    create-view = λ s s' p p' g e. created s s' p p' g e;
    update-view = λ s s' p p' g e. updated s s' p p' g e;
    delete-view = λ s s' k g e. (
      subst Keyed (ground (arith, e)) (Keyed-erase s k g),
      λ j. ground (arith, e, lookup-erase k j s),
    );
  }
    where
      created :
          (s s' : Policies X) (p p' : Policy X)
          → Keyed s
          → create s p ≡ some (p', s')
          → Keyed s'
            × (lookup p.id s ≡ none)
            × (p' ≡ record p { version = p'.version })
            × ((j : String) → lookup j s' ≡ (if str_eq p.id j then some p' else lookup j s))
      created s s' p p' g e =
          let first = record p { version = 1 } in
          let (fresh, a, b) : (lookup p.id s ≡ none) × (p' ≡ first) × (s' ≡ insert p.id first s) =
            ground (arith, e) in
          (
            subst Keyed (sym b) (Keyed-insert s first g),
            fresh,
            ground (arith, a),
            λ j. ground (arith, a, b, lookup-insert p.id j first s),
          )

      updated :
          (s s' : Policies X) (p p' : Policy X)
          → Keyed s
          → update s p ≡ some (p', s')
          → Keyed s'
            × (p' ≡ record p { version = inc64 p.version })
            × ((old : Policy X) × (lookup p.id s ≡ some old) × (p.version ≡ old.version))
            × ((j : String) → lookup j s' ≡ (if str_eq p.id j then some p' else lookup j s))
      updated s s' p p' g e = elim (Option-cases (lookup p.id s)) [
        | inl gone ↦ absurd (ground (arith, gone, e))
        | inr (old, there) ↦
            let next = record p { version = inc64 old.version } in
            let (same, a, b) : (p.version ≡ old.version) × (p' ≡ next) × (s' ≡ insert p.id next s) =
              ground (arith, there, e) in
            (
              subst Keyed (sym b) (Keyed-insert s next g),
              ground (arith, a, same),
              (old, there, same),
              λ j. ground (arith, a, b, lookup-insert p.id j next s),
            )
      ]
