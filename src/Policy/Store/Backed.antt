-- ===== src/Policy/Store/Backed.antt =====
-- pkg/policy/engine_store.go: `enginePolicyStore`, over any backend. JSON is as in the task store.
use nuts.Base.{
  ◌≡◌, refl, ◌==◌, false, Option, none, some, List, [], ◌∷◌, String, ℕ, if◌then◌else◌, str_eq,
  is_empty, join, str_eq-join, select, length, arith, Option-cases, inl, inr,
}
use nuts.Db.{Db, DbLaws, Json, encoded, unmarshal, is_some}
use nuts.Policy.{Policy}
use nuts.Task.{inc64}
use nuts.Policy.Store.{PolicyStore, PolicyStoreLaws}

-- The key of a policy, with the prefix of `NewPolicyStore`.
unfoldable pub policy_key : String → String
policy_key id = join "policy:" id

module _ {D X : Type 0} (db : Db D (Json (Policy X))) where
  -- `Get`, which both unmarshalling loops share.
  unfoldable pub read : D → String → Option (Policy X)
  read d key = elim (db.get d key) [ none ↦ none | some text ↦ unmarshal text ]

  unfoldable pub get : D → String → Option (Policy X) × D
  unfolding read
  get d id = (read d (policy_key id), d)

  -- The loop of `List`: what cannot be read is skipped.
  unfoldable pub read_all : D → List String → List (Policy X)
  unfolding read
  read_all d [] = []
  read_all d (key ∷ more) =
      let rest = read_all d more in elim (read d key) [ none ↦ rest | some p ↦ p ∷ rest ]

  unfoldable pub list : D → Option (List (Policy X))
  unfolding read_all
  list d = elim (db.list d "policy:") [ none ↦ none | some found ↦ some (read_all d found) ]

  unfoldable pub list_enabled : D → Option (List (Policy X))
  unfolding list
  list_enabled d = elim (list d) [ none ↦ none | some all ↦ some (select (λ p. p.enabled) all) ]

  -- The last step of `Create` and `Update`.
  unfoldable pub set_policy : D → Policy X → Option (Policy X × D)
  set_policy d p = elim (db.write d (policy_key p.id) (encoded p)) [
    | none ↦ none
    | some d' ↦ some (p, d')
  ]

  unfoldable pub create : D → Policy X → Option (Policy X × D)
  unfolding set_policy
  create d p =
      let first = if p.version == 0 then record p { version = 1 } else p in
      if is_empty p.id
      then none
      else if is_some (db.get d (policy_key p.id))
      then none
      else set_policy d first

  unfoldable pub update : D → Policy X → Option (Policy X × D)
  unfolding read set_policy
  update d p = elim (read d (policy_key p.id)) [
    | none ↦ none
    | some existing ↦
        if p.version == existing.version
        then set_policy d (record p { version = inc64 existing.version })
        else none
  ]

  unfoldable pub delete : D → String → Option D
  delete d id = db.delete d (policy_key id)

  unfoldable pub count : D → Option ℕ
  count d = elim (db.list d "policy:") [ none ↦ none | some found ↦ some (length found) ]

  abbrev pub backed : PolicyStore D X
  backed = record {
    get = get;
    list = list;
    list_enabled = list_enabled;
    create = create;
    update = update;
    delete = delete;
    count = count;
  }

  module _ (laws : DbLaws db) where
    read-set_policy :
        (d d' : D) (p p' : Policy X) (j : String)
        → set_policy d p ≡ some (p', d')
        → (p' ≡ p)
          × (read d' (policy_key j) ≡ (if str_eq p.id j then some p else read d (policy_key j)))
    unfolding set_policy read policy_key
    read-set_policy d d' p p' j e = elim (Option-cases (db.write d (policy_key p.id) (encoded p))) [
      | inl w ↦ ground (arith, w, e)
      | inr (d'', w) ↦ ground (
        arith,
        w,
        e,
        laws.get-write d d'' (policy_key p.id) (policy_key j) (encoded p) w,
        str_eq-join "policy:" p.id j,
      )
    ]

    read-delete :
        (d d' : D) (k j : String)
        → delete d k ≡ some d'
        → read d' (policy_key j) ≡ (if str_eq k j then none else read d (policy_key j))
    unfolding delete read policy_key
    read-delete d d' k j e =
        ground
          (arith, laws.get-delete d d' (policy_key k) (policy_key j) e, str_eq-join "policy:" k j)

    -- The backed store meets the contract of `PolicyStore` over any backend that meets its own, with
    -- the policies that can be read as its view.
    pub backed-PolicyStoreLaws :
        PolicyStoreLaws backed (λ d. Unit {0}) (λ d k. read d (policy_key k))
    unfolding get create update
    backed-PolicyStoreLaws = record {
      get-view = λ d k g. (tt, refl, λ j. refl);
      create-view = λ d d' p p' g e. created d d' p p' e;
      update-view = λ d d' p p' g e. updated d d' p p' e;
      delete-view = λ d d' k g e. (tt, λ j. read-delete d d' k j e);
    }
      where
        created :
            (d d' : D) (p p' : Policy X)
            → create d p ≡ some (p', d')
            → Unit {0}
              × (read d (policy_key p.id) ≡ none)
              × (p' ≡ record p { version = p'.version })
              × ((j : String)
                  → read d' (policy_key j)
                    ≡ (if str_eq p.id j then some p' else read d (policy_key j)))
        created d d' p p' e =
            let first = if p.version == 0 then record p { version = 1 } else p in
            let (fresh, done) : (is_some (db.get d (policy_key p.id)) ≡ false)
                × (set_policy d first ≡ some (p', d')) =
              ground (arith, e) in
            let put = λ (j : String). read-set_policy d d' first p' j done in
            let shape : first ≡ record p { version = first.version } = ground arith in
            (
              tt,
              (unfold read in (ground (arith, fresh))),
              ground (arith, (put "").0, shape),
              λ j. ground (arith, put j, shape),
            )

        updated :
            (d d' : D) (p p' : Policy X)
            → update d p ≡ some (p', d')
            → Unit {0}
              × (p' ≡ record p { version = inc64 p.version })
              × ((old : Policy X) × (read d (policy_key p.id) ≡ some old)
                  × (p.version ≡ old.version))
              × ((j : String)
                  → read d' (policy_key j)
                    ≡ (if str_eq p.id j then some p' else read d (policy_key j)))
        updated d d' p p' e = elim (Option-cases (read d (policy_key p.id))) [
          | inl gone ↦ absurd (ground (arith, gone, e))
          | inr (old, there) ↦
              let next = record p { version = inc64 old.version } in
              let (same, done) : (p.version ≡ old.version) × (set_policy d next ≡ some (p', d')) =
                ground (arith, there, e) in
              let put = λ (j : String). read-set_policy d d' next p' j done in
              (tt, rw same (put "").0, (old, there, same), λ j. ground (arith, put j))
        ]
