-- ===== src/Task/Store/Members.antt =====
-- pkg/task/engine_store.go: what a listing without a state, an offset or a limit names.
use nuts.Base.{
  ◌≡◌, ◌↔◌, sym, ap, ◌∙◌, subst, true, some, List, [], ◌∷◌, String, str_eq, contains, is_empty,
  arith, eq_iff, eq_refl, Bool-cases, Option-cases, inl, inr, Memᴰ, ltb, starts_with-join,
}
use mathlib.Core.List.Memᴰ
use nuts.Base.Int.{pos}
use nuts.Db.{Db, DbLaws, Json}
use nuts.Task.{Task, TaskFilter, ok}
use nuts.Task.Store.{TaskStore, task_key, match_filter}
use nuts.Task.Store.Ops.{get}
use nuts.Task.Store.Query.{read, collect, list, insert_newest, sort_newest, skip_offset, cut_limit}
use nuts.Task.Store.Rebuild.{Keyed}

mem-insert_newest :
    (t : Task) (ts : List Task) (x : Task) → Memᴰ x (insert_newest t ts) ↔ Memᴰ x (t ∷ ts)
unfolding insert_newest
mem-insert_newest t [] x = (λ m. m, λ m. m)
mem-insert_newest t (y ∷ ts) x = elim (Bool-cases (ltb y.created_at t.created_at)) [
  | inl e ↦ rw e (λ m. m, λ m. m)
  | inr e ↦ rw e (
    λ m. elim (Memᴰ.cases_cons m) [
      | inl i ↦ Memᴰ.tail (Memᴰ.head i)
      | inr r ↦ elim (Memᴰ.cases_cons ((mem-insert_newest t ts x).0 r)) [
        | inl i ↦ Memᴰ.head i
        | inr r' ↦ Memᴰ.tail (Memᴰ.tail r')
      ]
    ],
    λ m. elim (Memᴰ.cases_cons m) [
      | inl i ↦ Memᴰ.tail ((mem-insert_newest t ts x).1 (Memᴰ.head i))
      | inr r ↦ elim (Memᴰ.cases_cons r) [
        | inl i ↦ Memᴰ.head i
        | inr r' ↦ Memᴰ.tail ((mem-insert_newest t ts x).1 (Memᴰ.tail r'))
      ]
    ],
  )
]

mem-sort_newest : (ts : List Task) (x : Task) → Memᴰ x (sort_newest ts) ↔ Memᴰ x ts
unfolding sort_newest
mem-sort_newest [] x = (λ m. m, λ m. m)
mem-sort_newest (t ∷ ts) x =
    let (to, from) = mem-insert_newest t (sort_newest ts) x in
    let (to', from') = mem-sort_newest ts x in
    (
      λ m. elim (Memᴰ.cases_cons (to m)) [ inl i ↦ Memᴰ.head i | inr r ↦ Memᴰ.tail (to' r) ],
      λ m. elim (Memᴰ.cases_cons m) [
        | inl i ↦ from (Memᴰ.head i)
        | inr r ↦ from (Memᴰ.tail (from' r))
      ],
    )

module _ {D : Type 0} (db : Db D (Json Task)) (laws : DbLaws db) where
  -- The task is read under one of the keys, and passes the filter.
  abbrev Named : D → TaskFilter → List String → Task → Type 0
  Named d f keys t =
      (key : String) × (contains keys key ≡ true)
      × (read db d key ≡ some t)
      × (match_filter t f ≡ true)

  mem-collect :
      (d : D) (f : TaskFilter) (keys : List String) (t : Task)
      → Memᴰ t (collect db d f keys) ↔ Named d f keys t
  unfolding collect
  mem-collect d f [] t = (λ m. absurd (Memᴰ.not-nil m), λ (k, i, r, a). absurd (ground (arith, i)))
  mem-collect d f (key ∷ keys) t =
      let (to, from) = mem-collect d f keys t in
      let later : Memᴰ t (collect db d f keys) → Named d f (key ∷ keys) t =
        λ m. let (k, i, r, a) = to m in (k, ground (arith, i), r, a) in
      elim (Option-cases (read db d key)) [
        | inl n ↦
            rw (collect, n)
              (later, λ (k, i, r, a). from (k, ground (arith, i, r, n, eq_iff key k), r, a))
        | inr (u, n) ↦ elim (Bool-cases (match_filter u f)) [
          | inl y ↦
              rw (collect, n, y)
                (
                  λ m. elim (Memᴰ.cases_cons m) [
                    | inl i ↦ (
                      key,
                      ground (arith, eq_refl key),
                      n ∙ ap (λ x. some x) (sym i),
                      subst (λ x. match_filter x f ≡ true) (sym i) y,
                    )
                    | inr m' ↦ later m'
                  ],
                  λ (k, i, r, a). elim (Bool-cases (str_eq key k)) [
                    | inl same ↦ Memᴰ.head (ground (arith, same, r, n, eq_iff key k))
                    | inr o ↦ Memᴰ.tail (from (k, ground (arith, i, o), r, a))
                  ],
                )
          | inr y ↦
              rw (collect, n, y)
                (
                  later,
                  λ (k, i, r, a). elim (Bool-cases (str_eq key k)) [
                    | inl same ↦
                        let alike : t ≡ u = ground (arith, same, r, n, eq_iff key k) in
                        absurd (ground (arith, y, subst (λ x. match_filter x f ≡ true) alike a))
                    | inr o ↦ from (k, ground (arith, i, o), r, a)
                  ],
                )
        ]
      ]

  -- From tasks that lie under their own keys, a listing with no state, offset or limit holds exactly
  -- the stored ones that pass the filter.
  pub mem-list :
      (s : TaskStore D) (f : TaskFilter) (ts : List Task) (t : Task)
      → Keyed db s.backing
      → is_empty f.state ≡ true
      → f.offset ≡ pos 0
      → f.limit ≡ pos 0
      → list db s f ≡ ok ts
      → Memᴰ t ts ↔ ((get db s t.id ≡ ok t) × (match_filter t f ≡ true))
  unfolding list skip_offset cut_limit get read task_key
  mem-list s f ts t keyed a b c e = elim (Option-cases (db.list s.backing "task:")) [
    | inl n ↦ absurd (ground (arith, n, a, e))
    | inr (keys, n) ↦
        let out : sort_newest (collect db s.backing f keys) ≡ ts = ground (arith, n, a, b, c, e) in
        let (to, from) = mem-sort_newest (collect db s.backing f keys) t in
        let (to', from') = mem-collect s.backing f keys t in
        (
          λ m.
              let (k, i, r, y) = to' (to (subst (Memᴰ t) (sym out) m)) in
              let here : read db s.backing (task_key t.id) ≡ some t =
                subst (λ x. read db s.backing x ≡ some t) (keyed k t r) r in
              (ground (arith, here), y),
          λ (g, y). subst (Memᴰ t) out (
              from (
                from' (
                  task_key t.id,
                  ground (
                    arith,
                    laws.contains-list s.backing "task:" (task_key t.id) keys n,
                    starts_with-join "task:" t.id,
                    g,
                  ),
                  ground (arith, g),
                  y,
                ))),
        )
  ]
