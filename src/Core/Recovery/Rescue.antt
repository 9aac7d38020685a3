-- ===== src/Core/Recovery/Rescue.antt =====
-- pkg/core/core.go: what each task of the recovery's list becomes.
use nuts.Base.{
  ◌≡◌, ◌⊎◌, refl, sym, ap, ◌∙◌, subst, ℕ, suc, String, true, not, some, List, [], ◌∷◌,
  if◌then◌else◌, str_eq, arith, eq_iff, eq_refl, Bool-cases, inl, inr, Memᴰ, str_eq_cases,
}
use mathlib.Core.List.Memᴰ
use nuts.Db.{Db, DbLaws, Json, is_some}
use nuts.Task.{Time, Task, Err, version_conflict, ok, err, ok-injective}
use nuts.Task.Store.{TaskStore, remove_from_state_index}
use nuts.Task.Store.Ops.{get, update, bumped}
use nuts.Task.Store.Invariant.{Inv, get-put, get-index}
use nuts.Task.Store.Keeps.{update-Inv}
use nuts.Task.Engine.{Engine}
use nuts.Task.Engine.Progress.{put_succeeds}
use nuts.Core.Recovery.{is_orphan, recover_each}

-- The task as the recovery stores it.
unfoldable pub rescued : Time → Time → Task → Task
rescued at now t = bumped (record t { archived_at = some at; updated_at = now })

module _ {D : Type 0} (db : Db D (Json Task)) (laws : DbLaws db) (e : Engine)
    (writes : (d : D) (k : String) (x : Json Task) → is_some (db.write d k x) ≡ true) where
  -- The update of a stored task as it was read succeeds.
  update_fresh :
      (at now : Time) (s : TaskStore D) (t : Task)
      → Inv db s
      → get db s t.id ≡ ok t
      → (s' : TaskStore D) × (update db now s (record t { archived_at = some at })
          ≡ ok (rescued at now t, s'))
        × Inv db s'
        × ((j : String)
            → get db s' j ≡ (if str_eq t.id j then ok (rescued at now t) else get db s j))
  unfolding update rescued
  update_fresh at now s t v r =
      let next : Task = record t { archived_at = some at; updated_at = now } in
      let ((u, s₁), wrote) = put_succeeds db writes s next in
      let got = λ (j : String). get-put db laws s next u s₁ j wrote in
      let index =
        if not (is_some t.archived_at)
        then remove_from_state_index t.id t.state s.state_index
        else s.state_index in
      let s' : TaskStore D = record s₁ { state_index = index } in
      let done : update db now s (record t { archived_at = some at }) ≡ ok (rescued at now t, s') =
        ground (arith, r, wrote, (got "").0) in
      (
        s',
        done,
        update-Inv db laws now s s' (record t { archived_at = some at }) t (rescued at now t) v r
            refl refl (λ a. refl) done,
        λ j. get-index db s₁ index j ∙ ground (arith, (got j).3, (got j).0),
      )

  -- The update of a task that was rescued since it was read is refused.
  update_stale :
      (at now at' now' : Time) (s : TaskStore D) (t : Task)
      → get db s t.id ≡ ok (rescued at now t)
      → (x : Err) × (update db now' s (record t { archived_at = some at' }) ≡ err x)
  unfolding update rescued bumped
  update_stale at now at' now' s t r = (version_conflict, ground (arith, r))

  -- The task is stored as it was read, or as the recovery left it.
  abbrev Known : TaskStore D → Task → Type 0
  Known s t =
      (get db s t.id ≡ ok t)
      ⊎ ((at : Time) × (now : Time) × (get db s t.id ≡ ok (rescued at now t)))

  abbrev pub Rescued : TaskStore D → Task → Type 0
  Rescued s t = (at : Time) × (now : Time) × (get db s t.id ≡ ok (rescued at now t))

  -- A task is as it was, or was an orphan and is rescued.
  abbrev pub Changed : TaskStore D → TaskStore D → String → Type 0
  Changed s s' id =
      (get db s' id ≡ get db s id)
      ⊎ ((t : Task) × (at : Time) × (now : Time) × (get db s id ≡ ok t)
          × (is_orphan db e t ≡ true)
          × (get db s' id ≡ ok (rescued at now t)))

  kept :
      (s s' : TaskStore D) (t : Task) (at now : Time)
      → get db s t.id ≡ ok (rescued at now t)
      → Changed s s' t.id
      → Rescued s' t
  unfolding is_orphan rescued bumped
  kept s s' t at now r (inl same) = (at, now, same ∙ r)
  kept s s' t at now r (inr (u, at', now', r', o, out)) =
      let same : u ≡ rescued at now t = ok-injective (sym r' ∙ r) in
      absurd (ground (arith, o, ap (λ (x : Task). x.archived_at) same))

  Known-update :
      (s s₁ : TaskStore D) (t x : Task) (at now : Time)
      → get db s t.id ≡ ok t
      → is_orphan db e t ≡ true
      → get db s₁ x.id ≡ (if str_eq t.id x.id then ok (rescued at now t) else get db s x.id)
      → Known s x
      → Known s₁ x
  unfolding is_orphan rescued bumped
  Known-update s s₁ t x at now r orphan got k = elim (str_eq_cases t.id x.id) [
    | inr n ↦
        let q : get db s₁ x.id ≡ get db s x.id = ground (arith, got, n) in
        elim k [ inl a ↦ inl (q ∙ a) | inr (at', now', a) ↦ inr (at', now', q ∙ a) ]
    | inl y ↦
        let r' : get db s x.id ≡ ok t = subst (λ j. get db s j ≡ ok t) y r in
        let g : get db s₁ x.id ≡ ok (rescued at now t) = ground (arith, got, y, eq_iff t.id x.id) in
        elim k [
          | inl a ↦
              let same : t ≡ x = ok-injective (sym r' ∙ a) in
              inr (at, now, subst (λ z. get db s₁ x.id ≡ ok (rescued at now z)) same g)
          | inr (at', now', a) ↦
              let same : t ≡ rescued at' now' x = ok-injective (sym r' ∙ a) in
              absurd (ground (arith, orphan, ap (λ (z : Task). z.archived_at) same))
        ]
  ]

  Changed-update :
      (s s₁ s' : TaskStore D) (t : Task) (id : String) (at now : Time)
      → get db s t.id ≡ ok t
      → is_orphan db e t ≡ true
      → get db s₁ t.id ≡ ok (rescued at now t)
      → get db s₁ id ≡ (if str_eq t.id id then ok (rescued at now t) else get db s id)
      → ((j : String) → Changed s₁ s' j)
      → Changed s s' id
  Changed-update s s₁ s' t id at now r orphan r₁ got ch = elim (str_eq_cases t.id id) [
    | inl y ↦
        let (at', now', out) = kept s₁ s' t at now r₁ (ch t.id) in
        subst (Changed s s') y (inr (t, at', now', r, orphan, out))
    | inr n ↦
        let q : get db s₁ id ≡ get db s id = ground (arith, got, n) in
        elim (ch id) [
          | inl same ↦ inl (same ∙ q)
          | inr (u, at', now', r', o, out) ↦ inr (u, at', now', sym q ∙ r', o, out)
        ]
  ]

  pub recover_each-Rescued :
      (clock : ℕ → Time × Time) (ts : List Task) (i : ℕ) (s : TaskStore D)
      → Inv db s
      → ((t : Task) → Memᴰ t ts → Known s t)
      → Inv db (recover_each db e clock i ts s)
        × ((id : String) → Changed s (recover_each db e clock i ts s) id)
        × ((t : Task)
            → Memᴰ t ts
            → is_orphan db e t ≡ true
            → Rescued (recover_each db e clock i ts s) t)
  unfolding recover_each
  recover_each-Rescued clock [] i s v known = (v, λ id. inl refl, λ t m o. absurd (Memᴰ.not-nil m))
  recover_each-Rescued clock (t ∷ ts) i s v known = elim (Bool-cases (is_orphan db e t)) [
    | inr fine ↦
        let (v', ch, done) =
          recover_each-Rescued clock ts (suc i) s v (λ x m. known x (Memᴰ.tail m)) in
        rw (recover_each, fine)
          (
            v',
            ch,
            λ x m o. elim (Memᴰ.cases_cons m) [
              | inl y ↦ absurd (ground (arith, fine, subst (λ z. is_orphan db e z ≡ true) y o))
              | inr m' ↦ done x m' o
            ],
          )
    | inl orphan ↦ elim (known t (Memᴰ.head refl)) [
      | inr (at, now, r) ↦
          let (x, bad) = update_stale at now (clock i).0 (clock i).1 s t r in
          let (v', ch, done) =
            recover_each-Rescued clock ts (suc i) s v (λ x m. known x (Memᴰ.tail m)) in
          rw (recover_each, orphan, bad)
            (
              v',
              ch,
              λ x m o. elim (Memᴰ.cases_cons m) [
                | inl y ↦
                    subst (Rescued (recover_each db e clock (suc i) ts s)) (sym y)
                      (kept s (recover_each db e clock (suc i) ts s) t at now r (ch t.id))
                | inr m' ↦ done x m' o
              ],
            )
      | inl r ↦
          let (at, now) = clock i in
          let (s₁, good, v₁, got) = update_fresh at now s t v r in
          let r₁ : get db s₁ t.id ≡ ok (rescued at now t) =
            ground (arith, got t.id, eq_refl t.id) in
          let (v', ch, done) =
            recover_each-Rescued clock ts (suc i) s₁ v₁
              (λ x m. Known-update s s₁ t x at now r orphan (got x.id) (known x (Memᴰ.tail m))) in
          rw (recover_each, orphan, good)
            (
              v',
              λ id.
                  Changed-update s s₁ (recover_each db e clock (suc i) ts s₁) t id at now r orphan
                    r₁ (got id) ch,
              λ x m o. elim (Memᴰ.cases_cons m) [
                | inl y ↦
                    subst (Rescued (recover_each db e clock (suc i) ts s₁)) (sym y)
                      (kept s₁ (recover_each db e clock (suc i) ts s₁) t at now r₁ (ch t.id))
                | inr m' ↦ done x m' o
              ],
            )
    ]
  ]
