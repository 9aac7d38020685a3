-- ===== src/Task/Engine/Created.antt =====
-- What `CreateTask` leaves in the store.
use nuts.Task.Engine.Progress.{put_succeeds}
use nuts.Base.{
  ◌≡◌, refl, String, true, false, none, is_empty, arith, eq_iff, Option-cases, inl, inr, subst, ◌∙◌,
  ℕ, str_eq,
}
use nuts.Db.{Db, DbLaws, Json, encoded, is_some}
use nuts.Task.{Time, TaskState, Task, ok, err, not_found, Result-cases, >>=-eq-ok, ok-injective, ℤ}
use nuts.Task.Store.{
  TaskStore, task_key, record_transition, next_attempt, add_to_state_index, move_in_state_index,
}
use nuts.Task.Store.Ops.{
  get, create, update_state_with_record, with_defaults, put_moved, bumped, put,
}
use nuts.Task.Store.Invariant.{Inv, get-put, get-index}
use nuts.Task.Store.Keeps.{create-Inv, update_state_with_record-Inv, get-create}
use nuts.Task.Engine.Create.{store_task}

id-record_transition :
    (max : ℤ) (now : Time) (state : TaskState) (by why : String) (n : ℕ) (t : Task)
    → (record_transition max now state by why n t).id ≡ t.id
unfolding record_transition
id-record_transition max now state by why n t = refl

module _ {D : Type 0} (db : Db D (Json Task)) (laws : DbLaws db) where
  update-after-create :
      (later : Time) (s s₁ : TaskStore D) (id : String) (state : TaskState) (by why : String)
      (t : Task)
      → Inv db s
      → get db s id ≡ ok t
      → t.archived_at ≡ none
      → update_state_with_record db later s id state by why ≡ ok s₁
      → Inv db s₁
        × (get db s₁ id
            ≡ ok (
                bumped (
                  record_transition s.max_state_history later state by why
                    (next_attempt t.state_history state)
                    t)))
  unfolding update_state_with_record put_moved
  update-after-create later s s₁ id state by why t v r alive e = (
    update_state_with_record-Inv db laws later s s₁ id state by why t v r alive e,
    (let next =
          record_transition s.max_state_history later state by why
            (next_attempt t.state_history state) t in
        let ((u, s₂), wrote, done) = >>=-eq-ok (put db s next) _ (rw r at e) in
        let got = get-put db laws s next u s₂ id wrote in
        subst (λ x. get db x id ≡ ok (bumped next)) (ok-injective done)
          (get-index db s₂ _ id
            ∙ ground (
              arith,
              got,
              v.keyed id t r,
              id-record_transition s.max_state_history later state by why
                  (next_attempt t.state_history state) t,
              eq_iff next.id id,
            ))),
  )

  -- Whatever `CreateTask` returns, a store keeps its invariant, if it holds no task of the new task's
  -- id and the new task is not archived.
  pub store_task-Inv :
      (initial : TaskState) (now later : Time) (t : Task) (s : TaskStore D)
      → Inv db s
      → get db s t.id ≡ err not_found
      → t.archived_at ≡ none
      → Inv db (store_task db initial now later t s).0
  unfolding store_task
  store_task-Inv initial now later t s v fresh alive = elim (Result-cases (create db now s t)) [
    | inl (x, bad) ↦ rw (bad, store_task) v
    | inr ((t', s₁), made) ↦
        let v₁ = create-Inv db laws now s t t' s₁ v fresh alive made in
        let got = get-create db laws now s t t' s₁ t.id made in
        let there : get db s₁ t.id ≡ ok t' = ground (arith, got, eq_iff t.id t.id) in
        let alive' : t'.archived_at ≡ none = unfold with_defaults in ground (arith, got, alive) in
        elim (Result-cases
          (update_state_with_record db later s₁ t.id initial "system" "task created")) [
            | inl (x, bad) ↦ rw (made, store_task) (rw bad v₁)
            | inr (s₂, set) ↦
                rw (made, store_task)
                  (rw set
                    (update-after-create later s₁ s₂ t.id initial "system" "task created" t' v₁
                      there alive' set).0)
          ]
  ]

  other_after_put :
      (later : Time) (s s₁ : TaskStore D) (id : String) (state : TaskState) (by why : String)
      (t : Task) (j : String)
      → Inv db s
      → get db s id ≡ ok t
      → str_eq id j ≡ false
      → update_state_with_record db later s id state by why ≡ ok s₁
      → get db s₁ j ≡ get db s j
  unfolding update_state_with_record put_moved
  other_after_put later s s₁ id state by why t j v r other e =
      let next =
        record_transition s.max_state_history later state by why
          (next_attempt t.state_history state) t in
      let ((u, s₂), wrote, done) = >>=-eq-ok (put db s next) _ (rw r at e) in
      let got = get-put db laws s next u s₂ j wrote in
      subst (λ x. get db x j ≡ get db s j) (ok-injective done)
        (get-index db s₂ _ j
          ∙ ground (
            arith,
            got,
            v.keyed id t r,
            other,
            id-record_transition s.max_state_history later state by why
                (next_attempt t.state_history state) t,
          ))

  -- Under the same conditions `CreateTask` changes no task but its own.
  pub store_task-other :
      (initial : TaskState) (now later : Time) (t : Task) (s : TaskStore D) (j : String)
      → Inv db s
      → get db s t.id ≡ err not_found
      → t.archived_at ≡ none
      → str_eq t.id j ≡ false
      → get db (store_task db initial now later t s).0 j ≡ get db s j
  unfolding store_task
  store_task-other initial now later t s j v fresh alive other =
      elim (Result-cases (create db now s t)) [
        | inl (x, bad) ↦ rw (bad, store_task) refl
        | inr ((t', s₁), made) ↦
            let v₁ = create-Inv db laws now s t t' s₁ v fresh alive made in
            let got = get-create db laws now s t t' s₁ in
            let there : get db s₁ t.id ≡ ok t' = ground (arith, got t.id made, eq_iff t.id t.id) in
            let before : get db s₁ j ≡ get db s j = ground (arith, got j made, other) in
            elim (Result-cases
              (update_state_with_record db later s₁ t.id initial "system" "task created")) [
                | inl (x, bad) ↦ rw (made, store_task) (rw bad before)
                | inr (s₂, set) ↦
                    rw (made, store_task)
                      (rw set (
                        other_after_put later s₁ s₂ t.id initial "system" "task created" t' j v₁
                          there other set
                        ∙ before))
              ]
      ]

  module _ (writes : (d : D) (k : String) (x : Json Task) → is_some (db.write d k x) ≡ true) where
    create_succeeds :
        (now : Time) (s : TaskStore D) (t : Task)
        → is_empty t.id ≡ false
        → (p : Task × TaskStore D) × (create db now s t ≡ ok p)
    unfolding create
    create_succeeds now s t named =
        let t' = with_defaults now t in
        elim (Option-cases (db.write s.backing (task_key t.id) (encoded t'))) [
          | inl e ↦ absurd (ground (arith, e, writes s.backing (task_key t.id) (encoded t')))
          | inr (d, e) ↦
              let index = add_to_state_index t.id t'.state t'.created_at s.state_index in
              ((t', record s { backing = d; state_index = index }), rw (named, create) (rw e refl))
        ]

    update_succeeds :
        (later : Time) (s : TaskStore D) (id : String) (state : TaskState) (by why : String)
        (t : Task)
        → get db s id ≡ ok t
        → (s' : TaskStore D) × (update_state_with_record db later s id state by why ≡ ok s')
    unfolding update_state_with_record put_moved
    update_succeeds later s id state by why t r =
        let next =
          record_transition s.max_state_history later state by why
            (next_attempt t.state_history state) t in
        let ((u, s₁), wrote) = put_succeeds db writes s next in
        let index = move_in_state_index id t.state next.state t.created_at s.state_index in
        (
          record s₁ { state_index = index },
          rw (r, update_state_with_record) (rw (wrote, put_moved) refl),
        )

    -- On a backend whose writes succeed and a store with its invariant that holds no task of the id,
    -- the store's part of `CreateTask` returns a fresh task of a nonempty id in the initial state, at
    -- version 1 and not archived, and the store holds that task under its id.
    pub store_task_succeeds :
        (initial : TaskState) (now later : Time) (t : Task) (s : TaskStore D)
        → Inv db s
        → get db s t.id ≡ err not_found
        → t.archived_at ≡ none
        → t.version ≡ 0
        → is_empty t.id ≡ false
        → let (s', r) = store_task db initial now later t s in
          (u : Task) × (r ≡ ok u)
          × (get db s' t.id ≡ ok u)
          × (u.id ≡ t.id)
          × (u.state ≡ initial)
          × (u.version ≡ 1)
          × (u.archived_at ≡ none)
          × (u.metadata ≡ t.metadata)
          × (u.name ≡ t.name)
          × (u.priority ≡ t.priority)
          × (u.trace_id ≡ t.trace_id)
    unfolding store_task with_defaults bumped record_transition
    store_task_succeeds initial now later t s v fresh alive zero_version named =
        let ((t', s₁), made) = create_succeeds now s t named in
        let v₁ = create-Inv db laws now s t t' s₁ v fresh alive made in
        let got = get-create db laws now s t t' s₁ t.id made in
        let there : get db s₁ t.id ≡ ok t' = ground (arith, got, eq_iff t.id t.id) in
        let alive' : t'.archived_at ≡ none = ground (arith, got.0, alive) in
        let (s₂, set) = update_succeeds later s₁ t.id initial "system" "task created" t' there in
        let (v₂, final) =
          update-after-create later s₁ s₂ t.id initial "system" "task created" t' v₁ there alive'
            set in
        (
          bumped (
              record_transition s₁.max_state_history later initial "system" "task created"
                (next_attempt t'.state_history initial) t'),
          rw (made, store_task) (rw set final),
          rw (made, store_task) (rw set final),
          ground (arith, got.0),
          refl,
          ground (arith, got.0, zero_version),
          alive',
          ground (arith, got.0),
          ground (arith, got.0),
          ground (arith, got.0),
          ground (arith, got.0),
        )
