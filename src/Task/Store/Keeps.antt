-- ===== src/Task/Store/Keeps.antt =====
-- The store's operations keep the invariant.
use nuts.Base.{
  ◌≡◌, refl, inl, inr, String, true, false, ◌&&◌, not, Option, none, if◌then◌else◌, str_eq, eq_iff,
  str_eq-join, arith, Bool-cases, Option-cases, ℕ, subst, sym, ◌∙◌, ◌==◌, ap,
}
use nuts.Db.{Db, DbLaws, Json, encoded, is_some}
use nuts.Task.{
  Time, TaskState, Task, ok, err, not_found, Result-cases, TaskResult, >>=-eq-ok, ok-injective,
  require, version_conflict,
}
use nuts.Task.Store.{
  StateIndex, TaskStore, task_key, add_to_state_index, remove_from_state_index, move_in_state_index,
  record_transition,
}
use nuts.Task.Store.Index.{
  indexed, Buckets, indexed-remove, indexed-add, remove-Buckets, add-Buckets,
}
use nuts.Task.Store.Ops.{
  get, put, create, update, delete, Changes, transitioned, transitioned_index, new_archived_at,
  bumped, with_defaults, update_result, update_state_with_record, put_moved, update_state,
}
use nuts.Task.Store.Invariant.{
  Inv, live_time, rewritten, indexed-move, move-Buckets, Moved, tracks, get-put, get-index,
}

module _ (id : String) (old new : TaskState) (c : Time) (archived : Option Time)
    (index : StateIndex) (b : Buckets index)
    (free : str_eq old new ≡ false → indexed index new id ≡ none) where
  indexed-transitioned :
      (st : TaskState) (j : String)
      → indexed (transitioned_index id old new c archived index) st j ≡ (
          if is_some archived && (str_eq new st && str_eq id j)
          then none
          else indexed (move_in_state_index id old new c index) st j)
  unfolding transitioned_index
  indexed-transitioned st j = ground (
    arith,
    indexed-remove id j new st (move_in_state_index id old new c index)
        (move-Buckets id old new c index b free),
  )

  transitioned-Buckets : Buckets (transitioned_index id old new c archived index)
  unfolding transitioned_index
  transitioned-Buckets = elim (Bool-cases (is_some archived)) [
    | inl e ↦ rw e (remove-Buckets id new _ (move-Buckets id old new c index b free))
    | inr e ↦ rw e (move-Buckets id old new c index b free)
  ]

module _ {D : Type 0} (db : Db D (Json Task)) (laws : DbLaws db) where
  pub Moved-Inv :
      (now : Time) (s : TaskStore D) (id : String) (target : TaskState) (by why : String)
      (c : Changes) (t u : Task) (s' : TaskStore D)
      → (m : Moved db now s id target by why c t u s') → Inv db s
      → tracks t target c ≡ true
      → Inv db s'
  unfolding transitioned bumped record_transition new_archived_at
  Moved-Inv now s id target by why c t u s' m v ok_change =
      let named : t.id ≡ id = v.keyed id t m.read in
      let free : str_eq t.state target ≡ false → indexed s.state_index target id ≡ none =
        λ e. ground (arith, e, v.tracked target id, m.read) in
      rewritten db laws s s' id u v (ground (arith, m.after, named))
        (λ j.
          subst (λ k. get db s' j ≡ (if str_eq k j then ok u else get db s j)) named (m.reads j))
        (λ st j. ground (
          arith,
          m.index,
          m.after,
          m.read,
          indexed-transitioned id t.state target t.created_at c.set_archived_at s.state_index
              v.buckets free st j,
          indexed-move id t.state target t.created_at s.state_index v.buckets st j free,
          v.tracked st j,
          eq_iff id j,
          eq_iff target st,
          eq_iff t.state st,
          eq_iff t.state target,
        ))
        (subst Buckets (sym m.index) (
          transitioned-Buckets id t.state target t.created_at c.set_archived_at s.state_index
            v.buckets free))

  -- Reads after a successful `Create`, `Delete` or write of one task.
  pub get-create :
      (now : Time) (s : TaskStore D) (t u : Task) (s' : TaskStore D) (j : String)
      → create db now s t ≡ ok (u, s')
      → (u ≡ with_defaults now t)
        × (s'.max_state_history ≡ s.max_state_history)
        × (s'.state_index ≡ add_to_state_index t.id u.state u.created_at s.state_index)
        × (get db s' j ≡ (if str_eq t.id j then ok u else get db s j))
  unfolding create get task_key
  get-create now s t u s' j e =
      elim (Option-cases (db.write s.backing (task_key t.id) (encoded (with_defaults now t)))) [
        | inl w ↦ ground (arith, w, e)
        | inr (d, w) ↦ ground (
          arith,
          w,
          e,
          laws.get-write s.backing d (task_key t.id) (task_key j) (encoded (with_defaults now t)) w,
          str_eq-join "task:" t.id j,
        )
      ]

  pub get-delete :
      (s s' : TaskStore D) (id j : String)
      → delete db s id ≡ ok s'
      → (s'.max_state_history ≡ s.max_state_history)
        × (s'.state_index ≡ elim (get db s id) [
          | err _ ↦ s.state_index
          | ok t ↦ remove_from_state_index id t.state s.state_index
        ])
        × (get db s' j ≡ (if str_eq id j then err not_found else get db s j))
  unfolding delete get task_key
  get-delete s s' id j e = elim (Option-cases (db.delete s.backing (task_key id))) [
    | inl w ↦ ground (arith, w, e)
    | inr (d, w) ↦ ground (
      arith,
      w,
      e,
      laws.get-delete s.backing d (task_key id) (task_key j) w,
      str_eq-join "task:" id j,
    )
  ]

  -- A task that is created under a fresh id is tracked, if it is not born archived.
  pub create-Inv :
      (now : Time) (s : TaskStore D) (t u : Task) (s' : TaskStore D)
      → Inv db s
      → get db s t.id ≡ err not_found
      → t.archived_at ≡ none
      → create db now s t ≡ ok (u, s')
      → Inv db s'
  unfolding with_defaults
  create-Inv now s t u s' v fresh alive e =
      let made = λ (j : String). get-create now s t u s' j e in
      let free : indexed s.state_index u.state t.id ≡ none =
        ground (arith, v.tracked u.state t.id, fresh) in
      rewritten db laws s s' t.id u v (ground (arith, made t.id)) (λ j. (made j).3)
        (λ st j. ground (
          arith,
          made j,
          fresh,
          indexed-add t.id j u.state st u.created_at s.state_index free,
          v.tracked st j,
          eq_iff t.id j,
          eq_iff u.state st,
        ))
        (subst Buckets (sym (made t.id).2) (add-Buckets t.id u.state u.created_at _ free v.buckets))

  -- A `Delete` that returns no error keeps the invariant, for any id.
  pub delete-Inv :
      (s s' : TaskStore D) (id : String) → Inv db s → delete db s id ≡ ok s' → Inv db s'
  delete-Inv s s' id v e =
      let gone = λ (j : String). get-delete s s' id j e in
      elim (Result-cases (get db s id)) [
        | inl (x, r) ↦ record {
          keyed = λ j t h. ground (arith, gone j, v.keyed j t);
          tracked = λ st j. ground (arith, gone j, r, v.tracked st j, eq_iff id j);
          buckets = ground (arith, gone id, r, v.buckets);
        }
        | inr (t, r) ↦ record {
          keyed = λ j t' h. ground (arith, gone j, v.keyed j t');
          tracked = λ st j. ground (
            arith,
            gone j,
            r,
            v.tracked st j,
            eq_iff id j,
            eq_iff t.state st,
            indexed-remove id j t.state st s.state_index v.buckets,
          );
          buckets =
              subst Buckets (sym (rw r at ((gone id).1))) (remove-Buckets id t.state _ v.buckets);
        }
      ]

  -- A write that keeps a task's id, bucket and age keeps the invariant.
  put-Inv :
      (s s' : TaskStore D) (id : String) (t next u : Task)
      → Inv db s
      → get db s id ≡ ok t
      → next.id ≡ t.id
      → ((st : TaskState) → live_time st (ok next) ≡ live_time st (ok t))
      → put db s next ≡ ok (u, s')
      → Inv db s'
  unfolding bumped
  put-Inv s s' id t next u v r same bucket e =
      let wrote = λ (j : String). get-put db laws s next u s' j e in
      let named : next.id ≡ id = same ∙ v.keyed id t r in
      rewritten db laws s s' id u v (ground (arith, wrote id, named))
        (λ j.
          subst (λ k. get db s' j ≡ (if str_eq k j then ok u else get db s j)) named (wrote j).3)
        (λ st j. ground (arith, wrote j, r, bucket st, v.tracked st j, eq_iff id j))
        (subst Buckets (sym (wrote id).1) v.buckets)

  pub update_result-Inv :
      (now : Time) (s s' : TaskStore D) (id : String) (result : Option TaskResult)
      → Inv db s
      → update_result db now s id result ≡ ok s'
      → Inv db s'
  unfolding update_result
  update_result-Inv now s s' id result v e =
      let (t, r, rest) = >>=-eq-ok (get db s id) _ e in
      let ((u, s₁), wrote, done) = >>=-eq-ok _ _ rest in
      subst (Inv db) (ok-injective done) (
        put-Inv s s₁ id t (record t { result = result; updated_at = now }) u v r refl (λ st. refl)
          wrote)

  put_moved-Inv :
      (now : Time) (s s' : TaskStore D) (id : String) (state : TaskState) (by why : String) (n : ℕ)
      (t : Task)
      → Inv db s
      → get db s id ≡ ok t
      → t.archived_at ≡ none
      → put_moved db s id t (record_transition s.max_state_history now state by why n t) ≡ ok s'
      → Inv db s'
  unfolding put_moved record_transition bumped
  put_moved-Inv now s s' id state by why n t v r alive e =
      let next = record_transition s.max_state_history now state by why n t in
      let named : t.id ≡ id = v.keyed id t r in
      let ((u, s₁), wrote, done) = >>=-eq-ok (put db s next) _ e in
      let free : str_eq t.state state ≡ false → indexed s.state_index state id ≡ none =
        λ x. ground (arith, x, v.tracked state id, r) in
      let moved = move_in_state_index id t.state state t.created_at s.state_index in
      let got = λ (j : String). get-put db laws s next u s₁ j wrote in
      subst (Inv db) (ok-injective done) (
        rewritten db laws s (record s₁ { state_index = moved }) id u v
          (ground (arith, got id, named))
          (λ j.
            get-index db s₁ moved j
            ∙ subst (λ k. get db s₁ j ≡ (if str_eq k j then ok u else get db s j)) named (got j).3)
          (λ st j. ground (
            arith,
            got j,
            r,
            alive,
            v.tracked st j,
            eq_iff id j,
            eq_iff state st,
            eq_iff t.state st,
            eq_iff t.state state,
            indexed-move id t.state state t.created_at s.state_index v.buckets st j free,
          ))
          (move-Buckets id t.state state t.created_at s.state_index v.buckets free))

  -- `UpdateState` and `UpdateStateWithRecord` move the entry of a task that is not archived.
  pub update_state_with_record-Inv :
      (now : Time) (s s' : TaskStore D) (id : String) (state : TaskState) (by why : String)
      (t : Task)
      → Inv db s
      → get db s id ≡ ok t
      → t.archived_at ≡ none
      → update_state_with_record db now s id state by why ≡ ok s'
      → Inv db s'
  unfolding update_state_with_record
  update_state_with_record-Inv now s s' id state by why t v r alive e =
      put_moved-Inv now s s' id state by why _ t v r alive (rw r at e)

  pub update_state-Inv :
      (now : Time) (s s' : TaskStore D) (id : String) (state : TaskState) (t : Task)
      → Inv db s
      → get db s id ≡ ok t
      → t.archived_at ≡ none
      → update_state db now s id state ≡ ok s'
      → Inv db s'
  unfolding update_state
  update_state-Inv now s s' id state t v r alive e =
      put_moved-Inv now s s' id state "system" "" 1 t v r alive (rw r at e)

  -- On a store with its invariant that holds a task of the id, an `Update` that returns no error
  -- keeps the invariant, if the caller has left the state and the creation time alone and has not
  -- cleared `archivedAt`.
  pub update-Inv :
      (now : Time) (s s' : TaskStore D) (t old u : Task)
      → Inv db s
      → get db s t.id ≡ ok old
      → t.state ≡ old.state
      → t.created_at ≡ old.created_at
      → (is_some old.archived_at ≡ true → is_some t.archived_at ≡ true)
      → update db now s t ≡ ok (u, s')
      → Inv db s'
  unfolding update bumped
  update-Inv now s s' t old u v r same_state same_time kept e =
      let (x, pass, rest) =
        >>=-eq-ok (require (t.version == old.version) version_conflict) _ (rw r at e) in
      let next = record t { updated_at = now } in
      let ((u₁, s₁), wrote, done) = >>=-eq-ok (put db s next) _ rest in
      let got = λ (j : String). get-put db laws s next u₁ s₁ j wrote in
      let leaves = is_some t.archived_at && not (is_some old.archived_at) in
      let index =
        if leaves then remove_from_state_index t.id old.state s.state_index else s.state_index in
      let bs : Buckets index = elim (Bool-cases leaves) [
        | inl y ↦ rw y (remove-Buckets t.id old.state s.state_index v.buckets)
        | inr y ↦ rw y v.buckets
      ] in
      subst (Inv db) (ap (λ (p : Task × TaskStore D). p.1) (ok-injective done)) (
        rewritten db laws s (record s₁ { state_index = index }) t.id u₁ v (ground (arith, got t.id))
          (λ j. get-index db s₁ index j ∙ (got j).3)
          (λ st j. ground (
            arith,
            got j,
            r,
            v.tracked st j,
            eq_iff t.id j,
            eq_iff old.state st,
            eq_iff t.state st,
            indexed-remove t.id j old.state st s.state_index v.buckets,
          ))
          bs)
