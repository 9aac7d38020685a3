-- ===== src/Task/Store/Invariant.antt =====
-- What holds of a task store between two calls: the index holds the live tasks and no other.
use nuts.Base.{
  ◌≡◌, refl, inl, inr, String, Bool, true, false, ◌&&◌, ◌||◌, not, Option, none, some,
  if◌then◌else◌, str_eq, eq_iff, str_eq-join, arith, Bool-cases, Option-cases, ◌∙◌, subst,
}
use nuts.Db.{Db, DbLaws, Json, encoded, is_some}
use nuts.Task.{Time, TaskState, Task, Result, ok, err, >>=-eq-ok, ℤ, ok-injective}
use nuts.Task.Store.{
  StateIndex, TaskStore, task_key, remove_from_state_index, move_in_state_index, record_transition,
}
use nuts.Task.Store.Index.{
  indexed, Buckets, indexed-remove, indexed-add, remove-Buckets, add-Buckets,
}
use nuts.Task.Store.Ops.{
  get, put, transition_state, Changes, transitioned, transitioned_index, bumped,
}

-- The entry that a bucket should hold for a task that was read: its creation time, if it is not
-- archived and in the bucket's state.
abbrev pub live_time : TaskState → Result Task → Option Time
live_time st (err _) = none
live_time st (ok t) =
    if not (is_some t.archived_at) && str_eq t.state st then some t.created_at else none

module _ {D : Type 0} (db : Db D (Json Task)) where
  pub record Inv (s : TaskStore D) : Type 0 where
    pub keyed : (id : String) (t : Task) → get db s id ≡ ok t → t.id ≡ id
    pub tracked :
        (st : TaskState) (id : String) → indexed s.state_index st id ≡ live_time st (get db s id)
    pub buckets : Buckets s.state_index

module _ {D : Type 0} (db : Db D (Json Task)) (laws : DbLaws db) where
  -- A write that succeeds is read back under its task's id, and changes no other task.
  pub get-put :
      (s : TaskStore D) (t u : Task) (s' : TaskStore D) (j : String)
      → put db s t ≡ ok (u, s')
      → (u ≡ bumped t)
        × (s'.state_index ≡ s.state_index)
        × (s'.max_state_history ≡ s.max_state_history)
        × (get db s' j ≡ (if str_eq t.id j then ok u else get db s j))
  unfolding put get task_key
  get-put s t u s' j e =
      elim (Option-cases (db.write s.backing (task_key t.id) (encoded (bumped t)))) [
        | inl w ↦ ground (arith, w, e)
        | inr (d, w) ↦ ground (
          arith,
          w,
          e,
          laws.get-write s.backing d (task_key t.id) (task_key j) (encoded (bumped t)) w,
          str_eq-join "task:" t.id j,
        )
      ]

  -- A store in which one task was rewritten, and its entries with it.
  pub rewritten :
      (s s' : TaskStore D) (id : String) (u : Task)
      → Inv db s
      → u.id ≡ id
      → ((j : String) → get db s' j ≡ (if str_eq id j then ok u else get db s j))
      → ((st : TaskState) (j : String)
          → indexed s'.state_index st j
            ≡ (if str_eq id j then live_time st (ok u) else indexed s.state_index st j))
      → Buckets s'.state_index
      → Inv db s'
  rewritten s s' id u v named reads entries b = record {
    keyed = λ j t e. ground (arith, reads j, v.keyed j t, eq_iff id j);
    tracked = λ st j. ground (arith, reads j, entries st j, v.tracked st j);
    buckets = b;
  }

-- The entries before and after a move, in every bucket.
module _ (id : String) (old new : TaskState) (c : Time) (index : StateIndex)
    (b : Buckets index) where
  pub indexed-move :
      (st : TaskState) (j : String)
      → (str_eq old new ≡ false → indexed index new id ≡ none)
      → indexed (move_in_state_index id old new c index) st j ≡ (
          if str_eq old new
          then indexed index st j
          else if str_eq new st && str_eq id j
          then some c
          else if str_eq old st && str_eq id j
          then none
          else indexed index st j)
  unfolding move_in_state_index
  indexed-move st j free = elim (Bool-cases (str_eq old new)) [
    | inl same ↦ rw same
    | inr moved ↦ rw moved (
        ground (
          arith,
          free moved,
          indexed-remove id id old new index b,
          indexed-remove id j old st index b,
          indexed-add id j new st c (remove_from_state_index id old index),
        ))
  ]

  pub move-Buckets :
      (str_eq old new ≡ false → indexed index new id ≡ none)
      → Buckets (move_in_state_index id old new c index)
  unfolding move_in_state_index
  move-Buckets free = elim (Bool-cases (str_eq old new)) [
    | inl same ↦ rw same b
    | inr moved ↦ rw moved (
        add-Buckets id new c _ (ground (arith, free moved, indexed-remove id id old new index b))
          (remove-Buckets id old index b))
  ]

-- May these changes be made to this task without losing track of it? An archived task stays out of
-- the index unless it is cleared and moves.
abbrev pub tracks : Task → TaskState → Changes → Bool
tracks t target c =
    if is_some c.set_archived_at
    then true
    else if c.clear_archived
    then not (is_some t.archived_at && str_eq t.state target)
    else (not (is_some t.archived_at) || str_eq t.state target)

-- What a successful `TransitionState` did: it read the task, wrote the changed one under that id
-- and no other, and left the index as `transitioned_index` says.
-- A read looks at the backend alone.
pub get-index :
    {D : Type 0} (db : Db D (Json Task)) (s : TaskStore D) (index : StateIndex) (j : String)
    → get db (record s { state_index = index }) j ≡ get db s j
unfolding get
get-index db s index j = refl

pub id-transitioned :
    (max : ℤ) (now : Time) (target : TaskState) (by why : String) (c : Changes) (t : Task)
    → (transitioned max now target by why c t).id ≡ t.id
unfolding transitioned record_transition
id-transitioned max now target by why c t = refl

pub record Moved {D : Type 0} (db : Db D (Json Task)) (now : Time) (s : TaskStore D) (id : String)
    (target : TaskState) (by why : String) (c : Changes) (t u : Task) (s' : TaskStore D)
    : Type 0 where
  pub read : get db s id ≡ ok t
  pub after : u ≡ bumped (transitioned s.max_state_history now target by why c t)
  pub limit : s'.max_state_history ≡ s.max_state_history
  pub reads : (j : String) → get db s' j ≡ (if str_eq t.id j then ok u else get db s j)
  pub index :
      s'.state_index
      ≡ transitioned_index id t.state target t.created_at c.set_archived_at s.state_index

module _ {D : Type 0} (db : Db D (Json Task)) (laws : DbLaws db) where
  module _ (now : Time) (s : TaskStore D) (id : String) (target : TaskState) (by why : String)
      (c : Changes) where
    abbrev moved_store : Task → TaskStore D → TaskStore D
    moved_store t s₁ = record s₁ {
      state_index =
          transitioned_index id t.state target t.created_at c.set_archived_at s.state_index;
    }

    put-Moved :
        (t v : Task) (s₁ : TaskStore D)
        → get db s id ≡ ok t
        → put db s (transitioned s.max_state_history now target by why c t) ≡ ok (v, s₁)
        → Moved db now s id target by why c t v (moved_store t s₁)
    put-Moved t v s₁ good wrote =
        let next = transitioned s.max_state_history now target by why c t in
        let named = id-transitioned s.max_state_history now target by why c t in
        record {
          read = good;
          after = (get-put db laws s next v s₁ id wrote).0;
          limit = (get-put db laws s next v s₁ id wrote).2;
          reads = λ j.
              get-index db s₁ _ j
              ∙ subst (λ k. get db s₁ j ≡ (if str_eq k j then ok v else get db s j)) named
                  (get-put db laws s next v s₁ j wrote).3;
          index = refl;
        }

    pub transition_state-Moved {ℓ} :
        {W : Type ℓ} (post : W → W) (w : W) (t u : Task) (s' : TaskStore D) (w' : W)
        → get db s id ≡ ok t
        → transition_state db now s id target by why c post w ≡ ok (u, s', w')
        → Moved db now s id target by why c t u s' × (w' ≡ post w)
    unfolding transition_state
    transition_state-Moved post w t u s' w' good e =
        let ((v, s₁), wrote, done) =
          >>=-eq-ok (put db s (transitioned s.max_state_history now target by why c t)) _
            (rw good at e) in
        subst (λ r. Moved db now s id target by why c t r.0 r.1 × (r.2 ≡ post w))
          (ok-injective done) (put-Moved t v s₁ good wrote, refl)
