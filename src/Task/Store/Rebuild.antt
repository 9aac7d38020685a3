-- ===== src/Task/Store/Rebuild.antt =====
-- The index that `NewTaskStore` rebuilds from what the backend holds.
use nuts.Base.{
  ◌≡◌, refl, inl, inr, String, true, ◌&&◌, not, Option, none, some, List, [], ◌∷◌, if◌then◌else◌,
  str_eq, eq_iff, str_eq-join, arith, Bool-cases, Option-cases, contains, Distinct,
  starts_with-join, lookup_list, lookup, sym, join-injective,
}
use nuts.Base.Int.{ℤ}
use nuts.Db.{Db, DbLaws, Json, is_some}
use nuts.Task.{Time, TaskState, Task, ok}
use nuts.Task.Store.{StateIndex, TaskStore, task_key, add_to_state_index}
use nuts.Task.Store.Index.{indexed, Buckets, indexed-add, add-Buckets, entry_time}
use nuts.Task.Store.Ops.{get}
use nuts.Task.Store.Query.{read, index_keys, new_task_store}
use nuts.Task.Store.Invariant.{Inv, live_time}

abbrev live_read : TaskState → Option Task → Option Time
live_read st none = none
live_read st (some t) =
    if not (is_some t.archived_at) && str_eq t.state st then some t.created_at else none

module _ {D : Type 0} (db : Db D (Json Task)) where
  live_read-get :
      (s : TaskStore D) (st : TaskState) (id : String)
      → live_time st (get db s id) ≡ live_read st (read db s.backing (task_key id))
  unfolding get read
  live_read-get s st id = ground arith

  -- Every task lies under its own key.
  abbrev pub Keyed : D → Type 0
  Keyed d = (key : String) (t : Task) → read db d key ≡ some t → key ≡ task_key t.id

  -- No key of the list is in the index yet.
  abbrev Fresh : List String → StateIndex → Type 0
  Fresh ks index =
      (st : TaskState) (id : String) → contains ks (task_key id) ≡ true → indexed index st id ≡ none

  module _ (d : D) (keyed : Keyed d) where
    step : String → StateIndex → StateIndex
    step key index = elim (read db d key) [
      | none ↦ index
      | some t ↦
          if is_some t.archived_at
          then index
          else add_to_state_index t.id t.state t.created_at index
    ]

    -- One round of the loop, for a key that is not in the index.
    indexed-step :
        (key : String) (index : StateIndex)
        → ((st : TaskState) (id : String)
            → str_eq key (task_key id) ≡ true
            → indexed index st id ≡ none)
        → (st : TaskState) (id : String)
        → indexed (step key index) st id
          ≡ (if str_eq key (task_key id) then live_read st (read db d key) else indexed index st id)
    unfolding step task_key
    indexed-step key index free st id = elim (Option-cases (read db d key)) [
      | inl e ↦ ground (arith, e, free st id)
      | inr (t, e) ↦ ground (
        arith,
        e,
        keyed key t e,
        eq_iff key (task_key t.id),
        free t.state t.id,
        free st id,
        str_eq-join "task:" t.id id,
        indexed-add t.id id t.state st t.created_at index,
      )
    ]

    step-Buckets :
        (key : String) (index : StateIndex)
        → ((st : TaskState) (id : String)
            → str_eq key (task_key id) ≡ true
            → indexed index st id ≡ none)
        → Buckets index
        → Buckets (step key index)
    unfolding step
    step-Buckets key index free b = elim (Option-cases (read db d key)) [
      | inl e ↦ rw (e, step) b
      | inr (t, e) ↦
          rw (e, step)
            (elim (Bool-cases (is_some t.archived_at)) [
              | inl a ↦ rw a b
              | inr a ↦ rw a (
                  add-Buckets t.id t.state t.created_at index
                    (free t.state t.id ((eq_iff key (task_key t.id)).1 (keyed key t e))) b)
            ])
    ]

    indexed-index_keys :
        (ks : List String) (index : StateIndex)
        → Distinct ks
        → Fresh ks index
        → Buckets index
        → Buckets (index_keys db d ks index)
          × ((st : TaskState) (id : String)
              → indexed (index_keys db d ks index) st id ≡ (
                  if contains ks (task_key id)
                  then live_read st (read db d (task_key id))
                  else indexed index st id))
    unfolding index_keys step
    indexed-index_keys [] index dk fresh b = (b, λ st id. refl)
    indexed-index_keys (key ∷ ks) index dk fresh b =
        let once = indexed-step key index (λ st id e. fresh st id (ground (arith, e))) in
        let rest =
          indexed-index_keys ks (step key index) dk.1
            (λ st id e. ground (arith, once st id, fresh st id, e, dk.0, eq_iff key (task_key id)))
            (step-Buckets key index (λ st id e. fresh st id (ground (arith, e))) b) in
        (rest.0, λ st id. ground (arith, rest.1 st id, once st id, dk.0, eq_iff key (task_key id)))

  read_of_get :
      (s : TaskStore D) (id : String) (t : Task)
      → get db s id ≡ ok t
      → read db s.backing (task_key id) ≡ some t
  unfolding get read
  read_of_get s id t e = ground arith

  -- A key that is not listed has no task.
  found :
      (laws : DbLaws db) (d : D) (st : TaskState) (id : String) (ks : List String)
      → db.list d "task:" ≡ some ks
      → (if contains ks (task_key id) then live_read st (read db d (task_key id)) else none)
        ≡ live_read st (read db d (task_key id))
  unfolding read task_key
  found laws d st id ks listing =
      ground
        (arith, laws.contains-list d "task:" (task_key id) ks listing, starts_with-join "task:" id)

  -- A store opened over a backend that lists its keys, each once, and holds each task under its own
  -- key, has the invariant: the rebuilt index has an entry for each task that is not archived, and
  -- no other.
  pub new_task_store-Inv :
      (laws : DbLaws db) (d : D) (max : ℤ) (ks : List String)
      → db.list d "task:" ≡ some ks
      → Distinct ks
      → Keyed d
      → Inv db (new_task_store db d max)
  unfolding new_task_store task_key entry_time lookup_list lookup
  new_task_store-Inv laws d max ks listing dk keyed =
      let s = new_task_store db d max in
      let built =
        indexed-index_keys d keyed ks [] dk
          (λ st id e. unfold lookup_list lookup entry_time in refl)
          (λ st. unfold lookup_list lookup in tt) in
      record {
        keyed = λ id t e.
            sym (join-injective "task:" id t.id (keyed (task_key id) t (read_of_get s id t e)));
        tracked = λ st id.
            rw (live_read-get s st id, listing, (built.1 st id)) (found laws d st id ks listing);
        buckets = rw listing built.0;
      }
