-- ===== src/Task/Store/Listing.antt =====
-- What a listing by state returns, and that the count by the index agrees with it.
use nuts.Base.{
  ◌≡◌, refl, inl, inr, String, Bool, true, false, ◌&&◌, ◌||◌, not, none, some, List, [], ◌∷◌,
  str_eq, eq_iff, arith, All, length, map, lookup_list, take-length, is_empty, ◌∙◌, ◌-◌,
}
use nuts.Base.Int.{pos}
use nuts.Db.{Db, Json, is_some}
use nuts.Task.{TaskState, Task, TaskFilter, Result, ok, err, Result-cases}
use nuts.Task.Store.{IndexEntry, TaskStore, task_key, match_filter}
use nuts.Task.Store.Index.{entry_time}
use nuts.Task.Store.Ops.{get}
use nuts.Task.Store.Query.{
  read, collect, list_by_state, list, count, counts_by_index, page_ids, page_end,
}
use nuts.Task.Store.Invariant.{Inv}

-- Is a task of that id among them?
pub task_in : String → List Task → Bool
task_in id [] = false
task_in id (t ∷ ts) = str_eq t.id id || task_in id ts

-- The ids of a bucket, as `listByState` reads them.
abbrev ids : List IndexEntry → List String
ids = map (λ e. e.id)

every_entry :
    {Q : String → Type 0} (es : List IndexEntry)
    → ((id : String) → is_some (entry_time id es) ≡ true → Q id)
    → All (λ (e : IndexEntry). Q e.id) es
unfolding entry_time
every_entry [] h = tt
every_entry (x ∷ es) h =
    (h x.id (ground (arith, eq_iff x.id x.id)), every_entry es (λ id e. h id (ground (arith, e))))

-- Which tasks a listing by state should return: those that are not archived, in that state, and pass
-- the filter.
abbrev pub listed : TaskFilter → Result Task → Bool
listed f (err _) = false
listed f (ok t) = not (is_some t.archived_at) && str_eq t.state f.state && match_filter t f

module _ {D : Type 0} (db : Db D (Json Task)) where
  -- A task that a bucket speaks of.
  record Live (d : D) (st : TaskState) (id : String) : Type 0 where
    task : Task
    reads : read db d (task_key id) ≡ some task
    in_state : task.state ≡ st
    active : task.archived_at ≡ none
    named : task.id ≡ id

  bucket-Live :
      (s : TaskStore D)
      → Inv db s
      → (st : TaskState)
      → All (λ (e : IndexEntry). Live s.backing st e.id) (lookup_list st s.state_index)
  bucket-Live s v st = every_entry (lookup_list st s.state_index) λ id h.
      elim (Result-cases (get db s id)) [
        | inl (x, r) ↦ absurd (ground (arith, r, v.tracked st id, h))
        | inr (t, r) ↦ record {
          task = t;
          reads = unfold get read in (ground (arith, r));
          in_state = ground (arith, r, v.tracked st id, h, eq_iff t.state st);
          active = ground (arith, r, v.tracked st id, h);
          named = v.keyed id t r;
        }
      ]

  length-collect :
      (d : D) (f : TaskFilter) (es : List IndexEntry)
      → counts_by_index f ≡ true
      → All (λ (e : IndexEntry). Live d f.state e.id) es
      → length (collect db d f (map task_key (ids es))) ≡ length es
  unfolding collect match_filter counts_by_index
  length-collect d f [] plain a = refl
  length-collect d f (x ∷ es) plain a =
      ground (arith, a.0, eq_iff a.0.task.state f.state, length-collect d f es plain a.1)

  task_in-collect :
      (d : D) (f : TaskFilter) (id : String) (es : List IndexEntry)
      → All (λ (e : IndexEntry). Live d f.state e.id) es
      → task_in id (collect db d f (map task_key (ids es))) ≡ (
          is_some (entry_time id es)
          && elim (read db d (task_key id)) [ none ↦ false | some t ↦ match_filter t f ])
  unfolding collect task_in entry_time
  task_in-collect d f id [] a = refl
  task_in-collect d f id (x ∷ es) a =
      ground (arith, a.0, eq_iff a.0.task.id id, eq_iff x.id id, task_in-collect d f id es a.1)

  whole_page : (es : List IndexEntry) → page_ids (pos 0) (pos 0) es ≡ ok (ids es)
  unfolding page_ids page_end
  whole_page es = ground (arith, take-length es (length es - 0))

  -- From a store with its invariant, a listing by a state, with no offset and no limit, succeeds, and
  -- holds a task of an id exactly if the stored task of that id is not archived, is in the state
  -- and passes the filter.
  pub list-listed :
      (s : TaskStore D) (f : TaskFilter)
      → Inv db s
      → is_empty f.state ≡ false
      → f.offset ≡ pos 0
      → f.limit ≡ pos 0
      → (ts : List Task) × (list db s f ≡ ok ts)
        × ((id : String) → task_in id ts ≡ listed f (get db s id))
  unfolding list list_by_state
  list-listed s f v stated off lim =
      let es = lookup_list f.state s.state_index in
      let alive = bucket-Live s v f.state in
      (
        collect db s.backing f (map task_key (ids es)),
        ground (arith, stated, off, lim, whole_page es),
        λ id.
            task_in-collect s.backing f id es alive
            ∙ unfold get read in (ground (arith, v.tracked f.state id)),
      )

  plain-stated : (f : TaskFilter) → counts_by_index f ≡ true → is_empty f.state ≡ false
  unfolding counts_by_index
  plain-stated f h = ground arith

  -- From a store with its invariant and for a filter that `Count` answers off the index, with no
  -- offset and no limit, the count is the length of the listing.
  pub count-length :
      (s : TaskStore D) (f : TaskFilter)
      → Inv db s
      → counts_by_index f ≡ true
      → f.offset ≡ pos 0
      → f.limit ≡ pos 0
      → (ts : List Task) × (list db s f ≡ ok ts) × (count db s f ≡ ok (length ts))
  unfolding count list list_by_state
  count-length s f v plain off lim =
      let es = lookup_list f.state s.state_index in
      (
        collect db s.backing f (map task_key (ids es)),
        ground (arith, plain-stated f plain, off, lim, whole_page es),
        ground (arith, plain, length-collect s.backing f es plain (bucket-Live s v f.state)),
      )
