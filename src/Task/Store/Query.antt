-- ===== src/Task/Store/Query.antt =====
-- pkg/task/engine_store.go: the listings of `engineTaskStore`, and the index rebuilt at start.
use nuts.Base.{
  ℕ, ◌+◌, ◌-◌, ◌^◌, String, Bool, ◌&&◌, not, Option, none, some, List, [], ◌∷◌, if◌then◌else◌, ltb,
  leb, is_empty, lookup_list, length, drop, take, map,
}
use nuts.Base.Int.{ℤ, pos, negsuc}
use nuts.Db.{Db, Json, unmarshal, is_some}
use nuts.Task.{Task, TaskFilter, Result, ok, err, ◌>>=◌, or_fail, list_failed, panics}
use nuts.Task.Store.{IndexEntry, StateIndex, TaskStore, task_key, add_to_state_index, match_filter}

-- `sort.Slice` by creation time, newest first. (`sort.Slice` may put equal times in another order.)
unfoldable pub insert_newest : Task → List Task → List Task
insert_newest t [] = t ∷ []
insert_newest t (x ∷ xs) =
    if ltb x.created_at t.created_at then t ∷ (x ∷ xs) else x ∷ insert_newest t xs

unfoldable pub sort_newest : List Task → List Task
unfolding insert_newest
sort_newest [] = []
sort_newest (t ∷ ts) = insert_newest t (sort_newest ts)

-- The pagination of `List`: a negative offset or limit is ignored.
unfoldable pub skip_offset : ℤ → List Task → List Task
skip_offset (negsuc n) ts = ts
skip_offset (pos n) ts = if leb (length ts) n && ltb 0 n then [] else drop n ts

unfoldable pub cut_limit : ℤ → List Task → List Task
cut_limit (negsuc n) ts = ts
cut_limit (pos n) ts = if ltb 0 n && ltb n (length ts) then take n ts else ts

-- The end of the page of `listByState`. Past 2^63 the sum wraps, and the page has a negative length.
unfoldable pub page_end : ℕ → ℤ → ℕ → Result ℕ
page_end start (negsuc l) total = ok total
page_end start (pos l) total =
    if ltb 0 l
    then if leb (2 ^ 63) (start + l)
      then err panics
      else ok (if ltb (start + l) total then start + l else total)
    else ok total

-- The ids of `entries[start:end]`; a negative start is out of range.
unfoldable pub page_ids : ℤ → ℤ → List IndexEntry → Result (List String)
unfolding page_end
page_ids (negsuc n) limit entries = err panics
page_ids (pos start) limit entries = if ltb (length entries) start then ok [] else do
  end ← page_end start limit (length entries)
  ok (map (λ e. e.id) (take (end - start) (drop start entries)))

-- `Count` reads the length of a bucket if the filter has a state and nothing else.
unfoldable pub counts_by_index : TaskFilter → Bool
counts_by_index f =
    not (is_empty f.state)
    && not f.include_archived
    && not (is_some f.priority)
    && not (is_some f.created_after)
    && not (is_some f.created_before)

module _ {D : Type 0} (db : Db D (Json Task)) where
  -- The task under a key, if it can be read.
  unfoldable pub read : D → String → Option Task
  read d key = elim (db.get d key) [ none ↦ none | some text ↦ unmarshal text ]

  -- The loop of both listings: what cannot be read or does not match is skipped.
  unfoldable pub collect : D → TaskFilter → List String → List Task
  unfolding read
  collect d f [] = []
  collect d f (key ∷ more) =
      let rest = collect d f more in
      elim (read d key) [ none ↦ rest | some t ↦ if match_filter t f then t ∷ rest else rest ]

  unfoldable pub list_by_state : TaskStore D → TaskFilter → Result (List Task)
  unfolding page_ids
  list_by_state s f = do
    ids ← page_ids f.offset f.limit (lookup_list f.state s.state_index)
    ok (collect s.backing f (map task_key ids))

  unfoldable pub list : TaskStore D → TaskFilter → Result (List Task)
  unfolding list_by_state
  list s f = if not (is_empty f.state) then list_by_state s f else do
    found ← or_fail (db.list s.backing "task:") list_failed
    ok (cut_limit f.limit (skip_offset f.offset (sort_newest (collect s.backing f found))))

  unfoldable pub count : TaskStore D → TaskFilter → Result ℕ
  unfolding list
  count s f =
      if counts_by_index f
      then ok (length (lookup_list f.state s.state_index))
      else do ts ← list s f; ok (length ts)

  -- The loop of `rebuildStateIndex`.
  unfoldable pub index_keys : D → List String → StateIndex → StateIndex
  unfolding read
  index_keys d [] index = index
  index_keys d (key ∷ more) index = index_keys d more (elim (read d key) [
    | none ↦ index
    | some t ↦
        if is_some t.archived_at then index else add_to_state_index t.id t.state t.created_at index
  ])

  -- `NewTaskStore`: a listing that fails leaves the index empty.
  unfoldable pub new_task_store : D → ℤ → TaskStore D
  unfolding index_keys
  new_task_store d max = record {
    backing = d;
    max_state_history = max;
    state_index = elim (db.list d "task:") [ none ↦ [] | some found ↦ index_keys d found [] ];
  }
