-- ===== src/Eventlog/Backed.antt =====
-- pkg/eventlog/store.go: `dbEventLog`, the log over any backend, with the index of entry ids by
-- trace and by task in memory. The identity of an entry without one is a parameter of `Append`.
use nuts.Base.{
  ℕ, suc, Bool, true, false, Option, none, some, List, [], ◌∷◌, String, if◌then◌else◌, ltb,
  is_empty, join, lookup_list, length, ◌==◌,
}
use nuts.Db.{Db, Json, encoded, unmarshal}
use nuts.Eventlog.{EventLogEntry, LogFilter, TraceTimeline}
use nuts.Eventlog.Ring.{IdIndex, add_id, drop_id, scan, timeline}
mod Appended
mod Tests

-- `dbEventLog`
pub record BackedLog (D : Type 0) : Type 0 where
  pub backing : D
  pub trace_index : IdIndex
  pub task_index : IdIndex

unfoldable pub entry_key : String → String
entry_key id = join "eventlog:" id

module _ {D P : Type 0} (db : Db D (Json (EventLogEntry P))) where
  unfoldable pub read_entry : D → String → Option (EventLogEntry P)
  read_entry d key = elim (db.get d key) [ none ↦ none | some text ↦ unmarshal text ]

  -- The loop of `getAllEntries`: what cannot be read is skipped.
  unfoldable pub read_keys : D → List String → List (EventLogEntry P)
  unfolding read_entry
  read_keys d [] = []
  read_keys d (key ∷ keys) =
      let rest = read_keys d keys in elim (read_entry d key) [ none ↦ rest | some e ↦ e ∷ rest ]

  -- `getAllEntries`; `none` is an error.
  unfoldable pub get_all_entries : D → Option (List (EventLogEntry P))
  unfolding read_keys
  get_all_entries d = elim (db.list d "eventlog:") [
    | none ↦ none
    | some keys ↦ some (read_keys d keys)
  ]

  -- `getByIDs`
  unfoldable pub get_by_ids : D → List String → List (EventLogEntry P)
  unfolding read_entry entry_key
  get_by_ids d [] = []
  get_by_ids d (id ∷ ids) =
      let rest = get_by_ids d ids in
      elim (read_entry d (entry_key id)) [ none ↦ rest | some e ↦ e ∷ rest ]

  -- The updates of the index in `Append` and in `rebuildIndex`.
  unfoldable pub index_entry : EventLogEntry P → BackedLog D → BackedLog D
  index_entry e l = record l {
    trace_index = add_id e.trace_id e.id l.trace_index;
    task_index = add_id e.task_id e.id l.task_index;
  }

  -- The loop of `rebuildIndex`.
  unfoldable pub index_all : List (EventLogEntry P) → BackedLog D → BackedLog D
  unfolding index_entry
  index_all [] l = l
  index_all (e ∷ es) l = index_all es (index_entry e l)

  -- `NewDBEventLog`: a listing that fails leaves the index empty.
  unfoldable pub new_backed_log : D → BackedLog D
  unfolding get_all_entries index_all
  new_backed_log d =
      let l : BackedLog D = record { backing = d; trace_index = []; task_index = [] } in
      elim (get_all_entries d) [ none ↦ l | some es ↦ index_all es l ]

  -- `Append`; a nil entry is `none`, and the result `none` is an error, after which the log is as before.
  unfoldable pub append_entry :
      String → Option (EventLogEntry P) → BackedLog D → Option (BackedLog D)
  unfolding index_entry entry_key
  append_entry fresh none l = some l
  append_entry fresh (some given) l =
      let e = if is_empty given.id then record given { id = fresh } else given in
      elim (db.write l.backing (entry_key e.id) (encoded e)) [
        | none ↦ none
        | some d ↦ some (index_entry e (record l { backing = d }))
      ]

  -- `QueryByTaskID`
  unfoldable pub entries_of_task : String → BackedLog D → List (EventLogEntry P)
  unfolding get_by_ids
  entries_of_task task_id l =
      let ids = lookup_list task_id l.task_index in
      if length ids == 0 then [] else get_by_ids l.backing ids

  -- `QueryByTraceID`
  unfoldable pub timeline_of : String → BackedLog D → TraceTimeline P
  unfolding get_by_ids
  timeline_of trace_id l =
      let ids = lookup_list trace_id l.trace_index in
      timeline trace_id (if length ids == 0 then [] else get_by_ids l.backing ids)

  -- `Query`
  unfoldable pub query_all : LogFilter → BackedLog D → Option (List (EventLogEntry P))
  unfolding get_all_entries
  query_all f l = elim (get_all_entries l.backing) [ none ↦ none | some es ↦ some (scan f 0 es) ]

  -- The loop of `Cleanup`, with its count: a delete that fails is passed over.
  unfoldable pub clean_entries : ℕ → List (EventLogEntry P) → BackedLog D → BackedLog D × ℕ
  unfolding entry_key
  clean_entries before [] l = (l, 0)
  clean_entries before (e ∷ es) l =
      let skipped = clean_entries before es l in
      if ltb e.timestamp before
      then elim (db.delete l.backing (entry_key e.id)) [
        | none ↦ skipped
        | some d ↦
            let (last, n) = clean_entries before es (record l {
              backing = d;
              trace_index = drop_id e.trace_id e.id l.trace_index;
              task_index = drop_id e.task_id e.id l.task_index;
            }) in
            (last, suc n)
      ]
      else skipped

  -- `Cleanup`; no count is an error.
  unfoldable pub cleanup_log : ℕ → BackedLog D → Option ℕ × BackedLog D
  unfolding get_all_entries clean_entries
  cleanup_log before l = elim (get_all_entries l.backing) [
    | none ↦ (none, l)
    | some es ↦ let (last, n) = clean_entries before es l in (some n, last)
  ]

-- `Close`
unfoldable pub close_log : {D : Type 0} → BackedLog D → BackedLog D
close_log l = record l { trace_index = []; task_index = [] }
