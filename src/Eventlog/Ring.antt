-- ===== src/Eventlog/Ring.antt =====
-- pkg/eventlog/ringbuffer.go: the log in a ring buffer, with an index of entry ids by trace and by
-- task. Each method holds the lock.
use nuts.Base.{
  ℕ, suc, ◌+◌, ◌-◌, ◌%◌, Bool, true, false, not, ◌&&◌, ◌||◌, Option, none, some, List, [], ◌∷◌,
  ◌++◌, ◌==◌, if◌then◌else◌, get_or, set, replicate, tabulate, select, contains, str_eq, is_empty,
  lookup_list, insert, erase, String, ltb, length,
}
use nuts.Base.Int.{ℤ, pos, negsuc, ltb_ℤ, pos_part}
use nuts.Eventlog.{EventLogEntry, LogFilter, TraceTimeline}
mod Window
pub mod Index
mod History
pub mod Lookup
mod Query
mod Tests

-- A `map[string][]string`
abbrev pub IdIndex : Type 0
IdIndex = List (String × List String)

-- `ringBufferEventLog`
pub record RingLog (P : Type 0) : Type 0 where
  pub entries : List (EventLogEntry P)
  pub size : ℕ
  pub head : ℕ
  pub count : ℕ
  pub trace_index : IdIndex
  pub task_index : IdIndex

unfoldable pub remove_first : String → List String → List String
remove_first id [] = []
remove_first id (x ∷ ids) = let rest = remove_first id ids in if str_eq x id then ids else x ∷ rest

-- One half of `removeFromIndex`: a list that becomes empty leaves the map.
unfoldable pub drop_id : String → String → IdIndex → IdIndex
drop_id key id index =
    if is_empty key
    then index
    else let ids = remove_first id (lookup_list key index) in
      if length ids == 0 then erase key index else insert key ids index

-- One of the two updates at the end of `Append`.
unfoldable pub add_id : String → String → IdIndex → IdIndex
add_id key id index =
    if is_empty key then index else insert key (lookup_list key index ++ (id ∷ [])) index

module _ {P : Type 0} (zero_entry : EventLogEntry P) where
  -- `NewRingBufferEventLog`
  unfoldable pub new_ring_log : ℤ → RingLog P
  new_ring_log size =
      let n = if ltb_ℤ (pos 0) size then pos_part size else 10000 in
      record {
        entries = replicate n zero_entry;
        size = n;
        head = 0;
        count = 0;
        trace_index = [];
        task_index = [];
      }

  -- `removeFromIndex` for the entry that is about to be overwritten.
  unfoldable pub forget_oldest : RingLog P → RingLog P
  forget_oldest r =
      let old = get_or r.entries r.head zero_entry in
      record r {
        trace_index = drop_id old.trace_id old.id r.trace_index;
        task_index = drop_id old.task_id old.id r.task_index;
      }

  unfoldable pub store_entry : EventLogEntry P → RingLog P → RingLog P
  store_entry e r = record r {
    entries = set r.entries r.head e;
    head = (r.head + 1) % r.size;
    count = if ltb r.count r.size then suc r.count else r.count;
    trace_index = add_id e.trace_id e.id r.trace_index;
    task_index = add_id e.task_id e.id r.task_index;
  }

  -- `Append`; a nil entry is `none`.
  unfoldable pub append : Option (EventLogEntry P) → RingLog P → RingLog P
  append none r = r
  append (some e) r = store_entry e (if r.count == r.size then forget_oldest r else r)

  -- `Close`. The log is not used after it: the source panics on a later entry.
  unfoldable pub close : RingLog P → RingLog P
  close r = record r { entries = []; count = 0; trace_index = []; task_index = [] }

  -- What the loops of `Query` and `findByIDs` read, in their order.
  unfoldable pub in_order : RingLog P → List (EventLogEntry P)
  in_order r =
      tabulate (λ i. get_or r.entries ((r.head + r.size - r.count + i) % r.size) zero_entry) r.count

  -- `findByIDs`
  unfoldable pub find_by_ids : List String → RingLog P → List (EventLogEntry P)
  find_by_ids ids r = select (λ e. contains ids e.id) (in_order r)

  -- `QueryByTaskID`
  unfoldable pub query_by_task_id : String → RingLog P → List (EventLogEntry P)
  query_by_task_id task_id r =
      let ids = lookup_list task_id r.task_index in
      if length ids == 0 then [] else find_by_ids ids r

-- The conditions of `Query`'s loop; an empty field of the filter is no condition.
unfoldable pub passes : {P : Type 0} → LogFilter → EventLogEntry P → Bool
passes f e =
    (is_empty f.trace_id || str_eq e.trace_id f.trace_id)
    && (is_empty f.task_id || str_eq e.task_id f.task_id)
    && (is_empty f.stage || str_eq e.stage f.stage)
    && (is_empty f.source || str_eq e.source f.source)
    && (elim f.start_time [ none ↦ true | some at ↦ not (ltb e.timestamp at) ])
    && (elim f.end_time [ none ↦ true | some at ↦ not (ltb at e.timestamp) ])

module _ {P : Type 0} where
  -- `Query`'s loop: it ends once the limit, if positive, is reached. `found` is `len(result)`.
  unfoldable pub scan : LogFilter → ℕ → List (EventLogEntry P) → List (EventLogEntry P)
  scan f found [] = []
  scan f found (e ∷ more) =
      let rest = scan f (suc found) more in
      let skipped = scan f found more in
      if passes f e
      then (if ltb_ℤ (pos 0) f.limit && not (ltb (suc found) (pos_part f.limit))
          then e ∷ []
          else e ∷ rest)
      else skipped

  -- `Query`
  unfoldable pub query : EventLogEntry P → LogFilter → RingLog P → List (EventLogEntry P)
  query zero_entry f r = scan f 0 (in_order zero_entry r)

  -- The loop of `QueryByTraceID` over the entries: the earliest and the latest time.
  unfoldable pub span : ℕ → ℕ → List (EventLogEntry P) → ℕ × ℕ
  span lo hi [] = (lo, hi)
  span lo hi (e ∷ more) =
      span (if ltb e.timestamp lo then e.timestamp else lo)
        (if ltb hi e.timestamp then e.timestamp else hi) more

  -- The keys of `taskMap`, in some order.
  unfoldable pub task_ids : List (EventLogEntry P) → List String
  task_ids [] = []
  task_ids (e ∷ more) =
      let rest = task_ids more in
      if is_empty e.task_id || contains rest e.task_id then rest else e.task_id ∷ rest

  unfoldable pub timeline : String → List (EventLogEntry P) → TraceTimeline P
  timeline trace_id [] = record { trace_id = trace_id; entries = []; tasks = []; duration = 0 }
  timeline trace_id (e ∷ more) =
      let (lo, hi) = span e.timestamp e.timestamp more in
      record {
        trace_id = trace_id;
        entries = e ∷ more;
        tasks = task_ids (e ∷ more);
        duration = hi - lo;
      }

  -- `QueryByTraceID`
  unfoldable pub query_by_trace_id : EventLogEntry P → String → RingLog P → TraceTimeline P
  query_by_trace_id zero_entry trace_id r =
      let ids = lookup_list trace_id r.trace_index in
      timeline trace_id (if length ids == 0 then [] else find_by_ids zero_entry ids r)
