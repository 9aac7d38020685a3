-- ===== src/Eventlog/Ring/Tests.antt =====
-- Three entries in a log of two.
use nuts.Base.{refl, ◌≡◌, some, none, List, [], ◌∷◌, ℕ, arith, keep_last, select, take}
use nuts.Base.Int.{pos}
use nuts.Eventlog.{EventLogEntry, LogFilter}
use nuts.Eventlog.Ring.{in_order, new_ring_log, query, passes, query_by_task_id}
use nuts.Eventlog.Ring.History.{append_all, retained}
use nuts.Eventlog.Ring.Lookup.{about, query_by_task_id_lem}
use nuts.Eventlog.Ring.Query.{query_lem}

abbrev zero_entry : EventLogEntry ℕ
zero_entry = record {
  id = "";
  trace_id = "";
  event_id = "";
  stage = "";
  event_type = "";
  topic = "";
  source = "";
  timestamp = 0;
  task_id = "";
  old_state = "";
  new_state = "";
  component_name = "";
  success = none;
  message = "";
  payload = 0;
}

abbrev entries : List (EventLogEntry ℕ)
entries =
    record zero_entry { id = "e1"; task_id = "t1"; timestamp = 1 }
    ∷ record zero_entry { id = "e2"; task_id = "t2"; timestamp = 2 }
    ∷ record zero_entry { id = "e3"; task_id = "t1"; timestamp = 3 }
    ∷ []

retained_example :
    in_order zero_entry (append_all zero_entry entries (new_ring_log zero_entry (pos 2)))
    ≡ keep_last 2 entries
retained_example = retained zero_entry 2 entries (omega arith)

query_by_task_id_lem_example :
    query_by_task_id zero_entry "t1"
      (append_all zero_entry entries (new_ring_log zero_entry (pos 2)))
    ≡ select (about "t1") (keep_last 2 entries)
query_by_task_id_lem_example =
    query_by_task_id_lem "t1" zero_entry 2 entries (omega arith) refl (refl, (refl, tt))

abbrev late : LogFilter
late = record {
  trace_id = "";
  task_id = "";
  stage = "";
  source = "";
  start_time = some 2;
  end_time = none;
  limit = pos 1;
  offset = pos 0;
}

query_lem_example :
    query zero_entry late (append_all zero_entry entries (new_ring_log zero_entry (pos 2)))
    ≡ take 1 (select (passes late) (keep_last 2 entries))
query_lem_example = query_lem late 1 refl zero_entry 2 entries (omega arith) (omega arith)
