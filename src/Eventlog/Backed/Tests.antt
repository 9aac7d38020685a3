-- ===== src/Eventlog/Backed/Tests.antt =====
-- Entries about two tasks, in a log over the in-memory backend.
use nuts.Base.{
  ◌≡◌, refl, some, none, List, [], ◌∷◌, String, ℕ, true, select, lookup_list, lookup, arith,
}
use nuts.Db.{Db, Json, is_some}
use nuts.Db.Memory.{MemoryDb, memory, memory-DbLaws, new, write}
use nuts.Eventlog.{EventLogEntry}
use nuts.Eventlog.Ring.Lookup.{about}
use nuts.Eventlog.Backed.{BackedLog, entries_of_task}
use nuts.Eventlog.Backed.Appended.{Holds, append_each, entries_of_task_lem}

abbrev Entry : Type 0
Entry = EventLogEntry ℕ

abbrev backend : Db (MemoryDb (Json Entry)) (Json Entry)
backend = memory

writes :
    (d : MemoryDb (Json Entry)) (k : String) (x : Json Entry) → is_some (backend.write d k x) ≡ true
unfolding write
writes d k x = refl

abbrev an_entry : String → String → Entry
an_entry id task_id = record {
  id = id;
  trace_id = "";
  event_id = "";
  stage = "command";
  event_type = "";
  topic = "";
  source = "";
  timestamp = 0;
  task_id = task_id;
  old_state = "";
  new_state = "";
  component_name = "";
  success = none;
  message = "";
  payload = 0;
}

abbrev entries : List Entry
entries = an_entry "1" "a" ∷ (an_entry "2" "b" ∷ (an_entry "3" "a" ∷ []))

abbrev a_log : BackedLog (MemoryDb (Json Entry))
a_log = record { backing = new; trace_index = []; task_index = [] }

nothing-Holds : Holds backend memory-DbLaws a_log []
unfolding lookup_list lookup
nothing-Holds = record { readable = tt; indexed = λ k. ground arith }

entries_of_task_lem_example :
    (l : BackedLog (MemoryDb (Json Entry))) × (append_each backend memory-DbLaws entries a_log
      ≡ some l)
    × (entries_of_task backend "a" l ≡ select (about "a") entries)
entries_of_task_lem_example =
    entries_of_task_lem backend memory-DbLaws writes entries [] a_log "a" (refl, (refl, (refl, tt)))
      (refl, (refl, (refl, tt))) nothing-Holds refl
