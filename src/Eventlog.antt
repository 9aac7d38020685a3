-- ===== src/Eventlog.antt =====
-- pkg/eventlog/interface.go: the entries of the log and its filter.
use nuts.Base.{ℕ, String, Bool, Option, List}
use nuts.Base.Int.{ℤ}
pub mod Ring
pub mod Backed

-- `EventLogEntry`, whose payload is of a type `P`.
pub record EventLogEntry (P : Type 0) : Type 0 where
  pub id : String
  pub trace_id : String
  pub event_id : String
  pub stage : String
  pub event_type : String
  pub topic : String
  pub source : String
  pub timestamp : ℕ
  pub task_id : String
  pub old_state : String
  pub new_state : String
  pub component_name : String
  pub success : Option Bool
  pub message : String
  pub payload : P

-- `LogFilter`
pub record LogFilter : Type 0 where
  pub trace_id : String
  pub task_id : String
  pub stage : String
  pub source : String
  pub start_time : Option ℕ
  pub end_time : Option ℕ
  pub limit : ℤ
  pub offset : ℤ

-- `TraceTimeline`; a `TaskSummary` here has its id alone.
pub record TraceTimeline (P : Type 0) : Type 0 where
  pub trace_id : String
  pub entries : List (EventLogEntry P)
  pub tasks : List String
  pub duration : ℕ
