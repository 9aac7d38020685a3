-- ===== src/Task.antt =====
-- pkg/task: the task record, its store with the state index, the state machine and its
-- configuration. This file is the data model (interface.go) and what the parts share.
pub mod Config
pub mod Validator
pub mod Archive
pub mod Store
pub mod Engine
use nuts.Base.{
  refl, ℕ, ◌+◌, ◌%◌, ◌^◌, String, Bool, true, false, Option, none, some, List, ◌≡◌, ◌⊎◌, ap, inr,
  inl, if◌then◌else◌,
}
use nuts.Base.Int.{ℤ}

-- `time.Time`, in nanoseconds; 0 is the zero time.
abbrev pub Time : Type 0
Time = ℕ

-- `TaskState` is a string; the states of a machine come from its configuration.
abbrev pub TaskState : Type 0
TaskState = String

abbrev pub pending : TaskState
pending = "pending"

-- The increment of an `int`, as a bit pattern of 64 bits.
abbrev pub inc64 : ℕ → ℕ
inc64 n = (n + 1) % 2 ^ 64

-- `StateTransitionRecord`
pub record Transition : Type 0 where
  pub from : TaskState
  pub to : TaskState
  pub timestamp : Time
  pub triggered_by : String
  pub reason : String
  pub attempt : ℕ

pub record TaskResult : Type 0 where
  pub success : Bool
  pub output : String
  pub error : String
  pub exit_code : ℤ
  pub duration : ℤ

pub record Task : Type 0 where
  pub id : String
  pub trace_id : String
  pub name : String
  pub description : String
  pub priority : ℤ
  pub version : ℕ  -- int, the lock's counter; only compared for equality
  pub retry_count : ℕ
  pub state : TaskState
  pub result : Option TaskResult
  pub metadata : List (String × String)
  pub created_at : Time
  pub updated_at : Time
  pub started_at : Option Time
  pub completed_at : Option Time
  pub state_history : List Transition
  pub state_updated_at : Time
  pub timeout_at : Option Time
  pub archive_eligible : Bool
  pub archived_at : Option Time

-- `TaskFilter`
pub record TaskFilter : Type 0 where
  pub state : TaskState
  pub priority : Option ℤ
  pub created_after : Option Time
  pub created_before : Option Time
  pub limit : ℤ
  pub offset : ℤ
  pub include_archived : Bool

-- The errors that the package returns, and the panic of an index out of range.
pub data Err : Type 0 where
  id_required : Err
  not_found : Err  -- `Get` failed, or what it read is no task
  store_failed : Err  -- `Set` or `Delete` failed
  list_failed : Err
  version_conflict : Err
  state_mismatch : Err
  transition_denied : Err
  build_failed : Err
  panics : Err

pub data Result {ℓ} (A : Type ℓ) : Type ℓ where
  ok : A → Result A
  err : Err → Result A

-- A guard: an early return of the error where the test fails.
abbrev pub require : Bool → Err → Result (Unit {0})
require b why = if b then ok tt else err why

abbrev pub or_fail {ℓ} : {A : Type ℓ} → Option A → Err → Result A
or_fail none why = err why
or_fail (some x) why = ok x

infixl 5 ◌>>=◌ ◌>>◌
-- The early returns `if err != nil`.
abbrev pub ◌>>=◌ {ℓ κ} : {A : Type ℓ} {B : Type κ} → Result A → (A → Result B) → Result B
m >>= next = elim m [ ok x ↦ next x | err why ↦ err why ]

pub ok-injective {ℓ} : {A : Type ℓ} {a b : A} → ok a ≡ ok b → a ≡ b
ok-injective {a = a} p = ap (elim [ ok x ↦ x | err e ↦ a ]) p

abbrev pub ◌>>◌ {ℓ} : {B : Type ℓ} → Result (Unit {0}) → Result B → Result B
first >> second = elim first [ ok _ ↦ second | err why ↦ err why ]

pub Result-cases {ℓ} :
    {A : Type ℓ} (r : Result A) → ((e : Err) × (r ≡ err e)) ⊎ ((a : A) × (r ≡ ok a))
Result-cases (ok a) = inr (a, refl)
Result-cases (err e) = inl (e, refl)

-- A chain that succeeds has a first step that succeeds, and a rest that does.
pub >>=-eq-ok {ℓ κ} :
    {A : Type ℓ} {B : Type κ} (m : Result A) (next : A → Result B) {y : B}
    → (m >>= next) ≡ ok y
    → (x : A) × (m ≡ ok x) × (next x ≡ ok y)
>>=-eq-ok (err why) next e = cc
>>=-eq-ok (ok x) next e = (x, refl, e)
