-- ===== src/Policy.antt =====
-- pkg/policy: policies, the stores that keep them, the manager that compiles them and the engine that
-- matches events with them. An `Expansion` map is a value of a type `X`, which is only copied.
pub mod Store
pub mod Manager
pub mod Engine
use nuts.Base.{ℕ, String, Bool, Option}

-- `Policy`
pub record Policy (X : Type 0) : Type 0 where
  pub id : String
  pub description : String
  pub enabled : Bool
  pub dsl : String
  pub dsl_engine : String
  pub expansion : X
  pub timeout : String
  pub version : ℕ  -- int64, the lock's counter

-- Why an evaluation has no result.
pub data EvalError : Type 0 where
  not_compiled eval_failed : EvalError

-- `PolicyMatch`, without the time that the evaluation took.
pub record PolicyMatch (X : Type 0) : Type 0 where
  pub policy_id : String
  pub matched : Bool
  pub error : Option EvalError
  pub expansion : X
  pub timeout : String
