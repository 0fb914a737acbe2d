-- ===== src/Schema/Results.antt =====
-- src/desktop_worker/schema/results.py: the outcome of one action and of one command. The two
-- timestamps of a result are left out.
use desktop_worker.Prelude.{ℕ, String, Bool, Option}
use desktop_worker.Prelude.Int.{ℤ}
use desktop_worker.Value.{Dict}

pub record ActionResult : Type 0 where
  pub action_type : String
  pub success : Bool
  pub error : Option String
  pub detail : Dict
  pub retries : ℕ

pub record CliResult : Type 0 where
  pub command : String
  pub cwd : String
  pub exit_code : Option ℤ
  pub stdout_ref : Option String
  pub stderr_ref : Option String
  pub elevated : Bool
  pub risk_level : String
  pub approved_by_user : Bool
  pub timed_out : Bool
  pub blocked : Bool
  pub blocked_reason : Option String
  pub stdout_tail : String
  pub stderr_tail : String
