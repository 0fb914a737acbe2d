-- ===== src/Audit/Log.antt =====
-- src/desktop_worker/audit/log.py: the append-only log. The lines of the file are the entries that
-- were written, as dictionaries; JSON text and files are not modelled. `stamp n` is the time at
-- which the entry with n entries before it is written.
pub mod Laws
use desktop_worker.Prelude.{
  ℕ, String, Bool, Option, none, some, List, [], ◌∷◌, ◌++◌, length, if◌then◌else◌,
}
use desktop_worker.Value.{Value, Dict, dict, str, end, field}
use desktop_worker.Dict.{put, update}
use desktop_worker.Audit.Redact.{redact_dict}

pub record AuditLog : Type 0 where
  pub session_id : String
  pub task_id : String
  pub redact_secrets : Bool
  pub stamp : ℕ → String
  pub entries : List Dict

-- The keyword arguments of `record`.
pub record Details : Type 0 where
  pub agent : String
  pub role : String
  pub action : Option Dict
  pub result : Option Dict
  pub cli : Option Dict
  pub approval : Option Dict
  pub observation_ref : Option String
  pub before_ref : Option String
  pub after_ref : Option String
  pub verification : Option Dict
  pub extra : Dict

-- Their defaults, and the arguments that most callers give.
abbrev pub from : String → String → Details
from agent role = record {
  agent = agent;
  role = role;
  action = none;
  result = none;
  cli = none;
  approval = none;
  observation_ref = none;
  before_ref = none;
  after_ref = none;
  verification = none;
  extra = end;
}

abbrev pub put_dict : String → Option Dict → Dict → Dict
put_dict k none d = d
put_dict k (some v) d = put k (dict v) d

abbrev pub put_text : String → Option String → Dict → Dict
put_text k none d = d
put_text k (some s) d = put k (str s) d

unfoldable pub make_entry : String → Details → AuditLog → Dict
make_entry event a log =
    let entry = field "timestamp" (str (log.stamp (length log.entries))) (
      field "sessionId" (str log.session_id) (
        field "taskId" (str log.task_id) (
          field "agent" (str a.agent)
            (field "role" (str a.role) (field "event" (str event) end))))) in
    let entry = put_dict "action" a.action entry in
    let entry = put_dict "result" a.result entry in
    let entry = put_dict "cli" a.cli entry in
    let entry = put_dict "approval" a.approval entry in
    let entry = put_text "observationRef" a.observation_ref entry in
    let entry = put_text "beforeObservationRef" a.before_ref entry in
    let entry = put_text "afterObservationRef" a.after_ref entry in
    let entry = put_dict "verification" a.verification entry in update entry a.extra

-- `record`
unfoldable pub write : String → Details → AuditLog → AuditLog
write event a log =
    let entry = make_entry event a log in
    let entry = if log.redact_secrets then redact_dict entry else entry in
    record log { entries = log.entries ++ (entry ∷ []) }
