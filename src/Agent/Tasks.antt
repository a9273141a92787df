-- ===== src/Agent/Tasks.antt =====
-- The tasks: their dispatch (backend/app/services/task_service.py) and what an agent reports of
-- them (backend/app/services/agent_service.py).
use assistant_audit.Prelude.{
  ℕ, String, Bool, false, not, ◌||◌, ◌&&◌, Option, none, some, [], ◌∷◌, ◌++◌, ◌==◌, nat_eq,
  string_eq, first, update, delete, contains, override, decimal, if◌then◌else◌,
}
use assistant_audit.Errors.{
  not_found, forbidden, business_rule, Result, ok, ◌>>=◌, ◌>>◌, raise_if, require,
}
use assistant_audit.Agent.Rows.{
  active, agent_status_eq, TaskStatus, running, dispatched, completed, failed, cancelled, other,
  is_final, is_running, is_completed, Value, num, text, truthy, Parameters, get, put, Agent,
  AgentTask, AgentDb,
}

-- The configuration that a task of the ORADAD tools carries along. The database compares its id
-- with a text by what the text spells; other spellings than the decimal one are left out.
abbrev pub matches_id : Value → ℕ → Bool
matches_id (num n) id = id == n
matches_id (text s) id = s == decimal id
matches_id (Value.json s) id = false

unfoldable pub with_config : AgentDb → String → Parameters → Result Parameters
unfolding get put
with_config db tool parameters =
    if tool == "oradad" || tool == "config-oradad"
    then elim (get "config_id" parameters) [
      | none ↦ ok parameters
      | some v ↦
          if truthy v
          then (do
            config ← require (first (λ c. matches_id v c.id) db.configs) not_found
            ok (put "config_xml" (text config.xml) parameters))
          else ok parameters
    ]
    else ok parameters

-- The audit named by a request, if any, is one of the user's.
unfoldable pub check_audit : AgentDb → Option ℕ → ℕ → Result (Unit {0})
check_audit db none user_id = ok tt
check_audit db (some audit_id) user_id = do
  audit ← require (first (λ a. a.id == audit_id && a.owner_id == user_id) db.audits) not_found
  ok tt

-- The agent of the uuid that belongs to the user and is active.
abbrev pub active_agent_of : AgentDb → String → ℕ → Option Agent
active_agent_of db uuid user_id =
    first (λ a. a.agent_uuid == uuid && a.user_id == user_id && a.status == active) db.agents

unfoldable pub dispatch_task :
    AgentDb
    → ℕ
    → String
    → String
    → String
    → Parameters
    → ℕ
    → Option ℕ
    → Result (AgentDb × AgentTask)
unfolding with_config check_audit
dispatch_task db new_id new_uuid agent_uuid tool parameters user_id audit_id = do
  check_audit db audit_id user_id
  agent ← require (active_agent_of db agent_uuid user_id) not_found
  raise_if (not (contains tool agent.allowed_tools)) forbidden
  parameters' ← with_config db tool parameters
  let task : AgentTask = record {
    id = new_id;
    task_uuid = new_uuid;
    agent_id = agent.id;
    owner_id = user_id;
    audit_id = audit_id;
    tool = tool;
    parameters = parameters';
    status = TaskStatus.pending;
    progress = 0;
    status_message = none;
    result_summary = none;
    result_raw = none;
    error_message = none;
    started_at = none;
    completed_at = none;
  }
  ok (record db { tasks = db.tasks ++ task ∷ [] }, task)

unfoldable pub delete_task : AgentDb → String → ℕ → Bool → Result AgentDb
delete_task db task_uuid user_id is_admin = do
  task ← require (first (λ t. t.task_uuid == task_uuid) db.tasks) not_found
  raise_if (not (task.owner_id == user_id) && not is_admin) not_found
  raise_if (is_running task.status) business_rule
  ok (record db { tasks = delete (λ t. t.id == task.id) db.tasks })

-- `get_agent_task`, and the query at the head of each report of an agent
unfoldable pub get_agent_task : AgentDb → String → ℕ → Result AgentTask
get_agent_task db task_uuid agent_id =
    require (first (λ t. t.task_uuid == task_uuid && t.agent_id == agent_id) db.tasks) not_found

abbrev pub set_task : (AgentTask → AgentTask) → AgentTask → AgentDb → AgentDb
set_task f task db = record db { tasks = update (λ t. t.id == task.id) f db.tasks }

-- `TaskStatusUpdate`: its schema admits four statuses and a progress up to 100.
pub record StatusUpdate : Type 0 where
  pub status : TaskStatus
  pub error_message : Option String
  pub progress : Option ℕ

abbrev pub status_message : TaskStatus → Option String
status_message TaskStatus.pending = some "Status: pending"
status_message dispatched = some "Status: dispatched"
status_message running = some "Status: running"
status_message completed = some "Status: completed"
status_message failed = some "Status: failed"
status_message cancelled = some "Status: cancelled"
status_message (other s) = none

-- The timestamps that go with a new status.
abbrev pub started : ℕ → TaskStatus → Option ℕ → Option ℕ
started now s old = if is_running s then (elim old [ none ↦ some now | some t ↦ some t ]) else old

abbrev pub progress_of : TaskStatus → Option ℕ → ℕ → ℕ
progress_of s new old = if is_completed s then 100 else elim new [ none ↦ old | some p ↦ p ]

unfoldable pub report_status : ℕ → StatusUpdate → AgentTask → AgentTask
report_status now body t = record t {
  status = body.status;
  progress = progress_of body.status body.progress t.progress;
  error_message = override body.error_message t.error_message;
  started_at = started now body.status t.started_at;
  completed_at = if is_final body.status then some now else t.completed_at;
  status_message = status_message body.status;
}

unfoldable pub update_task_status :
    AgentDb → ℕ → String → ℕ → StatusUpdate → Result (AgentDb × AgentTask)
unfolding get_agent_task report_status
update_task_status db now task_uuid agent_id body = do
  task ← get_agent_task db task_uuid agent_id
  ok (set_task (report_status now body) task db, report_status now body task)

-- `TaskResultSubmit`
pub record ResultSubmit : Type 0 where
  pub result_summary : Option String
  pub result_raw : Option String
  pub error_message : Option String

unfoldable pub report_result : ℕ → ResultSubmit → AgentTask → AgentTask
report_result now body t = record t {
  status = elim body.error_message [ none ↦ completed | some e ↦ failed ];
  progress = 100;
  completed_at = some now;
  result_summary = override body.result_summary t.result_summary;
  result_raw = override body.result_raw t.result_raw;
  error_message = override body.error_message t.error_message;
}

unfoldable pub submit_task_result :
    AgentDb → ℕ → String → ℕ → ResultSubmit → Result (AgentDb × AgentTask)
unfolding get_agent_task report_result
submit_task_result db now task_uuid agent_id body = do
  task ← get_agent_task db task_uuid agent_id
  ok (set_task (report_result now body) task db, report_result now body task)
