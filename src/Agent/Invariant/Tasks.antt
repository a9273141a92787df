-- ===== src/Agent/Invariant/Tasks.antt =====
-- The operations on tasks keep what `Keeps` says.
use assistant_audit.Prelude.{
  ℕ, refl, String, Bool, not, ◌&&◌, Option, first, contains, ◌==◌, nat_eq, string_eq, All-append,
  All-delete,
}
use assistant_audit.Errors.{
  not_found, forbidden, business_rule, IfReturns, IfReturns-bind, require, raise_if, require-some,
}
use assistant_audit.Agent.Rows.{Parameters, AgentDb, is_running}
use assistant_audit.Agent.Tasks.{
  dispatch_task, check_audit, active_agent_of, with_config, delete_task, get_agent_task,
  StatusUpdate, report_status, update_task_status, ResultSubmit, report_result, submit_task_result,
}
use assistant_audit.Agent.Invariant.Rows.{
  IsKeyed, IsOwned, Keeps, All-written, tasks-Keeps, IsKeyed-found,
}
use assistant_audit.Agent.Isolation.{active_agent_of-facts}

pub dispatch_task-Keeps :
    (db : AgentDb) (id : ℕ) (new_uuid uuid tool : String) (ps : Parameters) (u : ℕ)
    (audit : Option ℕ)
    → IsKeyed db.agents
    → IfReturns (λ p. Keeps db p.0) (dispatch_task db id new_uuid uuid tool ps u audit)
unfolding dispatch_task
dispatch_task-Keeps db id new_uuid uuid tool ps u audit keyed =
    IfReturns-bind _ (check_audit db audit u) _ λ _ _.
      IfReturns-bind _ (require (active_agent_of db uuid u) not_found) _ λ a found.
        IfReturns-bind _ (raise_if (not (contains tool a.allowed_tools)) forbidden) _ λ _ _.
          IfReturns-bind _ (with_config db tool ps) _ λ _ _.
            let here = require-some _ not_found found in
            tasks-Keeps db _ (λ o. All-append (IsOwned db.agents) db.tasks _ o (
              (a, IsKeyed-found _ db.agents keyed here, (active_agent_of-facts db uuid u here).0),
              tt,
            ))

pub delete_task-Keeps :
    (db : AgentDb) (uuid : String) (u : ℕ) (is_admin : Bool)
    → IfReturns (λ d. Keeps db d) (delete_task db uuid u is_admin)
unfolding delete_task
delete_task-Keeps db uuid u is_admin =
    IfReturns-bind _ (require (first (λ t. t.task_uuid == uuid) db.tasks) not_found) _ λ t _.
      IfReturns-bind _ (raise_if (not (t.owner_id == u) && not is_admin) not_found) _ λ _ _.
        IfReturns-bind _ (raise_if (is_running t.status) business_rule) _
          λ _ _. tasks-Keeps db _ (λ o. All-delete (IsOwned db.agents) _ db.tasks o)

pub update_task_status-Keeps :
    (db : AgentDb) (now : ℕ) (uuid : String) (agent_id : ℕ) (body : StatusUpdate)
    → IfReturns (λ p. Keeps db p.0) (update_task_status db now uuid agent_id body)
unfolding update_task_status report_status
update_task_status-Keeps db now uuid agent_id body =
    IfReturns-bind _ (get_agent_task db uuid agent_id) _ λ t _.
      tasks-Keeps db _
        (λ o. All-written db.agents _ (report_status now body) db.tasks (λ t. (refl, refl)) o)

pub submit_task_result-Keeps :
    (db : AgentDb) (now : ℕ) (uuid : String) (agent_id : ℕ) (body : ResultSubmit)
    → IfReturns (λ p. Keeps db p.0) (submit_task_result db now uuid agent_id body)
unfolding submit_task_result report_result
submit_task_result-Keeps db now uuid agent_id body =
    IfReturns-bind _ (get_agent_task db uuid agent_id) _ λ t _.
      tasks-Keeps db _
        (λ o. All-written db.agents _ (report_result now body) db.tasks (λ t. (refl, refl)) o)
