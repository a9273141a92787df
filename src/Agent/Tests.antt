-- ===== src/Agent/Tests.antt =====
-- Two users, an active and a pending agent, and the theorems on agents and tasks at them.
use assistant_audit.Prelude.{
  ℕ, ◌+◌, ◌≤◌, ◌<◌, ◌≡◌, refl, String, Bool, true, false, Option, none, some, [], ◌∷◌, All, length,
  count_by, map, string_eq,
}
use assistant_audit.Errors.{Result, ok, err, business_rule, Returns, IfReturns}
use assistant_audit.Agent.{
  AgentStatus, active, revoked, TaskStatus, running, is_cancelled, Agent, AgentTask, AgentDb,
  TaskEvent, minutes, CreateRequest, create_agent, is_active_of, revoke_agent, Certificate,
  enroll_agent, dispatch_task, mark_agent_offline_and_fail_tasks, ws_resolve_and_activate,
}
use assistant_audit.Agent.Isolation.{IsAllowed, IsOwnAudit, dispatch_task-IsAllowed}
use assistant_audit.Agent.Revocation.{revoke_agent-cancels, mark_offline-fails}
use assistant_audit.Agent.Enrolment.{create-enroll}
use assistant_audit.Agent.Invariant.Rows.{agent_of_id, IsKeyed, IsOwned}
use assistant_audit.Agent.Invariant.Steps.{
  Step, Steps, without_agents, reachable-IsOwned, revoked-final,
}

abbrev scanner : Agent
scanner = record {
  id = 1;
  agent_uuid = "a-1";
  name = "scanner";
  user_id = 10;
  cert_fingerprint = none;
  cert_serial = some "01";
  cert_expires_at = none;
  enrollment_token_hash = some "old";
  enrollment_token_expires = some 5;
  enrollment_used = true;
  status = active;
  last_seen = some 50;
  last_ip = none;
  allowed_tools = "nmap" ∷ [];
  os_info = none;
  agent_version = none;
  revoked_at = none;
}

abbrev scan : AgentTask
scan = record {
  id = 1;
  task_uuid = "t-1";
  agent_id = 1;
  owner_id = 10;
  audit_id = none;
  tool = "nmap";
  parameters = [];
  status = running;
  progress = 40;
  status_message = none;
  result_summary = none;
  result_raw = none;
  error_message = none;
  started_at = some 40;
  completed_at = none;
}

abbrev db : AgentDb
db = record {
  users = (record { id = 10; is_active = true }) ∷ [];
  audits = [];
  configs = [];
  agents = scanner ∷ [];
  tasks = scan ∷ [];
}

-- With an audit of the user and one of another.
abbrev audited : AgentDb
audited = record db {
  audits = record { id = 8; owner_id = 11 } ∷ record { id = 7; owner_id = 10 } ∷ [];
}

abbrev is_ok {ℓ} : {A : Type ℓ} → Result A → Bool
is_ok (ok a) = true
is_ok (err e) = false

-- A hash that keeps its text, and an authority without files.
abbrev plain : String → String
plain s = s

abbrev unsigned : String → Option Certificate
unsigned uuid = none

abbrev token : String → ℕ → String
token uuid user = uuid

abbrev request : CreateRequest
request = record { name = "probe"; allowed_tools = "nmap" ∷ []; target_user_id = none }

dispatch_task-IsAllowed_example :
    IfReturns
      (λ p. IsAllowed audited "a-1" "nmap" 10 p.1 × IsOwnAudit audited (some 7) 10)
      (dispatch_task audited 2 "t-2" "a-1" "nmap" [] 10 (some 7))
dispatch_task-IsAllowed_example =
    dispatch_task-IsAllowed audited 2 "t-2" "a-1" "nmap" [] 10 (some 7)

-- The dispatch for an audit of another user, and one for the user's own.
foreign_audit : is_ok (dispatch_task audited 2 "t-2" "a-1" "nmap" [] 10 (some 8)) ≡ false
unfolding dispatch_task
foreign_audit = refl

own_audit : is_ok (dispatch_task audited 2 "t-2" "a-1" "nmap" [] 10 (some 7)) ≡ true
unfolding dispatch_task
own_audit = refl

revoke_agent-cancels_example :
    IfReturns
      (λ p.
        (p.1.agent.status ≡ revoked)
        × All (λ t. is_active_of p.1.agent t ≡ false) p.0.tasks
        × (length p.0.tasks ≡ 1)
        × (count_by (λ t. is_cancelled t.status) p.0.tasks ≡ 0 + p.1.cancelled_count))
      (revoke_agent false db 100 "a-1" 10 false)
revoke_agent-cancels_example = revoke_agent-cancels false db 100 "a-1" 10 false

mark_offline-fails_example :
    let p = mark_agent_offline_and_fail_tasks db 100 scanner "Agent timeout" in
    All (λ t. is_active_of scanner t ≡ false) p.0.tasks
    × (length p.0.tasks ≡ 1)
    × (map (λ (ev : TaskEvent). ev.task_uuid) p.1 ≡ "t-1" ∷ [])
mark_offline-fails_example = mark_offline-fails db 100 scanner "Agent timeout"

create-enroll_example :
    IfReturns
      (λ p.
        (200 ≤ 100 + minutes 10
          → Returns
              (λ e.
                (e.1.agent_uuid ≡ "a-2")
                × (enroll_agent plain unsigned token "" e.0 300 "secret" none ≡ err business_rule))
              (enroll_agent plain unsigned token "" p.0 200 "secret" none))
        × (100 + minutes 10 < 200
            → enroll_agent plain unsigned token "" p.0 200 "secret" none ≡ err business_rule))
      (create_agent plain db 100 2 "a-2" "secret" request 10 "auditor")
create-enroll_example =
    create-enroll plain unsigned token "" db 100 2 "a-2" "secret" request 10 "auditor" 200 300 none
      none (refl, tt)

abbrev probe : Agent
probe = record {
  id = 2;
  agent_uuid = "a-2";
  name = "probe";
  user_id = 10;
  cert_fingerprint = none;
  cert_serial = none;
  cert_expires_at = none;
  enrollment_token_hash = some "secret";
  enrollment_token_expires = some (100 + minutes 10);
  enrollment_used = false;
  status = AgentStatus.pending;
  last_seen = none;
  last_ip = none;
  allowed_tools = "nmap" ∷ [];
  os_info = none;
  agent_version = none;
  revoked_at = none;
}

abbrev empty : AgentDb
empty = without_agents plain unsigned token "" ((record { id = 10; is_active = true }) ∷ []) [] []

abbrev with_probe : AgentDb
with_probe = record empty { agents = probe ∷ [] }

abbrev enrolled_probe : Agent
enrolled_probe = record probe { status = active; enrollment_used = true; last_seen = some 200 }

abbrev with_enrolled : AgentDb
with_enrolled = record empty { agents = enrolled_probe ∷ [] }

abbrev probe_task : AgentTask
probe_task = record scan {
  agent_id = 2;
  status = TaskStatus.pending;
  progress = 0;
  started_at = none;
}

abbrev with_task : AgentDb
with_task = record with_enrolled { tasks = probe_task ∷ [] }

created : Step plain unsigned token "" empty with_probe
unfolding create_agent
created = Step.create 100 2 "a-2" "secret" request 10 "auditor" tt refl

enrolled : Step plain unsigned token "" with_probe with_enrolled
unfolding enroll_agent
enrolled = Step.enroll 200 "secret" none refl

dispatched_probe : Step plain unsigned token "" with_enrolled with_task
unfolding dispatch_task
dispatched_probe = Step.dispatch 1 "t-1" "a-2" "nmap" [] 10 none refl

-- An agent is created and enrolled, and a task dispatched to it.
calls : Steps plain unsigned token "" empty with_task
calls = Steps.then (Steps.then (Steps.then Steps.done created) enrolled) dispatched_probe

reachable-IsOwned_example :
    IsKeyed with_task.agents × All (IsOwned with_task.agents) with_task.tasks
reachable-IsOwned_example =
    reachable-IsOwned plain unsigned token "" ((record { id = 10; is_active = true }) ∷ []) [] []
      calls

abbrev gone : AgentDb
gone = record db { agents = (record scanner { status = revoked }) ∷ [] }

revoked-final_example :
    (b : Agent) × (agent_of_id 1 (ws_resolve_and_activate gone 100 "a-1").0.agents ≡ some b)
    × (b.status ≡ revoked)
    × (b.user_id ≡ 10)
revoked-final_example =
    revoked-final plain unsigned token "" {db = gone} 1 (tt, tt) refl refl
      (Steps.then Steps.done (Step.connect 100 "a-1"))
