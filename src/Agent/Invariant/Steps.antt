-- ===== src/Agent/Invariant/Steps.antt =====
-- The agents' subsystem as a transition system: every call of its services, in any order.
use assistant_audit.Prelude.{ℕ, ◌≡◌, ◌≢◌, sym, String, Bool, Option, some, List, [], All}
use assistant_audit.Errors.{ok, IfReturns-ok}
use assistant_audit.Campaign.{Audit}
use assistant_audit.Agent.Rows.{revoked, Parameters, User, OradadConfig, Agent, AgentTask, AgentDb}
use assistant_audit.Agent.Service.{
  CreateRequest, create_agent, Revoked, revoke_agent, update_allowed_tools, Certificate, Enrolled,
  enroll_agent,
}
use assistant_audit.Agent.Tasks.{
  dispatch_task, delete_task, StatusUpdate, update_task_status, ResultSubmit, submit_task_result,
}
use assistant_audit.Agent.Link.{
  update_agent_status, ws_resolve_and_activate, ws_record_heartbeat, ws_handle_disconnect,
  sync_sweep_iteration,
}
use assistant_audit.Agent.Invariant.Rows.{agent_of_id, agent_of_id-Evolves, IsKeyed, IsOwned, Keeps}
use assistant_audit.Agent.Invariant.Service.{
  create_agent-Keeps, revoke_agent-Keeps, update_allowed_tools-Keeps, enroll_agent-Keeps,
}
use assistant_audit.Agent.Invariant.Tasks.{
  dispatch_task-Keeps, delete_task-Keeps, update_task_status-Keeps, submit_task_result-Keeps,
}
use assistant_audit.Agent.Invariant.Link.{
  Keeps-refl, Keeps-trans, update_agent_status-Keeps, ws_resolve_and_activate-Keeps,
  ws_record_heartbeat-Keeps, ws_handle_disconnect-Keeps, sync_sweep_iteration-Keeps,
}

module _ (sha256 : String → String) (sign : String → Option Certificate)
    (encode : String → ℕ → String) (ca_cert_pem : String) where
  -- One successful call. The database gives a new agent an id that no agent has.
  pub data Step : AgentDb → AgentDb → Type 0 where
    create :
        {db db' : AgentDb} {a : Agent} {c : String} (now id : ℕ) (uuid code : String)
        (body : CreateRequest) (user : ℕ) (role : String)
        → All (λ b. id ≢ b.id) db.agents
        → create_agent sha256 db now id uuid code body user role ≡ ok (db', a, c)
        → Step db db'
    revoke :
        {db db' : AgentDb} {r : Revoked} (ca_ready : Bool) (now : ℕ) (uuid : String) (user : ℕ)
        (is_admin : Bool)
        → revoke_agent ca_ready db now uuid user is_admin ≡ ok (db', r)
        → Step db db'
    change_tools :
        {db db' : AgentDb} {a : Agent} (uuid : String) (tools : List String) (user : ℕ)
        (is_admin : Bool)
        → update_allowed_tools db uuid tools user is_admin ≡ ok (db', a)
        → Step db db'
    enroll :
        {db db' : AgentDb} {e : Enrolled} (now : ℕ) (code : String) (host : Option String)
        → enroll_agent sha256 sign encode ca_cert_pem db now code host ≡ ok (db', e)
        → Step db db'
    dispatch :
        {db db' : AgentDb} {t : AgentTask} (id : ℕ) (new_uuid uuid tool : String) (ps : Parameters)
        (user : ℕ) (audit : Option ℕ)
        → dispatch_task db id new_uuid uuid tool ps user audit ≡ ok (db', t)
        → Step db db'
    remove_task :
        {db db' : AgentDb} (uuid : String) (user : ℕ) (is_admin : Bool)
        → delete_task db uuid user is_admin ≡ ok db'
        → Step db db'
    report :
        {db db' : AgentDb} {t : AgentTask} (now : ℕ) (uuid : String) (agent : ℕ)
        (body : StatusUpdate)
        → update_task_status db now uuid agent body ≡ ok (db', t)
        → Step db db'
    submit :
        {db db' : AgentDb} {t : AgentTask} (now : ℕ) (uuid : String) (agent : ℕ)
        (body : ResultSubmit)
        → submit_task_result db now uuid agent body ≡ ok (db', t)
        → Step db db'
    heartbeat :
        {db : AgentDb} (now : ℕ) (agent : Agent) (version os_info host : Option String)
        → Step db (update_agent_status db now agent version os_info host)
    connect :
        {db : AgentDb} (now : ℕ) (uuid : String) → Step db (ws_resolve_and_activate db now uuid).0
    beat :
        {db : AgentDb} (now : ℕ) (uuid : String) (version os_info host : Option String)
        → Step db (ws_record_heartbeat db now uuid version os_info host)
    disconnect :
        {db : AgentDb} (now : ℕ) (uuid reason : String)
        → Step db (ws_handle_disconnect db now uuid reason).0
    sweep :
        {db : AgentDb} (now timeout : ℕ) (connected : List String)
        → Step db (sync_sweep_iteration now timeout connected db).0

  -- Any number of calls.
  pub data Steps : AgentDb → AgentDb → Type 0 where
    done : {db : AgentDb} → Steps db db
    then : {a b c : AgentDb} → Steps a b → Step b c → Steps a c

  Step-Keeps : {a b : AgentDb} → IsKeyed a.agents → Step a b → Keeps a b
  Step-Keeps {a} k (create now id uuid code body user role fresh e) =
      IfReturns-ok (λ p. Keeps a p.0) _
        (create_agent-Keeps sha256 a now id uuid code body user role fresh) e
  Step-Keeps {a} k (revoke ca_ready now uuid user is_admin e) =
      IfReturns-ok (λ p. Keeps a p.0) _ (revoke_agent-Keeps ca_ready a now uuid user is_admin) e
  Step-Keeps {a} k (change_tools uuid tools user is_admin e) =
      IfReturns-ok (λ p. Keeps a p.0) _ (update_allowed_tools-Keeps a uuid tools user is_admin k) e
  Step-Keeps {a} k (enroll now code host e) =
      IfReturns-ok (λ p. Keeps a p.0) _
        (enroll_agent-Keeps sha256 sign encode ca_cert_pem a now code host k) e
  Step-Keeps {a} k (dispatch id new_uuid uuid tool ps user audit e) =
      IfReturns-ok (λ p. Keeps a p.0) _
        (dispatch_task-Keeps a id new_uuid uuid tool ps user audit k) e
  Step-Keeps {a} k (remove_task uuid user is_admin e) =
      IfReturns-ok (λ d. Keeps a d) _ (delete_task-Keeps a uuid user is_admin) e
  Step-Keeps {a} k (report now uuid agent body e) =
      IfReturns-ok (λ p. Keeps a p.0) _ (update_task_status-Keeps a now uuid agent body) e
  Step-Keeps {a} k (submit now uuid agent body e) =
      IfReturns-ok (λ p. Keeps a p.0) _ (submit_task_result-Keeps a now uuid agent body) e
  Step-Keeps {a} k (heartbeat now agent version os_info host) =
      update_agent_status-Keeps a now agent version os_info host k
  Step-Keeps {a} k (connect now uuid) = ws_resolve_and_activate-Keeps a now uuid k
  Step-Keeps {a} k (beat now uuid version os_info host) =
      ws_record_heartbeat-Keeps a now uuid version os_info host k
  Step-Keeps {a} k (disconnect now uuid reason) = ws_handle_disconnect-Keeps a now uuid reason
  Step-Keeps {a} k (sweep now timeout connected) =
      sync_sweep_iteration-Keeps now timeout connected a

  Steps-Keeps : {a b : AgentDb} → IsKeyed a.agents → Steps a b → Keeps a b
  Steps-Keeps {a} k done = Keeps-refl a
  Steps-Keeps {a} {b} k (then before last) =
      let h = Steps-Keeps k before in Keeps-trans a _ b h (Step-Keeps (h.keyed k) last)

  -- The store before the first agent is created.
  abbrev pub without_agents : List User → List Audit → List OradadConfig → AgentDb
  without_agents users audits configs = record {
    users = users;
    audits = audits;
    configs = configs;
    agents = [];
    tasks = [];
  }

  -- Whatever calls of `Step` were made since there were no agents, in whatever order, no two agents
  -- share an id, and each task has an agent whose owner is the owner of the task.
  pub reachable-IsOwned :
      (users : List User) (audits : List Audit) (configs : List OradadConfig) {db : AgentDb}
      → Steps (without_agents users audits configs) db
      → IsKeyed db.agents × All (IsOwned db.agents) db.tasks
  reachable-IsOwned users audits configs calls =
      let h = Steps-Keeps tt calls in (h.keyed tt, h.owned tt)

  -- Where the ids of agents are distinct, a revoked agent is still there after any calls of `Step`
  -- in any order, still revoked and with the same owner: nothing enrols it again or takes it back.
  pub revoked-final :
      {db db' : AgentDb} (k : ℕ) {a : Agent}
      → IsKeyed db.agents
      → agent_of_id k db.agents ≡ some a
      → a.status ≡ revoked
      → Steps db db'
      → (b : Agent) × (agent_of_id k db'.agents ≡ some b)
        × (b.status ≡ revoked)
        × (b.user_id ≡ a.user_id)
  revoked-final {db} {db'} k keyed found gone calls =
      let (b, again, c) =
        agent_of_id-Evolves k db.agents db'.agents (Steps-Keeps keyed calls).agents_evolve found in
      (b, again, c.stays_revoked gone, sym c.same_owner)
