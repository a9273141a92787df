-- ===== src/Agent/Link.antt =====
-- The link between an agent and the server: heartbeats, reconnection, disconnection and the sweep
-- of silent agents.
use assistant_audit.Prelude.{
  ℕ, ◌+◌, String, Bool, false, ◌&&◌, Option, none, some, List, [], ◌∷◌, ◌++◌, map, ◌==◌, nat_eq,
  string_eq, first, select, update, contains, nonempty, override, ltb, if◌then◌else◌,
}
use assistant_audit.Agent.Rows.{
  active, offline, agent_status_eq, failed, Agent, AgentTask, AgentDb, TaskEvent,
}
use assistant_audit.Agent.Service.{is_active_of, set_agent}

-- `update_agent_status`: the heartbeat over HTTP.
unfoldable pub update_agent_status :
    AgentDb → ℕ → Agent → Option String → Option String → Option String → AgentDb
update_agent_status db now agent version os_info client_host =
    set_agent
      (λ a. record a {
        last_seen = some now;
        last_ip = client_host;
        agent_version = override (nonempty version) a.agent_version;
        os_info = override (nonempty os_info) a.os_info;
      })
      agent db

unfoldable pub fail : ℕ → String → AgentTask → AgentTask
fail now reason t = record t {
  status = failed;
  error_message = some reason;
  completed_at = some now;
}

unfoldable pub mark_agent_offline_and_fail_tasks :
    AgentDb → ℕ → Agent → String → AgentDb × List TaskEvent
unfolding fail
mark_agent_offline_and_fail_tasks db now agent reason = (
  record db {
    agents =
        update (λ a. a.id == agent.id && a.status == active) (λ a. record a { status = offline })
          db.agents;
    tasks = update (is_active_of agent) (fail now reason) db.tasks;
  },
  map (λ t. record { task_uuid = t.task_uuid; error_message = reason })
      (select (is_active_of agent) db.tasks),
)

-- `Agent.agent_uuid == agent_uuid`, first row
abbrev pub agent_by_uuid : AgentDb → String → Option Agent
agent_by_uuid db uuid = first (λ a. a.agent_uuid == uuid) db.agents

unfoldable pub ws_resolve_and_activate : AgentDb → ℕ → String → AgentDb × Option ℕ
ws_resolve_and_activate db now uuid = elim (agent_by_uuid db uuid) [
  | none ↦ (db, none)
  | some agent ↦ (
    if agent.status == offline
        then set_agent (λ a. record a { status = active; last_seen = some now }) agent db
        else db,
    some agent.id,
  )
]

unfoldable pub ws_record_heartbeat :
    AgentDb → ℕ → String → Option String → Option String → Option String → AgentDb
ws_record_heartbeat db now uuid version os_info client_host = elim (agent_by_uuid db uuid) [
  | none ↦ db
  | some agent ↦
      set_agent
        (λ a. record a {
          last_seen = some now;
          agent_version = override (nonempty version) a.agent_version;
          os_info = override (nonempty os_info) a.os_info;
          last_ip = override (nonempty client_host) a.last_ip;
        })
        agent db
]

unfoldable pub ws_handle_disconnect : AgentDb → ℕ → String → String → AgentDb × List TaskEvent
unfolding mark_agent_offline_and_fail_tasks
ws_handle_disconnect db now uuid reason = elim (agent_by_uuid db uuid) [
  | none ↦ (db, [])
  | some agent ↦ mark_agent_offline_and_fail_tasks db now agent reason
]

-- `last_seen IS NOT NULL AND last_seen < now - timeout`, for an active agent
abbrev pub is_stale : ℕ → ℕ → Agent → Bool
is_stale now timeout a =
    a.status == active && elim a.last_seen [ none ↦ false | some t ↦ ltb (t + timeout) now ]

-- The loop of the sweep over the stale agents; `connected` are the uuids of the open websockets.
unfoldable pub sweep_loop :
    ℕ → List String → List Agent → AgentDb → List (ℕ × TaskEvent) → AgentDb × List (ℕ × TaskEvent)
sweep_loop now connected [] db notes = (db, notes)
sweep_loop now connected (a ∷ rest) db notes =
    let swept = mark_agent_offline_and_fail_tasks db now a "Agent timeout" in
    let skip = contains a.agent_uuid connected in
    sweep_loop now connected rest (if skip then db else swept.0)
      (if skip then notes else notes ++ map (λ ev. (a.user_id, ev)) swept.1)

unfoldable pub sync_sweep_iteration : ℕ → ℕ → List String → AgentDb → AgentDb × List (ℕ × TaskEvent)
unfolding sweep_loop mark_agent_offline_and_fail_tasks
sync_sweep_iteration now timeout connected db =
    sweep_loop now connected (select (is_stale now timeout) db.agents) db []
