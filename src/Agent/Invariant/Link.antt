-- ===== src/Agent/Invariant/Link.antt =====
-- The operations of the link between agents and server keep what `Keeps` says.
use assistant_audit.Prelude.{
  ℕ, All-always, ◌≡◌, ◌≢◌, refl, String, true, ◌&&◌, Option, some, List, [], ◌∷◌, ◌==◌, nat_eq,
  string_eq, select, contains, Option-cases, Bool-cases, inl, inr, &&-both,
}
use assistant_audit.Agent.Rows.{
  AgentStatus, active, revoked, offline, agent_status_eq, Agent, AgentDb, TaskEvent,
}
use assistant_audit.Agent.Service.{is_active_of}
use assistant_audit.Agent.Link.{
  update_agent_status, fail, mark_agent_offline_and_fail_tasks, agent_by_uuid,
  ws_resolve_and_activate, ws_record_heartbeat, ws_handle_disconnect, is_stale, sweep_loop,
  sync_sweep_iteration,
}
use assistant_audit.Agent.Invariant.Rows.{
  Continues, Evolves-refl, Evolves-trans, Evolves-update, IsKeyed, IsKeyed-update, Keeps,
  All-Evolves, All-written,
}
use assistant_audit.Agent.Invariant.Service.{agents-Keeps, found-Continues}

pub Keeps-refl : (db : AgentDb) → Keeps db db
Keeps-refl db = record { agents_evolve = Evolves-refl db.agents; keyed = λ k. k; owned = λ o. o }

pub Keeps-trans : (a b c : AgentDb) → Keeps a b → Keeps b c → Keeps a c
Keeps-trans a b c h k = record {
  agents_evolve = Evolves-trans a.agents b.agents c.agents h.agents_evolve k.agents_evolve;
  keyed = λ x. k.keyed (h.keyed x);
  owned = λ x. k.owned (h.owned x);
}

-- Writes to columns other than the status.
status_kept :
    (a : Agent) {b : Agent}
    → a.id ≡ b.id
    → a.user_id ≡ b.user_id
    → a.status ≡ b.status
    → Continues a b
status_kept a i u s = record { same_id = i; same_owner = u; stays_revoked = λ r. cc }

pub update_agent_status-Keeps :
    (db : AgentDb) (now : ℕ) (agent : Agent) (version os_info host : Option String)
    → IsKeyed db.agents
    → Keeps db (update_agent_status db now agent version os_info host)
unfolding update_agent_status
update_agent_status-Keeps db now agent version os_info host keyed =
    agents-Keeps db _ _ (λ a. refl)
      (λ k. All-always _ db.agents (λ a t. status_kept a refl refl refl)) keyed

pub mark_offline-Keeps :
    (db : AgentDb) (now : ℕ) (agent : Agent) (reason : String)
    → Keeps db (mark_agent_offline_and_fail_tasks db now agent reason).0
unfolding mark_agent_offline_and_fail_tasks fail
mark_offline-Keeps db now agent reason =
    let q = λ (a : Agent). a.id == agent.id && a.status == active in
    let f = λ (a : Agent). record a { status = offline } in
    let evolve = Evolves-update q f db.agents (
      All-always (λ a. q a ≡ true → Continues a (f a)) db.agents
        (λ a t. record {
          same_id = refl;
          same_owner = refl;
          stays_revoked = λ r. absurd (
              active_unrevoked
                ((agent_status_eq.eqb_iff a.status active).0
                  (&&-both (a.id == agent.id) (a.status == active) t).1)
                r);
        })) in
    record {
      agents_evolve = evolve;
      keyed = λ k. IsKeyed-update q f db.agents (λ a. refl) k;
      owned = λ o.
          All-written _ (is_active_of agent) (fail now reason) db.tasks (λ t. (refl, refl))
            (All-Evolves db.agents _ db.tasks evolve o);
    }
  where
    active_unrevoked : {s : AgentStatus} → s ≡ active → s ≢ revoked
    active_unrevoked h r = cc

pub ws_resolve_and_activate-Keeps :
    (db : AgentDb) (now : ℕ) (uuid : String)
    → IsKeyed db.agents
    → Keeps db (ws_resolve_and_activate db now uuid).0
unfolding ws_resolve_and_activate
ws_resolve_and_activate-Keeps db now uuid keyed = elim (Option-cases (agent_by_uuid db uuid)) [
  | inl e ↦ rw (ws_resolve_and_activate, e) (Keeps-refl db)
  | inr (agent, e) ↦ elim (Bool-cases (agent.status == offline)) [
    | inr n ↦ rw (ws_resolve_and_activate, e, n) (Keeps-refl db)
    | inl t ↦
        rw (ws_resolve_and_activate, e, t)
          (agents-Keeps db _ _ (λ a. refl)
            (found-Continues _ (λ a. record a { status = active; last_seen = some now }) db.agents
              (λ a. (refl, refl)) e
              (offline_unrevoked ((agent_status_eq.eqb_iff agent.status offline).0 t)))
            keyed)
  ]
]
  where
    offline_unrevoked : {s : AgentStatus} → s ≡ offline → s ≢ revoked
    offline_unrevoked h r = cc

pub ws_record_heartbeat-Keeps :
    (db : AgentDb) (now : ℕ) (uuid : String) (version os_info host : Option String)
    → IsKeyed db.agents
    → Keeps db (ws_record_heartbeat db now uuid version os_info host)
unfolding ws_record_heartbeat
ws_record_heartbeat-Keeps db now uuid version os_info host keyed =
    elim (Option-cases (agent_by_uuid db uuid)) [
      | inl e ↦ rw (ws_record_heartbeat, e) (Keeps-refl db)
      | inr (agent, e) ↦
          rw (ws_record_heartbeat, e)
            (agents-Keeps db _ _ (λ a. refl)
              (λ k. All-always _ db.agents (λ a t. status_kept a refl refl refl)) keyed)
    ]

pub ws_handle_disconnect-Keeps :
    (db : AgentDb) (now : ℕ) (uuid reason : String)
    → Keeps db (ws_handle_disconnect db now uuid reason).0
unfolding ws_handle_disconnect
ws_handle_disconnect-Keeps db now uuid reason = elim (Option-cases (agent_by_uuid db uuid)) [
  | inl e ↦ rw (ws_handle_disconnect, e) (Keeps-refl db)
  | inr (agent, e) ↦ rw (ws_handle_disconnect, e) (mark_offline-Keeps db now agent reason)
]

sweep_loop-Keeps :
    (now : ℕ) (connected : List String) (stale : List Agent) (db : AgentDb)
    (notes : List (ℕ × TaskEvent))
    → Keeps db (sweep_loop now connected stale db notes).0
unfolding sweep_loop
sweep_loop-Keeps now connected [] db notes = Keeps-refl db
sweep_loop-Keeps now connected (a ∷ rest) db notes =
    elim (Bool-cases (contains a.agent_uuid connected)) [
      | inl t ↦ rw (sweep_loop, t) (sweep_loop-Keeps now connected rest db notes)
      | inr n ↦
          rw (sweep_loop, n)
            (Keeps-trans db _ _ (mark_offline-Keeps db now a "Agent timeout")
              (sweep_loop-Keeps now connected rest _ _))
    ]

pub sync_sweep_iteration-Keeps :
    (now timeout : ℕ) (connected : List String) (db : AgentDb)
    → Keeps db (sync_sweep_iteration now timeout connected db).0
unfolding sync_sweep_iteration
sync_sweep_iteration-Keeps now timeout connected db =
    sweep_loop-Keeps now connected (select (is_stale now timeout) db.agents) db []
