-- ===== src/Agent/Revocation.antt =====
-- What a revocation and a disconnection leave behind: no task of the agent is still to be done.
use assistant_audit.Prelude.{
  ℕ, ◌+◌, ◌≡◌, refl, String, Bool, true, false, List, [], ◌∷◌, ap, nat_eq, string_eq, select,
  length, count_by, count_by-update, length-update, All, All-always, All-written_or_not, map,
  &&-both, &&-false, arith,
}
use assistant_audit.Errors.{IfReturns, IfReturns-bind}
use assistant_audit.Agent.Rows.{
  revoked, TaskStatus, is_active, is_cancelled, Agent, AgentTask, AgentDb, TaskEvent,
}
use assistant_audit.Agent.Service.{load_agent, is_active_of, cancel, revoke_agent}
use assistant_audit.Agent.Link.{fail, mark_agent_offline_and_fail_tasks}

cancelled_inactive : (s : TaskStatus) → is_active s ≡ true → is_cancelled s ≡ false
cancelled_inactive s h = ground arith

-- A revocation leaves the agent revoked and none of its tasks pending, dispatched or running; it
-- removes no task; and the count that it reports is the number of tasks that it cancelled.
pub revoke_agent-cancels :
    (ca_ready : Bool) (db : AgentDb) (now : ℕ) (uuid : String) (user_id : ℕ) (is_admin : Bool)
    → IfReturns
        (λ p.
          (p.1.agent.status ≡ revoked)
          × All (λ t. is_active_of p.1.agent t ≡ false) p.0.tasks
          × (length p.0.tasks ≡ length db.tasks)
          × (count_by (λ t. is_cancelled t.status) p.0.tasks
              ≡ count_by (λ t. is_cancelled t.status) db.tasks + p.1.cancelled_count))
        (revoke_agent ca_ready db now uuid user_id is_admin)
unfolding revoke_agent cancel
revoke_agent-cancels ca_ready db now uuid user_id is_admin =
    IfReturns-bind _ (load_agent db uuid user_id is_admin) _ λ agent _. (
      refl,
      All-written_or_not (λ t. is_active_of agent t ≡ false) (is_active_of agent) (cancel now)
          db.tasks (λ t _. &&-false _) (All-always _ db.tasks (λ t n. n)),
      length-update (is_active_of agent) (cancel now) db.tasks,
      count_by-update (λ t. is_cancelled t.status) (is_active_of agent) (cancel now) db.tasks
          (λ t h. (cancelled_inactive t.status (&&-both _ _ h).1, refl)),
    )

-- When an agent goes silent none of its tasks is left pending, dispatched or running, and the
-- notifications name the tasks that were, in the order of the table.
pub mark_offline-fails :
    (db : AgentDb) (now : ℕ) (agent : Agent) (reason : String)
    → let p = mark_agent_offline_and_fail_tasks db now agent reason in
      All (λ t. is_active_of agent t ≡ false) p.0.tasks
      × (length p.0.tasks ≡ length db.tasks)
      × (map (λ (ev : TaskEvent). ev.task_uuid) p.1
          ≡ map (λ (t : AgentTask). t.task_uuid) (select (is_active_of agent) db.tasks))
unfolding mark_agent_offline_and_fail_tasks fail
mark_offline-fails db now agent reason = (
  All-written_or_not (λ t. is_active_of agent t ≡ false) (is_active_of agent) (fail now reason)
      db.tasks (λ t _. &&-false _) (All-always _ db.tasks (λ t n. n)),
  length-update (is_active_of agent) (fail now reason) db.tasks,
  names (select (is_active_of agent) db.tasks),
)
  where
    names :
        (ts : List AgentTask)
        → map
            (λ (ev : TaskEvent). ev.task_uuid)
            (map (λ (t : AgentTask). record { task_uuid = t.task_uuid; error_message = reason }) ts)
          ≡ map (λ (t : AgentTask). t.task_uuid) ts
    names [] = refl
    names (t ∷ ts) = ap (λ l. t.task_uuid ∷ l) (names ts)
