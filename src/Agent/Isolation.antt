-- ===== src/Agent/Isolation.antt =====
-- Isolation between technicians: a task goes to an active agent of the user who asks for it, for a
-- tool that the agent may run, and nobody else can ask for one.
use assistant_audit.Prelude.{
  ℕ, ◌≡◌, refl, String, true, not, ◌&&◌, Option, some, contains, ◌==◌, nat_eq, string_eq,
  nat_eqb_iff, first-satisfies, &&-both, not-false, none, first-Memᴰ, first, Option-cases, inl, inr,
}
use mathlib.Core.List.{Memᴰ}
use assistant_audit.Campaign.{Audit}
use assistant_audit.Errors.{
  not_found, forbidden, ok, IfReturns, IfReturns-bind, require, raise_if, require-some,
  raise_if-passed, err,
}
use assistant_audit.Agent.Rows.{
  active, agent_status_eq, TaskStatus, Parameters, Agent, AgentTask, AgentDb,
}
use assistant_audit.Agent.Tasks.{dispatch_task, active_agent_of, check_audit, with_config}

pub active_agent_of-facts :
    (db : AgentDb) (uuid : String) (u : ℕ) {a : Agent}
    → active_agent_of db uuid u ≡ some a
    → (a.user_id ≡ u) × (a.status ≡ active)
active_agent_of-facts db uuid u {a} h =
    let t =
      first-satisfies (λ x. x.agent_uuid == uuid && x.user_id == u && x.status == active) db.agents
        h in
    let rest = &&-both (a.agent_uuid == uuid && a.user_id == u) (a.status == active) t in
    (
      (nat_eqb_iff a.user_id u).0 (&&-both (a.agent_uuid == uuid) (a.user_id == u) rest.0).1,
      (agent_status_eq.eqb_iff a.status active).0 rest.1,
    )

-- What a dispatched task says of its agent.
pub record IsAllowed (db : AgentDb) (uuid tool : String) (u : ℕ) (t : AgentTask) : Type 0 where
  pub agent : Agent
  pub found : active_agent_of db uuid u ≡ some agent
  pub own : agent.user_id ≡ u
  pub live : agent.status ≡ active
  pub tool_allowed : contains tool agent.allowed_tools ≡ true
  pub sent_to : t.agent_id ≡ agent.id
  pub owned_by : t.owner_id ≡ u
  pub waiting : t.status ≡ TaskStatus.pending

-- What the audit of a request is: one of the table, of that id, that belongs to the user.
pub record IsAuditOf (db : AgentDb) (k u : ℕ) : Type 0 where
  pub audit : Audit
  pub stored : Memᴰ audit db.audits
  pub named : audit.id ≡ k
  pub own : audit.owner_id ≡ u

abbrev pub IsOwnAudit : AgentDb → Option ℕ → ℕ → Type 0
IsOwnAudit db none u = Unit
IsOwnAudit db (some k) u = IsAuditOf db k u

refused : {t : Unit {0}} → err not_found ≡ ok t → ⊥
refused h = cc

check_audit-IsOwnAudit :
    (db : AgentDb) (audit : Option ℕ) (u : ℕ) {t : Unit {0}}
    → check_audit db audit u ≡ ok t
    → IsOwnAudit db audit u
unfolding check_audit
check_audit-IsOwnAudit db none u h = tt
check_audit-IsOwnAudit db (some k) u h =
    elim (Option-cases (first (λ a. a.id == k && a.owner_id == u) db.audits)) [
      | inl absent ↦ absurd (refused (rw absent at h))
      | inr (a, found) ↦
          let both =
            &&-both (a.id == k) (a.owner_id == u)
              (first-satisfies (λ x. x.id == k && x.owner_id == u) db.audits found) in
          record {
            audit = a;
            stored = first-Memᴰ _ db.audits found;
            named = (nat_eqb_iff a.id k).0 both.0;
            own = (nat_eqb_iff a.owner_id u).0 both.1;
          }
    ]

-- A dispatch that succeeds made a pending task, owned by the user, for an active agent of that same
-- user which may run the tool; and where the request names an audit, one of that id in the table
-- belongs to the user.
pub dispatch_task-IsAllowed :
    (db : AgentDb) (id : ℕ) (new_uuid uuid tool : String) (ps : Parameters) (u : ℕ)
    (audit : Option ℕ)
    → IfReturns
        (λ p. IsAllowed db uuid tool u p.1 × IsOwnAudit db audit u)
        (dispatch_task db id new_uuid uuid tool ps u audit)
unfolding dispatch_task
dispatch_task-IsAllowed db id new_uuid uuid tool ps u audit =
    IfReturns-bind _ (check_audit db audit u) _ λ _ audit_ok.
      IfReturns-bind _ (require (active_agent_of db uuid u) not_found) _ λ a found.
        IfReturns-bind _ (raise_if (not (contains tool a.allowed_tools)) forbidden) _ λ _ passed.
          IfReturns-bind _ (with_config db tool ps) _ λ _ _.
            let here = require-some _ not_found found in
            let facts = active_agent_of-facts db uuid u here in
            (
              record {
                agent = a;
                found = here;
                own = facts.0;
                live = facts.1;
                tool_allowed = not-false _ (raise_if-passed _ forbidden passed);
                sent_to = refl;
                owned_by = refl;
                waiting = refl;
              },
              check_audit-IsOwnAudit db audit u audit_ok,
            )
