-- ===== src/Agent/Invariant/Service.antt =====
-- The operations of `AgentService` on agents keep what `Keeps` says.
use assistant_audit.Prelude.{
  ℕ, All-always, ◌≡◌, ◌≢◌, refl, sym, ◌∙◌, ap, String, Bool, true, Option, none, some, List, first,
  update, All, All-map, ◌==◌, nat_eq, string_eq, first-satisfies, &&-both, nat_eqb_iff, ltb,
}
use assistant_audit.Errors.{
  conflict, business_rule, attribute_error, IfReturns, IfReturns-bind, require, raise_if,
  require-some,
}
use assistant_audit.Agent.Rows.{AgentStatus, revoked, agent_status_eq, Agent, AgentDb}
use assistant_audit.Agent.Service.{
  CreateRequest, owner_of, create_agent, is_active_of, cancel, revoke_agent, update_allowed_tools,
  load_agent, Certificate, certify, is_enrolling, enroll_agent,
}
use assistant_audit.Agent.Invariant.Rows.{
  Continues, Evolves-append, Evolves-update, IsKeyed, IsKeyed-update, IsKeyed-append, IsKeyed-first,
  Keeps, All-Evolves, All-written,
}

-- A write to the rows of some agents, and no other.
pub agents-Keeps :
    (db : AgentDb) (p : Agent → Bool) (f : Agent → Agent)
    → ((a : Agent) → (f a).id ≡ a.id)
    → (IsKeyed db.agents → All (λ a. p a ≡ true → Continues a (f a)) db.agents)
    → IsKeyed db.agents
    → Keeps db (record db { agents = update p f db.agents })
agents-Keeps db p f keep step keyed =
    let evolve = Evolves-update p f db.agents (step keyed) in
    record {
      agents_evolve = evolve;
      keyed = λ k. IsKeyed-update p f db.agents keep k;
      owned = λ o. All-Evolves db.agents (update p f db.agents) db.tasks evolve o;
    }

pub create_agent-Keeps :
    (sha256 : String → String) (db : AgentDb) (now new_id : ℕ) (new_uuid code : String)
    (body : CreateRequest) (user_id : ℕ) (role : String)
    → All (λ a. new_id ≢ a.id) db.agents
    → IfReturns
        (λ p. Keeps db p.0)
        (create_agent sha256 db now new_id new_uuid code body user_id role)
unfolding create_agent
create_agent-Keeps sha256 db now new_id new_uuid code body user_id role fresh =
    IfReturns-bind _ (owner_of db body user_id role) _ λ owner _.
      let evolve = Evolves-append db.agents _ in
      record {
        agents_evolve = evolve;
        keyed = λ k. IsKeyed-append db.agents _ k fresh;
        owned = λ o. All-Evolves db.agents _ db.tasks evolve o;
      }

pub revoke_agent-Keeps :
    (ca_ready : Bool) (db : AgentDb) (now : ℕ) (uuid : String) (user_id : ℕ) (is_admin : Bool)
    → IfReturns (λ p. Keeps db p.0) (revoke_agent ca_ready db now uuid user_id is_admin)
unfolding revoke_agent cancel
revoke_agent-Keeps ca_ready db now uuid user_id is_admin =
    IfReturns-bind _ (load_agent db uuid user_id is_admin) _ λ agent _.
      let q = λ (a : Agent). a.id == agent.id in
      let revoke = λ (a : Agent). record a { status = revoked; revoked_at = some now } in
      let evolve = Evolves-update q revoke db.agents (
        All-always (λ a. q a ≡ true → Continues a (revoke a)) db.agents
          (λ a t. record { same_id = refl; same_owner = refl; stays_revoked = λ r. refl })) in
      record {
        agents_evolve = evolve;
        keyed = λ k. IsKeyed-update q revoke db.agents (λ a. refl) k;
        owned = λ o.
            All-written _ (is_active_of agent) (cancel now) db.tasks (λ t. (refl, refl))
              (All-Evolves db.agents _ db.tasks evolve o);
      }

pub update_allowed_tools-Keeps :
    (db : AgentDb) (uuid : String) (tools : List String) (user_id : ℕ) (is_admin : Bool)
    → IsKeyed db.agents
    → IfReturns (λ p. Keeps db p.0) (update_allowed_tools db uuid tools user_id is_admin)
unfolding update_allowed_tools
update_allowed_tools-Keeps db uuid tools user_id is_admin keyed =
    IfReturns-bind _ (load_agent db uuid user_id is_admin) _ λ agent _.
      IfReturns-bind _ (raise_if (agent.status == revoked) conflict) _ λ _ _.
        agents-Keeps db _ _ (λ a. refl)
          (λ k.
            All-always _ db.agents
              (λ a t. record { same_id = refl; same_owner = refl; stays_revoked = λ r. r }))
          keyed

-- A write to the row of an agent that a query found, and that is not revoked.
pub found-Continues :
    (q : Agent → Bool) (f : Agent → Agent) (agents : List Agent) {agent : Agent}
    → ((a : Agent) → ((f a).id ≡ a.id) × ((f a).user_id ≡ a.user_id))
    → first q agents ≡ some agent
    → agent.status ≢ revoked
    → IsKeyed agents
    → All (λ a. (a.id == agent.id) ≡ true → Continues a (f a)) agents
found-Continues q f agents {agent} keep found live keyed =
    All-map (λ a. a.id ≡ agent.id → a ≡ agent) _ agents
      (λ a same t. record {
        same_id = sym (keep a).0;
        same_owner = sym (keep a).1;
        stays_revoked = λ r. absurd (
            live (sym (ap (λ (x : Agent). x.status) (same ((nat_eqb_iff a.id agent.id).0 t))) ∙ r));
      })
      (IsKeyed-first q agents keyed found)

certify-keeps :
    (c : Option Certificate) (a : Agent)
    → ((certify c a).id ≡ a.id) × ((certify c a).user_id ≡ a.user_id)
certify-keeps none a = (refl, refl)
certify-keeps (some c) a = (refl, refl)

pending_unrevoked : {s : AgentStatus} → s ≡ AgentStatus.pending → s ≢ revoked
pending_unrevoked h r = cc

-- The row that an enrolment writes is the pending one that it found.
pub enroll_agent-Keeps :
    (sha256 : String → String) (sign : String → Option Certificate) (encode : String → ℕ → String)
    (ca_cert_pem : String) (db : AgentDb) (now : ℕ) (code : String) (host : Option String)
    → IsKeyed db.agents
    → IfReturns (λ p. Keeps db p.0) (enroll_agent sha256 sign encode ca_cert_pem db now code host)
unfolding enroll_agent
enroll_agent-Keeps sha256 sign encode ca_cert_pem db now code host keyed =
    IfReturns-bind _ (require (first (is_enrolling (sha256 code)) db.agents) business_rule) _
      λ agent found.
        IfReturns-bind _ (require agent.enrollment_token_expires attribute_error) _ λ expires _.
          IfReturns-bind _ (raise_if (ltb expires now) business_rule) _ λ _ _.
            let here = require-some _ business_rule found in
            let q = is_enrolling (sha256 code) in
            agents-Keeps db _ _ (λ a. (certify-keeps (sign agent.agent_uuid) a).0)
              (found-Continues q _ db.agents (certify-keeps (sign agent.agent_uuid)) here (
                pending_unrevoked (
                  (agent_status_eq.eqb_iff agent.status AgentStatus.pending).0
                    (&&-both _ _ (&&-both _ _ (first-satisfies q db.agents here)).0).0)))
              keyed
