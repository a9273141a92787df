-- ===== src/Agent/Enrolment.antt =====
-- The life of an enrolment code.
use assistant_audit.Prelude.{
  ℕ, ◌+◌, ◌≡◌, ◌≤◌, ◌<◌, refl, String, Bool, true, false, not, ◌&&◌, Option, none, some, List, ◌∷◌,
  [], ◌++◌, ◌==◌, nat_eq, string_eq, first, update, All, All-map, All-append, All-written_or_not,
  first-All, first-snoc, holds, &&-false, lt→ltb, ltb-ge, ==-self,
}
use assistant_audit.Errors.{business_rule, err, Returns, IfReturns, IfReturns-bind}
use assistant_audit.Agent.Rows.{AgentStatus, active, agent_status_eq, Agent, AgentDb, minutes}
use assistant_audit.Agent.Service.{
  CreateRequest, owner_of, create_agent, Certificate, certify, is_enrolling, enroll_agent,
}

not_enrolling :
    (h : String) (agents : List Agent)
    → All (λ a. holds a.enrollment_token_hash h ≡ false) agents
    → All (λ a. is_enrolling h a ≡ false) agents
not_enrolling h agents =
    All-map (λ a. holds a.enrollment_token_hash h ≡ false) (λ a. is_enrolling h a ≡ false) agents
      (λ a n. rw n (&&-false (a.status == AgentStatus.pending && not a.enrollment_used)))

-- The new agent is the one that its code finds.
found_new :
    (h : String) (agents : List Agent) (a : Agent)
    → All (λ b. holds b.enrollment_token_hash h ≡ false) agents
    → is_enrolling h a ≡ true
    → first (is_enrolling h) (agents ++ a ∷ []) ≡ some a
found_new h agents a fresh new =
    first-snoc (is_enrolling h) agents a (not_enrolling h agents fresh) new

-- Once it is enrolled, its code finds nobody.
none_left :
    (h : String) (cert : Option Certificate) (agents : List Agent) (a : Agent) (now : ℕ)
    (host : Option String)
    → All (λ b. holds b.enrollment_token_hash h ≡ false) agents
    → first (is_enrolling h) (
        update
          (λ b. b.id == a.id)
          (λ b. record (certify cert b) {
            status = active;
            enrollment_used = true;
            last_seen = some now;
            last_ip = host;
          })
          (agents ++ a ∷ []))
      ≡ none
none_left h cert agents a now host fresh = first-All (is_enrolling h) _ (
    All-written_or_not (λ b. is_enrolling h b ≡ false) (λ b. b.id == a.id) _ (agents ++ a ∷ [])
      (λ b t. refl)
      (All-append (λ b. (b.id == a.id) ≡ false → is_enrolling h b ≡ false) agents (a ∷ [])
        (All-map (λ b. is_enrolling h b ≡ false) _ agents (λ b n other. n)
          (not_enrolling h agents fresh))
        ((λ other. absurd (true_false (==-self a.id) other)), tt)))
  where
    true_false : {b : Bool} → b ≡ true → b ≡ false → ⊥
    true_false t n = cc

module _ (sha256 : String → String) (sign : String → Option Certificate)
    (encode : String → ℕ → String) (ca_cert_pem : String) where
  -- A code whose hash no agent holds yet enrols the agent that is created with it, at any time up to
  -- ten minutes later and only once: after that, or a second time, it is refused.
  pub create-enroll :
      (db : AgentDb) (now id : ℕ) (uuid code : String) (body : CreateRequest) (user : ℕ)
      (role : String) (later again : ℕ) (host host' : Option String)
      → All (λ a. holds a.enrollment_token_hash (sha256 code) ≡ false) db.agents
      → IfReturns
          (λ p.
            (later ≤ now + minutes 10
              → Returns
                  (λ e.
                    (e.1.agent_uuid ≡ uuid)
                    × (enroll_agent sha256 sign encode ca_cert_pem e.0 again code host'
                        ≡ err business_rule))
                  (enroll_agent sha256 sign encode ca_cert_pem p.0 later code host))
            × (now + minutes 10 < later
                → enroll_agent sha256 sign encode ca_cert_pem p.0 later code host
                  ≡ err business_rule))
          (create_agent sha256 db now id uuid code body user role)
  unfolding create_agent enroll_agent
  create-enroll db now id uuid code body user role later again host host' fresh =
      IfReturns-bind _ (owner_of db body user role) _ λ owner _.
        let found =
          found_new (sha256 code) db.agents (pending_agent owner) fresh (==-self (sha256 code)) in
        (
          (λ intime.
              rw (found, ltb-ge (now + minutes 10) later intime)
                (
                  refl,
                  rw
                      (none_left (sha256 code) (sign uuid) db.agents (pending_agent owner) later
                        host fresh)
                      refl,
                )),
          (λ late. rw (found, lt→ltb (now + minutes 10) later late) refl),
        )
    where
      pending_agent : ℕ → Agent
      pending_agent owner = record {
        id = id;
        agent_uuid = uuid;
        name = body.name;
        user_id = owner;
        cert_fingerprint = none;
        cert_serial = none;
        cert_expires_at = none;
        enrollment_token_hash = some (sha256 code);
        enrollment_token_expires = some (now + minutes 10);
        enrollment_used = false;
        status = AgentStatus.pending;
        last_seen = none;
        last_ip = none;
        allowed_tools = body.allowed_tools;
        os_info = none;
        agent_version = none;
        revoked_at = none;
      }
