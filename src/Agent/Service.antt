-- ===== src/Agent/Service.antt =====
-- The agents of `AgentService`: creation, enrolment, revocation.
use assistant_audit.Prelude.{
  ℕ, ◌+◌, String, Bool, true, false, not, ◌&&◌, Option, none, some, List, [], ◌∷◌, ◌++◌, ◌==◌,
  nat_eq, string_eq, first, select, update, length, holds, ltb, if◌then◌else◌,
}
use assistant_audit.Errors.{
  not_found, forbidden, conflict, business_rule, attribute_error, Result, ok, ◌>>=◌, ◌>>◌, raise_if,
  require,
}
use assistant_audit.Agent.Rows.{
  AgentStatus, active, revoked, agent_status_eq, cancelled, is_active, Agent, AgentTask, AgentDb,
  minutes,
}

-- The owner filter that every query for an agent adds unless the caller is an administrator.
abbrev pub is_visible : ℕ → Bool → Agent → Bool
is_visible user_id is_admin a = if is_admin then true else a.user_id == user_id

unfoldable pub list_agents : AgentDb → ℕ → Bool → List Agent
list_agents db user_id is_admin = select (is_visible user_id is_admin) db.agents

unfoldable pub get_agent : AgentDb → ℕ → ℕ → Bool → Result Agent
get_agent db agent_id user_id is_admin =
    require (first (λ a. a.id == agent_id && is_visible user_id is_admin a) db.agents) not_found

-- The query by uuid that `revoke_agent` and `update_allowed_tools` share.
abbrev pub load_agent : AgentDb → String → ℕ → Bool → Result Agent
load_agent db uuid user_id is_admin =
    require (first (λ a. a.agent_uuid == uuid && is_visible user_id is_admin a) db.agents) not_found

abbrev pub set_agent : (Agent → Agent) → Agent → AgentDb → AgentDb
set_agent f agent db = record db { agents = update (λ a. a.id == agent.id) f db.agents }

-- `AgentCreateRequest`
pub record CreateRequest : Type 0 where
  pub name : String
  pub allowed_tools : List String
  pub target_user_id : Option ℕ

-- To whom the new agent goes.
unfoldable pub owner_of : AgentDb → CreateRequest → ℕ → String → Result ℕ
owner_of db body user_id user_role = elim body.target_user_id [
  | none ↦ ok user_id
  | some target ↦ do
    raise_if (not (user_role == "admin")) forbidden
    u ← require (first (λ u. u.id == target) db.users) not_found
    raise_if (not u.is_active) not_found
    ok u.id
]

-- `secrets` and `uuid4` supply the code and the uuid, SHA-256 is the function `sha256`.
-- `create_enrollment_token` gives the code ten minutes.
unfoldable pub create_agent :
    (String → String)
    → AgentDb
    → ℕ
    → ℕ
    → String
    → String
    → CreateRequest
    → ℕ
    → String
    → Result (AgentDb × Agent × String)
unfolding owner_of
create_agent sha256 db now new_id new_uuid code body user_id user_role = do
  owner ← owner_of db body user_id user_role
  let agent : Agent = record {
    id = new_id;
    agent_uuid = new_uuid;
    name = body.name;
    user_id = owner;
    cert_fingerprint = none;
    cert_serial = none;
    cert_expires_at = none;
    enrollment_token_hash = some (sha256 code);
    enrollment_token_expires = some (now + minutes 10);
    enrollment_used = false;
    status = AgentStatus.pending;
    last_seen = none;
    last_ip = none;
    allowed_tools = body.allowed_tools;
    os_info = none;
    agent_version = none;
    revoked_at = none;
  }
  ok (record db { agents = db.agents ++ agent ∷ [] }, agent, code)

-- `a or b` of an optional text
abbrev pub or_else : Option String → String → Option String
or_else none b = some b
or_else (some s) b = if s == "" then some b else some s

abbrev pub is_active_of : Agent → AgentTask → Bool
is_active_of agent t = t.agent_id == agent.id && is_active t.status

unfoldable pub cancel : ℕ → AgentTask → AgentTask
cancel now t = record t {
  status = cancelled;
  completed_at = some now;
  error_message = or_else t.error_message "Agent revoque";
}

-- The serial numbers for the certificate revocation list: every revoked agent that has one.
unfoldable pub revoked_serials : ℕ → List Agent → List (String × ℕ)
revoked_serials now [] = []
revoked_serials now (a ∷ rest) =
    let more = revoked_serials now rest in
    if a.status == revoked
    then elim a.cert_serial [
      | none ↦ more
      | some s ↦ (s, elim a.revoked_at [ none ↦ now | some t ↦ t ]) ∷ more
    ]
    else more

pub record Revoked : Type 0 where
  pub agent : Agent
  pub cancelled_count : ℕ
  -- what is handed to `generate_crl`, where a list is written at all
  pub crl : Option (List (String × ℕ))

abbrev pub crl_of : Bool → List (String × ℕ) → Option (List (String × ℕ))
crl_of false serials = none
crl_of true [] = none
crl_of true (s ∷ serials) = some (s ∷ serials)

-- `ca_ready`: the files of the certificate authority exist.
unfoldable pub revoke_agent : Bool → AgentDb → ℕ → String → ℕ → Bool → Result (AgentDb × Revoked)
unfolding cancel revoked_serials
revoke_agent ca_ready db now uuid user_id is_admin = do
  agent ← load_agent db uuid user_id is_admin
  let revoke = λ (a : Agent). record a { status = revoked; revoked_at = some now }
  let db' : AgentDb = record (set_agent revoke agent db) {
    tasks = update (is_active_of agent) (cancel now) db.tasks;
  }
  ok (
    db',
    record {
      agent = revoke agent;
      cancelled_count = length (select (is_active_of agent) db.tasks);
      crl = crl_of ca_ready (revoked_serials now db'.agents);
    },
  )

unfoldable pub update_allowed_tools :
    AgentDb → String → List String → ℕ → Bool → Result (AgentDb × Agent)
update_allowed_tools db uuid tools user_id is_admin = do
  agent ← load_agent db uuid user_id is_admin
  raise_if (agent.status == revoked) conflict
  let change = λ (a : Agent). record a { allowed_tools = tools }
  ok (set_agent change agent db, change agent)

-- What `CertManager` returns for a signed certificate.
pub record Certificate : Type 0 where
  pub cert_pem : String
  pub key_pem : String
  pub fingerprint : String
  pub serial : String
  pub expires_at : ℕ

pub record Enrolled : Type 0 where
  pub agent_uuid : String
  pub agent_token : String
  pub client_cert_pem : String
  pub client_key_pem : String
  pub ca_cert_pem : String
  pub allowed_tools : List String
  pub agent_name : String

abbrev pub certify : Option Certificate → Agent → Agent
certify none a = a
certify (some c) a = record a {
  cert_fingerprint = some c.fingerprint;
  cert_serial = some c.serial;
  cert_expires_at = some c.expires_at;
}

-- The pending agent whose unused code has this hash.
abbrev pub is_enrolling : String → Agent → Bool
is_enrolling code_hash a =
    a.status == AgentStatus.pending
    && not a.enrollment_used
    && holds a.enrollment_token_hash code_hash

-- `sign` is `CertManager.sign_agent_cert` where the authority's files exist, `encode` makes the
-- signed token of an agent and its owner. The rate limiter comes first, in `RateLimit`.
unfoldable pub enroll_agent :
    (String → String)
    → (String → Option Certificate)
    → (String → ℕ → String)
    → String
    → AgentDb
    → ℕ
    → String
    → Option String
    → Result (AgentDb × Enrolled)
enroll_agent sha256 sign encode ca_cert_pem db now code client_host = do
  agent ← require (first (is_enrolling (sha256 code)) db.agents) business_rule
  expires ← require agent.enrollment_token_expires attribute_error
  raise_if (ltb expires now) business_rule
  let cert = sign agent.agent_uuid
  let change = λ (a : Agent). record (certify cert a) {
    status = active;
    enrollment_used = true;
    last_seen = some now;
    last_ip = client_host;
  }
  ok (
    set_agent change agent db,
    record {
      agent_uuid = agent.agent_uuid;
      agent_token = encode agent.agent_uuid agent.user_id;
      client_cert_pem = elim cert [ none ↦ "" | some c ↦ c.cert_pem ];
      client_key_pem = elim cert [ none ↦ "" | some c ↦ c.key_pem ];
      ca_cert_pem = ca_cert_pem;
      allowed_tools = agent.allowed_tools;
      agent_name = agent.name;
    },
  )
