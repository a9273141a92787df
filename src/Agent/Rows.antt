-- ===== src/Agent/Rows.antt =====
-- backend/app/models/agent.py, agent_task.py, and the rows that the dispatch reads.
use assistant_audit.Prelude.{
  ℕ, ◌*◌, String, Option, none, some, List, [], ◌∷◌, Bool, true, false, not, ◌||◌, nat_eqb, ◌≡◌,
  ◌↔◌, Eq, ◌==◌, string_eq, nat_eq, arith, if◌then◌else◌,
}
use assistant_audit.Campaign.{Audit}

-- The texts that the program writes into `Agent.status`.
pub data AgentStatus : Type 0 where
  pending active revoked offline : AgentStatus

abbrev pub agent_rank : AgentStatus → ℕ
agent_rank AgentStatus.pending = 0
agent_rank active = 1
agent_rank revoked = 2
agent_rank offline = 3

pub agent_rank_iff : (a b : AgentStatus) → (nat_eqb (agent_rank a) (agent_rank b) ≡ true) ↔ (a ≡ b)
agent_rank_iff a b = ground arith

instance abbrev pub agent_status_eq : Eq AgentStatus
agent_status_eq = record {
  eqb = λ a b. nat_eqb (agent_rank a) (agent_rank b);
  eqb_iff = agent_rank_iff;
}

-- `AgentTask.status`: the six texts of the model, and any other that an agent sends over its
-- websocket, where the text is not checked.
pub data TaskStatus : Type 0 where
  pending dispatched running completed failed cancelled : TaskStatus
  other : String → TaskStatus

-- `status.in_(["pending", "dispatched", "running"])`
abbrev pub is_active : TaskStatus → Bool
is_active TaskStatus.pending = true
is_active dispatched = true
is_active running = true
is_active completed = false
is_active failed = false
is_active cancelled = false
is_active (other s) = false

-- `in ("completed", "failed", "cancelled")`
abbrev pub is_final : TaskStatus → Bool
is_final TaskStatus.pending = false
is_final dispatched = false
is_final running = false
is_final completed = true
is_final failed = true
is_final cancelled = true
is_final (other s) = false

abbrev pub is_running : TaskStatus → Bool
is_running running = true
is_running _ = false

abbrev pub is_completed : TaskStatus → Bool
is_completed completed = true
is_completed _ = false

abbrev pub is_cancelled : TaskStatus → Bool
is_cancelled cancelled = true
is_cancelled _ = false

-- A value of the JSON object `parameters`: a natural number, a text, or any other by its JSON text.
pub data Value : Type 0 where
  num : ℕ → Value
  text : String → Value
  json : String → Value

abbrev pub truthy : Value → Bool
truthy (num n) = not (n == 0)
truthy (text s) = not (s == "")
truthy (json s) =
    not (s == "null" || s == "false" || s == "[]" || s == "{}" || s == "0.0" || s == "-0.0")

abbrev pub Parameters : Type 0
Parameters = List (String × Value)

-- `d.get(k)`
unfoldable pub get : String → Parameters → Option Value
get k [] = none
get k ((j, v) ∷ d) = if j == k then some v else get k d

-- `{**d, k: v}`
unfoldable pub put : String → Value → Parameters → Parameters
put k v [] = (k, v) ∷ []
put k v ((j, w) ∷ d) = if j == k then (j, v) ∷ d else (j, w) ∷ put k v d

pub record Agent : Type 0 where
  pub id : ℕ
  pub agent_uuid : String
  pub name : String
  pub user_id : ℕ
  pub cert_fingerprint : Option String
  pub cert_serial : Option String
  pub cert_expires_at : Option ℕ
  pub enrollment_token_hash : Option String
  pub enrollment_token_expires : Option ℕ
  pub enrollment_used : Bool
  pub status : AgentStatus
  pub last_seen : Option ℕ
  pub last_ip : Option String
  pub allowed_tools : List String
  pub os_info : Option String
  pub agent_version : Option String
  pub revoked_at : Option ℕ

-- `result_summary` is the JSON text of the dict, which these operations pass on unread.
pub record AgentTask : Type 0 where
  pub id : ℕ
  pub task_uuid : String
  pub agent_id : ℕ
  pub owner_id : ℕ
  pub audit_id : Option ℕ
  pub tool : String
  pub parameters : Parameters
  pub status : TaskStatus
  pub progress : ℕ
  pub status_message : Option String
  pub result_summary : Option String
  pub result_raw : Option String
  pub error_message : Option String
  pub started_at : Option ℕ
  pub completed_at : Option ℕ

pub record User : Type 0 where
  pub id : ℕ
  pub is_active : Bool

-- An `OradadConfig`; `xml` is the text that its `to_xml` builds.
pub record OradadConfig : Type 0 where
  pub id : ℕ
  pub xml : String

pub record AgentDb : Type 0 where
  pub users : List User
  pub audits : List Audit
  pub configs : List OradadConfig
  pub agents : List Agent
  pub tasks : List AgentTask

-- `{"task_uuid": …, "status": "failed", "error_message": …}`
pub record TaskEvent : Type 0 where
  pub task_uuid : String
  pub error_message : String

abbrev pub minutes : ℕ → ℕ
minutes n = n * 60000000
