-- ===== src/Finding/Rows.antt =====
-- backend/app/models/finding.py
use assistant_audit.Prelude.{
  ℕ, String, Option, none, some, List, [], ◌∷◌, true, nat_eqb, ◌≡◌, ◌↔◌, Eq, ◌==◌, string_eq, arith,
  if◌then◌else◌,
}
use assistant_audit.Compliance.{Severity, ControlResult}
use assistant_audit.Campaign.{Assessment}

-- `FindingStatus`; "open" is `opened`.
pub data FindingStatus : Type 0 where
  opened assigned in_progress remediated verified closed : FindingStatus

abbrev pub finding_rank : FindingStatus → ℕ
finding_rank opened = 0
finding_rank assigned = 1
finding_rank in_progress = 2
finding_rank remediated = 3
finding_rank verified = 4
finding_rank closed = 5

pub finding_rank_iff :
    (a b : FindingStatus) → (nat_eqb (finding_rank a) (finding_rank b) ≡ true) ↔ (a ≡ b)
finding_rank_iff a b = ground arith

instance abbrev pub finding_status_eq : Eq FindingStatus
finding_status_eq = record {
  eqb = λ a b. nat_eqb (finding_rank a) (finding_rank b);
  eqb_iff = finding_rank_iff;
}

-- `FindingStatus(text)`, which raises `ValueError` on any other text
unfoldable pub parse_status : String → Option FindingStatus
parse_status s =
    if s == "open"
    then some opened
    else if s == "assigned"
    then some assigned
    else if s == "in_progress"
    then some in_progress
    else if s == "remediated"
    then some remediated
    else if s == "verified"
    then some verified
    else if s == "closed"
    then some closed
    else none

-- `VALID_TRANSITIONS`
unfoldable pub valid_transitions : FindingStatus → List FindingStatus
valid_transitions opened = assigned ∷ closed ∷ []
valid_transitions assigned = in_progress ∷ opened ∷ []
valid_transitions in_progress = remediated ∷ assigned ∷ []
valid_transitions remediated = verified ∷ in_progress ∷ []
valid_transitions verified = closed ∷ opened ∷ []
valid_transitions closed = opened ∷ []

pub record Finding : Type 0 where
  pub id : ℕ
  pub control_result_id : ℕ
  pub assessment_id : ℕ
  pub equipment_id : ℕ
  pub title : String
  pub description : Option String
  pub severity : Severity
  pub status : FindingStatus
  pub remediation_note : Option String
  pub assigned_to : Option String
  pub duplicate_of_id : Option ℕ
  pub created_by : Option ℕ

pub record FindingStatusHistory : Type 0 where
  pub finding_id : ℕ
  pub old_status : FindingStatus
  pub new_status : FindingStatus
  pub changed_by : Option ℕ
  pub comment : Option String
  pub created_at : ℕ

-- The tables that the service touches; `history` is in the order of insertion.
pub record FindingDb : Type 0 where
  pub findings : List Finding
  pub history : List FindingStatusHistory
  pub results : List ControlResult
  pub assessments : List Assessment
