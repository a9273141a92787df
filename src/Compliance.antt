-- ===== src/Compliance.antt =====
-- The rows of an assessment: backend/app/models/assessment.py and the controls of
-- backend/app/models/framework.py. A `datetime` is a number of clock ticks.
pub mod Float
pub mod Score
use assistant_audit.Prelude.{ℕ, String, Bool, true, Option, nat_eqb, ◌≡◌, ◌↔◌, Eq, arith}

pub data Severity : Type 0 where
  critical high medium low info : Severity

pub data ComplianceStatus : Type 0 where
  not_assessed compliant non_compliant partially_compliant not_applicable : ComplianceStatus

abbrev pub severity_rank : Severity → ℕ
severity_rank critical = 0
severity_rank high = 1
severity_rank medium = 2
severity_rank low = 3
severity_rank info = 4

abbrev pub status_rank : ComplianceStatus → ℕ
status_rank not_assessed = 0
status_rank compliant = 1
status_rank non_compliant = 2
status_rank partially_compliant = 3
status_rank not_applicable = 4

pub severity_rank_iff :
    (a b : Severity) → (nat_eqb (severity_rank a) (severity_rank b) ≡ true) ↔ (a ≡ b)
severity_rank_iff a b = ground arith

pub status_rank_iff :
    (a b : ComplianceStatus) → (nat_eqb (status_rank a) (status_rank b) ≡ true) ↔ (a ≡ b)
status_rank_iff a b = ground arith

instance abbrev pub severity_eq : Eq Severity
severity_eq = record {
  eqb = λ a b. nat_eqb (severity_rank a) (severity_rank b);
  eqb_iff = severity_rank_iff;
}

instance abbrev pub status_eq : Eq ComplianceStatus
status_eq = record {
  eqb = λ a b. nat_eqb (status_rank a) (status_rank b);
  eqb_iff = status_rank_iff;
}

-- `class Control`: the columns that the services read.
pub record Control : Type 0 where
  pub id : ℕ
  pub ref_id : String
  pub title : String
  pub severity : Severity
  pub engine_rule_id : Option String
  pub remediation : Option String

-- `class ControlResult`; `control` is the relation over `control_id`.
pub record ControlResult : Type 0 where
  pub id : ℕ
  pub assessment_id : ℕ
  pub control_id : ℕ
  pub control : Option Control
  pub status : ComplianceStatus
  pub evidence : Option String
  pub comment : Option String
  pub remediation_note : Option String
  pub auto_result : Option String
  pub is_auto_assessed : Bool
  pub assessed_at : Option ℕ
  pub assessed_by : Option String
