-- ===== src/Campaign/Rows.antt =====
-- The rows that the assessment service reads and writes: backend/app/models/assessment.py,
-- audit.py, equipement.py and framework.py, with the columns that the service uses.
use assistant_audit.Prelude.{ℕ, String, Option, List, true, nat_eqb, ◌≡◌, ◌↔◌, Eq, arith}
use assistant_audit.Compliance.{Control, ControlResult}

pub data CampaignStatus : Type 0 where
  draft in_progress review completed archived : CampaignStatus

-- `EquipementAuditStatus`
pub data AuditStatus : Type 0 where
  a_auditer en_cours conforme non_conforme : AuditStatus

abbrev pub campaign_rank : CampaignStatus → ℕ
campaign_rank draft = 0
campaign_rank in_progress = 1
campaign_rank review = 2
campaign_rank completed = 3
campaign_rank archived = 4

abbrev pub audit_rank : AuditStatus → ℕ
audit_rank a_auditer = 0
audit_rank en_cours = 1
audit_rank conforme = 2
audit_rank non_conforme = 3

pub campaign_rank_iff :
    (a b : CampaignStatus) → (nat_eqb (campaign_rank a) (campaign_rank b) ≡ true) ↔ (a ≡ b)
campaign_rank_iff a b = ground arith

pub audit_rank_iff : (a b : AuditStatus) → (nat_eqb (audit_rank a) (audit_rank b) ≡ true) ↔ (a ≡ b)
audit_rank_iff a b = ground arith

instance abbrev pub campaign_status_eq : Eq CampaignStatus
campaign_status_eq = record {
  eqb = λ a b. nat_eqb (campaign_rank a) (campaign_rank b);
  eqb_iff = campaign_rank_iff;
}

instance abbrev pub audit_status_eq : Eq AuditStatus
audit_status_eq = record {
  eqb = λ a b. nat_eqb (audit_rank a) (audit_rank b);
  eqb_iff = audit_rank_iff;
}

pub record Audit : Type 0 where
  pub id : ℕ
  pub owner_id : ℕ

pub record Campaign : Type 0 where
  pub id : ℕ
  pub name : String
  pub description : Option String
  pub audit_id : ℕ
  pub status : CampaignStatus
  pub started_at : Option ℕ
  pub completed_at : Option ℕ

pub record Assessment : Type 0 where
  pub id : ℕ
  pub campaign_id : ℕ
  pub equipement_id : ℕ
  pub framework_id : ℕ
  pub assessed_by : Option String

pub record Equipement : Type 0 where
  pub id : ℕ
  pub hostname : Option String
  pub status_audit : AuditStatus

-- `framework.categories` and `category.controls`, in their order
pub record FrameworkCategory : Type 0 where
  pub id : ℕ
  pub controls : List Control

pub record Framework : Type 0 where
  pub id : ℕ
  pub ref_id : String
  pub categories : List FrameworkCategory

pub record Db : Type 0 where
  pub audits : List Audit
  pub campaigns : List Campaign
  pub assessments : List Assessment
  pub results : List ControlResult
  pub equipements : List Equipement
  pub frameworks : List Framework

-- `CampaignUpdate.model_dump(exclude_unset=True)`: a field that the request leaves out is `none`,
-- one that it sets to null is `some none`.
pub record CampaignUpdate : Type 0 where
  pub name : Option (Option String)
  pub description : Option (Option String)
  pub status : Option (Option CampaignStatus)
