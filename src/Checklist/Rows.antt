-- ===== src/Checklist/Rows.antt =====
-- The rows that the checklist service reads and writes: backend/app/models/checklist.py and
-- audit.py, with the columns that the service uses, and the request bodies.
use assistant_audit.Prelude.{
  ℕ, String, Bool, Option, List, ◌&&◌, ◌==◌, nat_eq, nat_eqb, Eq, arith, ◌↔◌, ◌≡◌, true, is_option,
  first, none, some, false,
}
use assistant_audit.Campaign.{Audit}

pub data InstanceStatus : Type 0 where
  draft in_progress completed : InstanceStatus

abbrev pub instance_rank : InstanceStatus → ℕ
instance_rank draft = 0
instance_rank in_progress = 1
instance_rank completed = 2

pub instance_rank_iff :
    (a b : InstanceStatus) → (nat_eqb (instance_rank a) (instance_rank b) ≡ true) ↔ (a ≡ b)
instance_rank_iff a b = ground arith

instance abbrev pub instance_status_eq : Eq InstanceStatus
instance_status_eq = record {
  eqb = λ a b. nat_eqb (instance_rank a) (instance_rank b);
  eqb_iff = instance_rank_iff;
}

-- "OK", "NOK", "NA" and "UNCHECKED"
pub data ResponseStatus : Type 0 where
  is_ok nok na unchecked : ResponseStatus

abbrev pub response_rank : ResponseStatus → ℕ
response_rank is_ok = 0
response_rank nok = 1
response_rank na = 2
response_rank unchecked = 3

pub response_rank_iff :
    (a b : ResponseStatus) → (nat_eqb (response_rank a) (response_rank b) ≡ true) ↔ (a ≡ b)
response_rank_iff a b = ground arith

instance abbrev pub response_status_eq : Eq ResponseStatus
response_status_eq = record {
  eqb = λ a b. nat_eqb (response_rank a) (response_rank b);
  eqb_iff = response_rank_iff;
}

pub record ChecklistTemplate : Type 0 where
  pub id : ℕ
  pub name : String
  pub category : String

pub record ChecklistSection : Type 0 where
  pub id : ℕ
  pub template_id : ℕ

pub record ChecklistItem : Type 0 where
  pub id : ℕ
  pub section_id : ℕ
  pub label : String

pub record ChecklistInstance : Type 0 where
  pub id : ℕ
  pub template_id : ℕ
  pub audit_id : ℕ
  pub site_id : Option ℕ
  pub filled_by : Option ℕ
  pub status : InstanceStatus
  pub started_at : Option ℕ
  pub completed_at : Option ℕ

pub record ChecklistResponse : Type 0 where
  pub id : ℕ
  pub instance_id : ℕ
  pub item_id : ℕ
  pub status : ResponseStatus
  pub note : Option String
  pub responded_by : Option ℕ
  pub responded_at : Option ℕ

pub record ChecklistDb : Type 0 where
  pub audits : List Audit
  pub templates : List ChecklistTemplate
  pub sections : List ChecklistSection
  pub items : List ChecklistItem
  pub instances : List ChecklistInstance
  pub responses : List ChecklistResponse

-- `ChecklistInstanceCreate`
pub record InstanceCreate : Type 0 where
  pub template_id : ℕ
  pub audit_id : ℕ
  pub site_id : Option ℕ

-- `ChecklistResponseUpdate`
pub record ResponseUpdate : Type 0 where
  pub status : ResponseStatus
  pub note : Option String

-- The filters of the queries.
abbrev pub is_slot : ℕ → ℕ → Option ℕ → ChecklistInstance → Bool
is_slot template audit site i =
    i.template_id == template && i.audit_id == audit && is_option i.site_id site

abbrev pub is_response : ℕ → ℕ → ChecklistResponse → Bool
is_response instance_id item_id r = r.instance_id == instance_id && r.item_id == item_id

abbrev pub is_found {ℓ} : {A : Type ℓ} → Option A → Bool
is_found none = false
is_found (some a) = true

-- `join(ChecklistSection)` with `ChecklistSection.template_id == template`; the id of a section is
-- its primary key, so that the join has one row at most for an item.
abbrev pub in_template : List ChecklistSection → ℕ → ChecklistItem → Bool
in_template sections template i =
    is_found (first (λ s. s.id == i.section_id && s.template_id == template) sections)
