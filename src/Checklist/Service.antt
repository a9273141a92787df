-- ===== src/Checklist/Service.antt =====
-- The methods of `ChecklistService` that write, and the reads they start with.
use assistant_audit.Prelude.{
  ℕ, Bool, ◌&&◌, ◌||◌, none, some, List, [], ◌∷◌, ◌++◌, ◌==◌, nat_eq, first, select, update, delete,
  if◌then◌else◌,
}
use assistant_audit.Errors.{not_found, conflict, Result, ok, ◌>>=◌, ◌>>◌, raise_if, require}
use assistant_audit.Campaign.{Audit}
use assistant_audit.Checklist.Rows.{
  draft, in_progress, completed, instance_status_eq, ChecklistTemplate, ChecklistInstance,
  ChecklistResponse, ChecklistDb, InstanceCreate, ResponseUpdate, is_slot, is_response, is_found,
  in_template,
}

unfoldable pub check_audit_access : ChecklistDb → ℕ → ℕ → Bool → Result Audit
check_audit_access db audit_id user_id is_admin =
    require (first (λ a. a.id == audit_id && (is_admin || a.owner_id == user_id)) db.audits)
      not_found

unfoldable pub get_template : ChecklistDb → ℕ → Result ChecklistTemplate
get_template db template_id = require (first (λ t. t.id == template_id) db.templates) not_found

abbrev pub new_instance : ℕ → InstanceCreate → ℕ → ChecklistInstance
new_instance new_id body user_id = record {
  id = new_id;
  template_id = body.template_id;
  audit_id = body.audit_id;
  site_id = body.site_id;
  filled_by = some user_id;
  status = draft;
  started_at = none;
  completed_at = none;
}

unfoldable pub create_instance :
    ChecklistDb → ℕ → InstanceCreate → ℕ → Bool → Result (ChecklistDb × ChecklistInstance)
unfolding check_audit_access
create_instance db new_id body user_id is_admin = do
  audit ← check_audit_access db body.audit_id user_id is_admin
  template ← require (first (λ t. t.id == body.template_id) db.templates) not_found
  raise_if (is_found (first (is_slot body.template_id body.audit_id body.site_id) db.instances))
      conflict
  let instance_row = new_instance new_id body user_id
  ok (record db { instances = db.instances ++ instance_row ∷ [] }, instance_row)

unfoldable pub get_instance : ChecklistDb → ℕ → ℕ → Bool → Result ChecklistInstance
unfolding check_audit_access
get_instance db instance_id user_id is_admin = do
  i ← require (first (λ i. i.id == instance_id) db.instances) not_found
  audit ← check_audit_access db i.audit_id user_id is_admin
  ok i

unfoldable pub list_instances : ChecklistDb → ℕ → ℕ → Bool → Result (List ChecklistInstance)
unfolding check_audit_access
list_instances db audit_id user_id is_admin = do
  audit ← check_audit_access db audit_id user_id is_admin
  ok (select (λ i. i.audit_id == audit_id) db.instances)

-- The assignments to a response that is there.
abbrev pub answer : ResponseUpdate → ℕ → ℕ → ChecklistResponse → ChecklistResponse
answer body user_id now r = record r {
  status = body.status;
  note = body.note;
  responded_by = some user_id;
  responded_at = some now;
}

abbrev pub new_response : ℕ → ℕ → ℕ → ℕ → ResponseUpdate → ℕ → ChecklistResponse
new_response new_id now instance_id item_id body user_id = record {
  id = new_id;
  instance_id = instance_id;
  item_id = item_id;
  status = body.status;
  note = body.note;
  responded_by = some user_id;
  responded_at = some now;
}

-- The upsert of `respond_to_item`.
unfoldable pub upsert :
    ℕ
    → ℕ
    → ℕ
    → ℕ
    → ResponseUpdate
    → ℕ
    → List ChecklistResponse
    → List ChecklistResponse × ChecklistResponse
upsert new_id now instance_id item_id body user_id responses =
    elim (first (is_response instance_id item_id) responses) [
      | some r ↦ (
        update (λ x. x.id == r.id) (answer body user_id now) responses,
        answer body user_id now r,
      )
      | none ↦
          let r = new_response new_id now instance_id item_id body user_id in
          (responses ++ r ∷ [], r)
    ]

-- "Mettre à jour le statut de l'instance si nécessaire"
abbrev pub begin : ℕ → ChecklistInstance → ChecklistInstance
begin now i =
    if i.status == draft then record i { status = in_progress; started_at = some now } else i

unfoldable pub respond_to_item :
    ChecklistDb
    → ℕ
    → ℕ
    → ℕ
    → ℕ
    → ResponseUpdate
    → ℕ
    → Bool
    → Result (ChecklistDb × ChecklistResponse)
unfolding get_instance upsert
respond_to_item db new_id now instance_id item_id body user_id is_admin = do
  i ← get_instance db instance_id user_id is_admin
  item ←
      require (first (λ x. x.id == item_id && in_template db.sections i.template_id x) db.items)
        not_found
  let written = upsert new_id now instance_id item_id body user_id db.responses
  ok (
    record db {
      responses = written.0;
      instances = update (λ x. x.id == i.id) (begin now) db.instances;
    },
    written.1,
  )

unfoldable pub complete_instance :
    ChecklistDb → ℕ → ℕ → ℕ → Bool → Result (ChecklistDb × ChecklistInstance)
unfolding get_instance
complete_instance db now instance_id user_id is_admin = do
  i ← get_instance db instance_id user_id is_admin
  let done = λ (x : ChecklistInstance). record x { status = completed; completed_at = some now }
  ok (record db { instances = update (λ x. x.id == i.id) done db.instances }, done i)

-- The relationship cascades: the responses of the instance go with it.
unfoldable pub delete_instance : ChecklistDb → ℕ → ℕ → Bool → Result ChecklistDb
unfolding get_instance
delete_instance db instance_id user_id is_admin = do
  i ← get_instance db instance_id user_id is_admin
  ok (record db {
    instances = delete (λ x. x.id == i.id) db.instances;
    responses = delete (λ r. r.instance_id == i.id) db.responses;
  })
