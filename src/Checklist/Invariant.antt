-- ===== src/Checklist/Invariant.antt =====
-- Every sequence of calls keeps the tables of checklists well-formed.
use assistant_audit.Prelude.{
  ℕ, ◌≡◌, refl, Bool, true, false, some, none, List, ◌&&◌, first, delete, ◌==◌, nat_eq, arith,
  first-none, first-append, first-delete, snoc-IsDistinct, delete-IsDistinct, All-map, All-left,
  Option,
}
use assistant_audit.Errors.{
  IfReturns, IfReturns-bind, require, not_found, conflict, raise_if, require-some, raise_if-passed,
}
use assistant_audit.Checklist.Rows.{
  ChecklistInstance, ChecklistResponse, ChecklistItem, ChecklistDb, InstanceCreate, ResponseUpdate,
  is_slot, in_template, is_found, completed, instance_status_eq,
}
use assistant_audit.Checklist.Service.{
  new_instance, new_response, check_audit_access, create_instance, respond_to_item,
  complete_instance, delete_instance, begin,
}
use assistant_audit.Checklist.Counted.{IsWell, IsPlaced, same_slot, same_item}
use assistant_audit.Checklist.Writes.{
  is_found-false, same_slot-flip, begin_id, begin_left, begin_right, begin-keeps, IsPlaced-keep,
  upsert-IsDistinct, upsert-All, written, instances-written, IsPlaced-written, get_instance-bind,
}

pub create_instance-IsWell :
    (db : ChecklistDb) (id : ℕ) (body : InstanceCreate) (u : ℕ) (admin : Bool)
    → IsWell db
    → IfReturns (λ p. IsWell p.0) (create_instance db id body u admin)
unfolding create_instance
create_instance-IsWell db id body u admin well =
    IfReturns-bind P (check_audit_access db body.audit_id u admin) _ (λ _ _.
      IfReturns-bind P (require (first (λ t. t.id == body.template_id) db.templates) not_found) _
        (λ _ _. IfReturns-bind P (raise_if taken conflict) _ (λ _ passed.
          let free = first-none _ _ (is_found-false _ (raise_if-passed taken conflict passed)) in
          (
            snoc-IsDistinct same_slot db.instances _ well.0 (
                All-map _ _ db.instances (λ i n. same_slot-flip i (new_instance id body u) n) free),
            well.1,
            All-map _ _ db.responses
                (λ r.
                  IsPlaced-keep db.sections db.items db.instances _ r
                    (λ i e. (i, first-append _ db.instances _ e, refl)))
                well.2,
          ))))
  where
    P : ChecklistDb × ChecklistInstance → Type 0
    P p = IsWell p.0

    taken : Bool
    taken = is_found (first (is_slot body.template_id body.audit_id body.site_id) db.instances)

pub respond_to_item-IsWell :
    (db : ChecklistDb) (id now k item : ℕ) (body : ResponseUpdate) (u : ℕ) (admin : Bool)
    → IsWell db
    → IfReturns (λ p. IsWell p.0) (respond_to_item db id now k item body u admin)
unfolding respond_to_item
respond_to_item-IsWell db id now k item body u admin well =
    get_instance-bind P db k u admin _ (λ i found.
      IfReturns-bind P (require (item_of i) not_found) _ (λ x e. (
        instances-written db i.id (begin now) (begin_id now) (begin_left now) (begin_right now)
            (begin-keeps now) well.0,
        upsert-IsDistinct id now k item body u db.responses well.1,
        upsert-All id now k item body u (IsPlaced db.sections db.items (after i)) db.responses
            (λ _ p. p)
            (IsPlaced-begun i (new_response id now k item body u)
              (i, found, λ n. none_some n (require-some (item_of i) not_found e)))
            (All-map _ _ db.responses (IsPlaced-begun i) well.2),
      )))
  where
    P : ChecklistDb × ChecklistResponse → Type 0
    P p = IsWell p.0

    item_of : ChecklistInstance → Option ChecklistItem
    item_of i = first (λ x. x.id == item && in_template db.sections i.template_id x) db.items

    after : ChecklistInstance → List ChecklistInstance
    after i =
        written db i.id (begin now) (begin_id now) (begin_left now) (begin_right now)
          (begin-keeps now)

    IsPlaced-begun :
        (i : ChecklistInstance) (r : ChecklistResponse)
        → IsPlaced db.sections db.items db.instances r
        → IsPlaced db.sections db.items (after i) r
    IsPlaced-begun i r =
        IsPlaced-written db i.id (begin now) (begin_id now) (begin_left now) (begin_right now)
          (begin-keeps now) r

    none_some : {o : Option ChecklistItem} {a : ChecklistItem} → o ≡ none → o ≡ some a → ⊥
    none_some n s = cc

pub complete_instance-IsWell :
    (db : ChecklistDb) (now k u : ℕ) (admin : Bool)
    → IsWell db
    → IfReturns (λ p. IsWell p.0) (complete_instance db now k u admin)
unfolding complete_instance
complete_instance-IsWell db now k u admin well =
    get_instance-bind (λ p. IsWell p.0) db k u admin _
      (λ i _.
        let done : ChecklistInstance → ChecklistInstance =
          λ x. record x { status = completed; completed_at = some now } in
        (
          instances-written db i.id done (λ _. refl) (λ _ _. refl) (λ _ _. refl) (λ _. refl) well.0,
          well.1,
          All-map _ _ db.responses
              (IsPlaced-written db i.id done (λ _. refl) (λ _ _. refl) (λ _ _. refl) (λ _. refl))
              well.2,
        ))

pub delete_instance-IsWell :
    (db : ChecklistDb) (k u : ℕ) (admin : Bool)
    → IsWell db
    → IfReturns IsWell (delete_instance db k u admin)
unfolding delete_instance
delete_instance-IsWell db k u admin well = get_instance-bind IsWell db k u admin _ (λ i _. (
  delete-IsDistinct same_slot (λ x. x.id == i.id) db.instances well.0,
  delete-IsDistinct same_item (λ r. r.instance_id == i.id) db.responses well.1,
  All-left (IsPlaced db.sections db.items db.instances) _ (λ r. r.instance_id == i.id) db.responses
      (λ r other.
        IsPlaced-keep db.sections db.items db.instances (delete (λ x. x.id == i.id) db.instances) r
          (λ j e. (
            j,
            (rw
                (first-delete (λ x. x.id == r.instance_id) (λ x. x.id == i.id) db.instances
                  (λ x t. not_both r i.id x t other))
                e),
            refl,
          )))
      well.2,
))
  where
    not_both :
        (r : ChecklistResponse) (n : ℕ) (x : ChecklistInstance)
        → (x.id == r.instance_id) ≡ true
        → (r.instance_id == n) ≡ false
        → (x.id == n) ≡ false
    not_both r n x t o = ground arith
