-- ===== src/Checklist/Access.antt =====
-- Who may touch a checklist: the calls that are given a user answer one who neither owns the audit
-- of an instance nor is an administrator as if it did not exist. (`get_progress` is given none.)
use assistant_audit.Prelude.{
  ℕ, ◌≡◌, false, ◌&&◌, ◌||◌, refl, Option, some, All, first, first-All, ◌==◌, nat_eq,
}
use assistant_audit.Errors.{not_found, err}
use assistant_audit.Checklist.Rows.{ChecklistInstance, ChecklistDb, ResponseUpdate}
use assistant_audit.Checklist.Service.{
  check_audit_access, get_instance, list_instances, create_instance, respond_to_item,
  complete_instance, delete_instance,
}

-- No audit of that id belongs to the user.
abbrev pub IsForeign : ChecklistDb → ℕ → ℕ → Type 0
IsForeign db audit_id u =
    All (λ a. (a.id == audit_id && (false || a.owner_id == u)) ≡ false) db.audits

module _ (db : ChecklistDb) (u : ℕ) where
  denied :
      (audit_id : ℕ)
      → IsForeign db audit_id u
      → check_audit_access db audit_id u false ≡ err not_found
  unfolding check_audit_access
  denied audit_id foreign = rw (first-All _ db.audits foreign) refl

  -- For a user who owns no audit of that id and is no administrator, creating a checklist in the
  -- audit and listing its checklists raise "not found", and so do reading, answering, completing
  -- and deleting any of its instances.
  pub instance-IsForeign :
      (k : ℕ) (i : ChecklistInstance)
      → first (λ x. x.id == k) db.instances ≡ some i
      → IsForeign db i.audit_id u
      → (id now item template : ℕ) (site : Option ℕ) (answer : ResponseUpdate)
      → (create_instance db id
            (record { template_id = template; audit_id = i.audit_id; site_id = site })
            u
            false
          ≡ err not_found)
        × (list_instances db i.audit_id u false ≡ err not_found)
        × (get_instance db k u false ≡ err not_found)
        × (respond_to_item db id now k item answer u false ≡ err not_found)
        × (complete_instance db now k u false ≡ err not_found)
        × (delete_instance db k u false ≡ err not_found)
  instance-IsForeign k i found foreign id now item template site answer =
      let none_here = denied i.audit_id foreign in
      let unseen : get_instance db k u false ≡ err not_found =
        unfold get_instance in rw (found, none_here) refl in
      (
        (unfold create_instance in rw none_here refl),
        (unfold list_instances in rw none_here refl),
        unseen,
        (unfold respond_to_item in rw unseen refl),
        (unfold complete_instance in rw unseen refl),
        (unfold delete_instance in rw unseen refl),
      )
