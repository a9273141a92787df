-- ===== src/Checklist/Reachable.antt =====
-- Every sequence of calls of the checklist service, and what holds after it.
use assistant_audit.Prelude.{
  ℕ, ◌+◌, ◌≤◌, ◌<◌, ◌≡◌, Bool, some, [], length, select, first, IsDistinct, ◌==◌, nat_eq,
}
use assistant_audit.Errors.{ok, Returns, IfReturns-ok}
use assistant_audit.Compliance.Float.{Float, exact}
use assistant_audit.Checklist.Rows.{
  ChecklistInstance, ChecklistResponse, ChecklistDb, InstanceCreate, ResponseUpdate, in_template,
}
use assistant_audit.Checklist.Service.{
  create_instance, respond_to_item, complete_instance, delete_instance,
}
use assistant_audit.Checklist.Progress.{get_progress}
use assistant_audit.Checklist.Counted.{IsWell, same_slot, same_item, get_progress-adds_up}
use assistant_audit.Checklist.Invariant.{
  create_instance-IsWell, respond_to_item-IsWell, complete_instance-IsWell, delete_instance-IsWell,
}

-- Any number of successful calls, by any users.
pub data Run : ChecklistDb → ChecklistDb → Type 0 where
  done : {db : ChecklistDb} → Run db db
  create :
      {db db' db'' : ChecklistDb} {i : ChecklistInstance} (id : ℕ) (body : InstanceCreate) (u : ℕ)
      (admin : Bool)
      → create_instance db id body u admin ≡ ok (db', i)
      → Run db' db''
      → Run db db''
  respond :
      {db db' db'' : ChecklistDb} {r : ChecklistResponse} (id now k item : ℕ)
      (body : ResponseUpdate) (u : ℕ) (admin : Bool)
      → respond_to_item db id now k item body u admin ≡ ok (db', r)
      → Run db' db''
      → Run db db''
  complete :
      {db db' db'' : ChecklistDb} {i : ChecklistInstance} (now k u : ℕ) (admin : Bool)
      → complete_instance db now k u admin ≡ ok (db', i)
      → Run db' db''
      → Run db db''
  remove :
      {db db' db'' : ChecklistDb} (k u : ℕ) (admin : Bool)
      → delete_instance db k u admin ≡ ok db'
      → Run db' db''
      → Run db db''

run-IsWell : {db db' : ChecklistDb} → Run db db' → IsWell db → IsWell db'
run-IsWell done h = h
run-IsWell {db} (create id body u admin e rest) h =
    run-IsWell rest
      (IfReturns-ok (λ p. IsWell p.0) _ (create_instance-IsWell db id body u admin h) e)
run-IsWell {db} (respond id now k item body u admin e rest) h =
    run-IsWell rest
      (IfReturns-ok (λ p. IsWell p.0) _ (respond_to_item-IsWell db id now k item body u admin h) e)
run-IsWell {db} (complete now k u admin e rest) h =
    run-IsWell rest
      (IfReturns-ok (λ p. IsWell p.0) _ (complete_instance-IsWell db now k u admin h) e)
run-IsWell {db} (remove k u admin e rest) h =
    run-IsWell rest (IfReturns-ok IsWell _ (delete_instance-IsWell db k u admin h) e)

-- After any calls, from tables without instances and responses: no two instances share template,
-- audit and site, and no two responses instance and item. The progress of an instance is computed,
-- and where its template has fewer than 2 ^ 53 items, the answers are "OK", "NOK" or "NA", answered
-- and unchecked items make up the template, and the percentage is at most 100.
pub run-progress :
    (f : Float) (db db' : ChecklistDb) (k : ℕ) {i : ChecklistInstance}
    → db.instances ≡ []
    → db.responses ≡ []
    → Run db db'
    → first (λ x. x.id == k) db'.instances ≡ some i
    → length (select (in_template db'.sections i.template_id) db'.items) < exact
    → IsDistinct same_slot db'.instances
      × IsDistinct same_item db'.responses
      × Returns
          (λ p.
            (p.ok_count + p.nok_count + p.na_count ≡ p.answered)
            × (p.answered + p.unchecked_count ≡ p.total_items)
            × (p.progress_percent ≤ 100))
          (get_progress f db' k)
run-progress f db db' k none_yet unanswered run found small =
    let well = run-IsWell run (start none_yet unanswered) in
    (well.0, well.1, get_progress-adds_up f db' k found well small)
  where
    start : db.instances ≡ [] → db.responses ≡ [] → IsWell db
    start a b = rw (a, b) (tt, tt, tt)
