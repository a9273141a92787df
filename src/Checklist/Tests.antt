-- ===== src/Checklist/Tests.antt =====
-- A checklist of two items, answered once.
use assistant_audit.Prelude.{
  ℕ, ◌+◌, ◌≤◌, ◌≡◌, refl, true, false, ◌&&◌, none, some, [], ◌∷◌, first, ◌==◌, nat_eq, arith,
  IsDistinct,
}
use assistant_audit.Errors.{ok, not_found, err, Returns}
use assistant_audit.Compliance.Score.Tests.{halves}
use assistant_audit.Checklist.Rows.{
  draft, in_progress, is_ok, nok, ChecklistInstance, ChecklistResponse, ChecklistDb, ResponseUpdate,
  InstanceCreate, is_response,
}
use assistant_audit.Checklist.Service.{
  create_instance, respond_to_item, get_instance, list_instances, complete_instance,
  delete_instance,
}
use assistant_audit.Checklist.Progress.{get_progress}
use assistant_audit.Checklist.Counted.{same_slot, same_item}
use assistant_audit.Checklist.Reachable.{done, create, respond, run-progress}
use assistant_audit.Checklist.Answers.{respond_to_item-stored}
use assistant_audit.Checklist.Access.{instance-IsForeign}

abbrev empty : ChecklistDb
empty = record {
  audits = record { id = 1; owner_id = 10 } ∷ [];
  templates = record { id = 2; name = "LAN"; category = "lan" } ∷ [];
  sections = record { id = 3; template_id = 2 } ∷ [];
  items =
      record { id = 4; section_id = 3; label = "Cabling" }
      ∷ record { id = 5; section_id = 3; label = "Switches" }
      ∷ [];
  instances = [];
  responses = [];
}

abbrev lan : InstanceCreate
lan = record { template_id = 2; audit_id = 1; site_id = none }

abbrev sheet : ChecklistInstance
sheet = record {
  id = 6;
  template_id = 2;
  audit_id = 1;
  site_id = none;
  filled_by = some 10;
  status = draft;
  started_at = none;
  completed_at = none;
}

abbrev begun : ChecklistInstance
begun = record sheet { status = in_progress; started_at = some 100 }

abbrev drafted : ChecklistDb
drafted = record empty { instances = sheet ∷ [] }

abbrev fine : ResponseUpdate
fine = record { status = is_ok; note = none }

abbrev cabling : ChecklistResponse
cabling = record {
  id = 7;
  instance_id = 6;
  item_id = 4;
  status = is_ok;
  note = none;
  responded_by = some 10;
  responded_at = some 100;
}

abbrev answered_once : ChecklistDb
answered_once = record empty { instances = begun ∷ []; responses = cabling ∷ [] }

created : create_instance empty 6 lan 10 false ≡ ok (drafted, sheet)
unfolding create_instance
created = refl

responded : respond_to_item drafted 7 100 6 4 fine 10 false ≡ ok (answered_once, cabling)
unfolding respond_to_item
responded = refl

run-progress_example :
    IsDistinct same_slot answered_once.instances
    × IsDistinct same_item answered_once.responses
    × Returns
        (λ p.
          (p.ok_count + p.nok_count + p.na_count ≡ p.answered)
          × (p.answered + p.unchecked_count ≡ p.total_items)
          × (p.progress_percent ≤ 100))
        (get_progress halves answered_once 6)
run-progress_example =
    run-progress halves empty answered_once 6 refl refl
      (create 6 lan 10 false created (respond 7 100 6 4 fine 10 false responded done)) refl
      (omega arith)

-- The instance that holds an answer, but is still a draft.
abbrev noted : ChecklistDb
noted = record empty { instances = sheet ∷ []; responses = cabling ∷ [] }

seen_draft : get_instance noted 6 1 true ≡ ok sheet
unfolding get_instance
seen_draft = refl

-- An administrator answers the item again, and the instance begins.
respond_to_item-stored_example :
    Returns
      (λ p.
        (first (is_response 6 4) p.0.responses ≡ some p.1)
        × (p.1.status ≡ nok)
        × (p.1.note ≡ some "cut")
        × ((k' item' : ℕ) (r : ChecklistResponse)
            → (k' == 6 && item' == 4) ≡ false
            → first (is_response k' item') noted.responses ≡ some r
            → first (is_response k' item') p.0.responses ≡ some r)
        × (first (λ j. j.id == 6) p.0.instances
            ≡ some (record sheet { status = in_progress; started_at = some 200 })))
      (respond_to_item noted 8 200 6 4 (record { status = nok; note = some "cut" }) 1 true)
respond_to_item-stored_example =
    respond_to_item-stored noted 8 200 6 4 (record { status = nok; note = some "cut" }) 1 true
      seen_draft refl (tt, tt)

instance-IsForeign_example :
    (create_instance answered_once 9
        (record { template_id = 2; audit_id = 1; site_id = some 3 })
        11
        false
      ≡ err not_found)
    × (list_instances answered_once 1 11 false ≡ err not_found)
    × (get_instance answered_once 6 11 false ≡ err not_found)
    × (respond_to_item answered_once 9 200 6 5 fine 11 false ≡ err not_found)
    × (complete_instance answered_once 200 6 11 false ≡ err not_found)
    × (delete_instance answered_once 6 11 false ≡ err not_found)
instance-IsForeign_example =
    instance-IsForeign answered_once 11 6 begun refl (refl, tt) 9 200 5 2 (some 3) fine
