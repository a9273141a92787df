-- ===== src/Tags/Tests.antt =====
-- A global tag, put on an equipment.
use assistant_audit.Prelude.{◌≡◌, refl, true, false, none, some, [], ◌∷◌, first, ◌==◌, nat_eq}
use assistant_audit.Errors.{ok, err, integrity, Returns, IfReturns}
use assistant_audit.Tags.Service.{
  Tag, TagAssociation, TagDb, TagCreate, TagUpdate, global, get_tag, create_tag, update_tag,
  delete_tag, associate_tag, dissociate_tag, get_tags_for_entity,
}
use assistant_audit.Tags.Carried.{associate_tag-dissociate}
use assistant_audit.Tags.Unique.{IsLinked, tags-IsLinked}

abbrev urgent : Tag
urgent = record {
  id = 1;
  name = "urgent";
  color = "#FF0000";
  scope = global;
  audit_id = none;
  created_by = some 10;
}

abbrev later : Tag
later = record urgent { id = 2; name = "later" }

abbrev on_firewall : TagAssociation
on_firewall = record { id = 7; tag_id = 2; taggable_type = "equipement"; taggable_id = 4 }

abbrev db : TagDb
db = record { audits = []; tags = urgent ∷ later ∷ []; associations = on_firewall ∷ [] }

abbrev rename : TagUpdate
rename = record { name = some (some "later"); color = none }

-- The new name is another global tag's.
refused : update_tag db 1 rename 11 false ≡ err integrity
unfolding update_tag
refused = refl

seen : get_tag db 1 11 false ≡ ok urgent
unfolding get_tag
seen = refl

associate_tag-dissociate_example :
    Returns
      (λ p.
        (first (λ t. t.id == 1) (get_tags_for_entity p.0 "equipement" 4) ≡ some urgent)
        × (associate_tag p.0 9 1 "equipement" 4 11 false ≡ ok (p.0, p.1))
        × (dissociate_tag p.0 1 "equipement" 4 11 false ≡ ok (db, true)))
      (associate_tag db 8 1 "equipement" 4 11 false)
associate_tag-dissociate_example =
    associate_tag-dissociate db 8 9 1 "equipement" 4 11 false seen refl (refl, tt)

abbrev request : TagCreate
request = record { name = "wifi"; color = "#00FF00"; scope = global; audit_id = none }

tags-IsLinked_example :
    IfReturns (λ p. IsLinked p.0) (create_tag db 8 request 11 false)
    × IfReturns (λ p. IsLinked p.0) (update_tag db 1 rename 11 false)
    × IfReturns (λ p. IsLinked p.0) (delete_tag db 1 11 false)
    × IfReturns (λ p. IsLinked p.0) (associate_tag db 8 1 "equipement" 4 11 false)
    × IfReturns (λ p. IsLinked p.0) (dissociate_tag db 1 "equipement" 4 11 false)
tags-IsLinked_example =
    tags-IsLinked db 8 1 request rename "equipement" 4 11 false ((tt, tt), (refl, tt))
