-- ===== src/Tags/Unique.antt =====
-- What holds of the associations after any call of the tag service.
use assistant_audit.Prelude.{
  ℕ, ◌≡◌, refl, String, Bool, true, false, not, ◌&&◌, Option, none, some, List, ◌++◌, ◌==◌, nat_eq,
  string_eq, first, update, delete, All, All-map, All-left, All-append, All-delete, first-none,
  first-append, first-delete, first-update, IsDistinct, snoc-IsDistinct, delete-IsDistinct,
  Option-cases, inl, inr, arith, ap,
}
use assistant_audit.Errors.{
  Result, not_found, conflict, integrity, raise_if, ◌>>=◌, IfReturns, IfReturns-bind,
}
use assistant_audit.Tags.Service.{
  Tag, TagAssociation, TagDb, TagCreate, TagUpdate, is_found, is_audit, is_named, owns, new_value,
  renamed, is_refused, get_tag, create_tag, update_tag, delete_tag, links, associate_tag,
  dissociate_tag,
}
use assistant_audit.Tags.Carried.{get_tag-found}

abbrev pub same_link : TagAssociation → TagAssociation → Bool
same_link a b = links a.tag_id a.taggable_type a.taggable_id b

abbrev pub HasTag : List Tag → TagAssociation → Type 0
HasTag tags a = is_found (first (λ t. t.id == a.tag_id) tags) ≡ true

-- No tag is on an entity twice, and the tag of each association is there.
abbrev pub IsLinked : TagDb → Type 0
IsLinked db = IsDistinct same_link db.associations × All (HasTag db.tags) db.associations

same_link-flip : (a b : TagAssociation) → same_link b a ≡ false → same_link a b ≡ false
same_link-flip a b h = ground (
  arith,
  string_eq.eqb_iff a.taggable_type b.taggable_type,
  string_eq.eqb_iff b.taggable_type a.taggable_type,
)

found-some {ℓ} : {A : Type ℓ} (o : Option A) → is_found o ≡ true → (a : A) × (o ≡ some a)
found-some none h = cc
found-some (some a) h = (a, refl)

HasTag-append :
    (tags more : List Tag) (a : TagAssociation) → HasTag tags a → HasTag (tags ++ more) a
HasTag-append tags more a h =
    let (t, e) = found-some _ h in rw (first-append (λ t. t.id == a.tag_id) tags more e) refl

HasTag-update :
    (p : Tag → Bool) (f : Tag → Tag) (tags : List Tag) (a : TagAssociation)
    → ((t : Tag) → (f t).id ≡ t.id)
    → HasTag tags a
    → HasTag (update p f tags) a
HasTag-update p f tags a keep h =
    let (t, e) = found-some _ h in
    rw (first-update (λ t. t.id == a.tag_id) p f tags (λ t. ap (λ n. n == a.tag_id) (keep t)) e)
      refl

HasTag-delete :
    (k : ℕ) (tags : List Tag) (a : TagAssociation)
    → (a.tag_id == k) ≡ false
    → HasTag tags a
    → HasTag (delete (λ t. t.id == k) tags) a
HasTag-delete k tags a other h =
    rw (first-delete (λ t. t.id == a.tag_id) (λ t. t.id == k) tags (λ t same. apart t same)) h
  where
    apart : (t : Tag) → (t.id == a.tag_id) ≡ true → (t.id == k) ≡ false
    apart t same = ground (arith, other)

get_tag-bind :
    {B : Type 0} (P : B → Type 0) (db : TagDb) (k u : ℕ) (admin : Bool) (next : Tag → Result B)
    → ((t : Tag) → first (λ x. x.id == k) db.tags ≡ some t → IfReturns P (next t))
    → IfReturns P (get_tag db k u admin >>= next)
get_tag-bind P db k u admin next h =
    IfReturns-bind P (get_tag db k u admin) next (λ t e. h t (get_tag-found db k u admin e))

create_tag-IsLinked :
    (db : TagDb) (id : ℕ) (body : TagCreate) (u : ℕ) (admin : Bool)
    → IsLinked db
    → IfReturns (λ p. IsLinked p.0) (create_tag db id body u admin)
unfolding create_tag
create_tag-IsLinked db id body u admin h =
    IfReturns-bind (λ p. IsLinked p.0)
      (raise_if
        (is_audit body.scope
          && is_found body.audit_id
          && not admin
          && not (owns db.audits body.audit_id u))
        not_found)
      _
      (λ _ _.
        IfReturns-bind (λ p. IsLinked p.0)
          (raise_if (is_found (first (is_named body.name body.scope body.audit_id) db.tags))
            conflict)
          _ (λ _ _. (h.0, All-map _ _ db.associations (HasTag-append db.tags _) h.1)))

delete_tag-IsLinked :
    (db : TagDb) (k u : ℕ) (admin : Bool)
    → IsLinked db
    → IfReturns (λ p. IsLinked p.0) (delete_tag db k u admin)
unfolding delete_tag
delete_tag-IsLinked db k u admin h =
    get_tag-bind (λ p. IsLinked p.0) db k u admin _
      (λ t _. (
        delete-IsDistinct same_link (λ a. a.tag_id == t.id) db.associations h.0,
        All-left (HasTag db.tags) (HasTag (delete (λ x. x.id == t.id) db.tags))
            (λ a. a.tag_id == t.id) db.associations (λ a other. HasTag-delete t.id db.tags a other)
            h.1,
      ))

associate_tag-IsLinked :
    (db : TagDb) (id k : ℕ) (kind : String) (entity u : ℕ) (admin : Bool)
    → IsLinked db
    → IfReturns (λ p. IsLinked p.0) (associate_tag db id k kind entity u admin)
unfolding associate_tag
associate_tag-IsLinked db id k kind entity u admin h =
    get_tag-bind (λ p. IsLinked p.0) db k u admin _
      (λ t there. elim (Option-cases (first (links k kind entity) db.associations)) [
        | inl free ↦ rw free (
          snoc-IsDistinct same_link db.associations (row) h.0 (
              All-map _ _ db.associations (λ a n. same_link-flip a row n)
                (first-none _ db.associations free)),
          All-append (HasTag db.tags) db.associations _ h.1 ((rw there refl), tt),
        )
        | inr (a, taken) ↦ rw taken h
      ])
  where
    row : TagAssociation
    row = record { id = id; tag_id = k; taggable_type = kind; taggable_id = entity }

dissociate_tag-IsLinked :
    (db : TagDb) (k : ℕ) (kind : String) (entity u : ℕ) (admin : Bool)
    → IsLinked db
    → IfReturns (λ p. IsLinked p.0) (dissociate_tag db k kind entity u admin)
unfolding dissociate_tag
dissociate_tag-IsLinked db k kind entity u admin h =
    get_tag-bind (λ p. IsLinked p.0) db k u admin _
      (λ t _. elim (Option-cases (first (links k kind entity) db.associations)) [
        | inl free ↦ rw free h
        | inr (a, taken) ↦ rw taken (
          delete-IsDistinct same_link (λ x. x.id == a.id) db.associations h.0,
          All-delete (HasTag db.tags) (λ x. x.id == a.id) db.associations h.1,
        )
      ])

update_tag-IsLinked :
    (db : TagDb) (k : ℕ) (body : TagUpdate) (u : ℕ) (admin : Bool)
    → IsLinked db
    → IfReturns (λ p. IsLinked p.0) (update_tag db k body u admin)
unfolding update_tag
update_tag-IsLinked db k body u admin h = get_tag-bind P db k u admin _ (λ t there.
    IfReturns-bind P (new_value body.name t.name) _ (λ name _.
      IfReturns-bind P (new_value body.color t.color) _ (λ color _.
        IfReturns-bind P (raise_if (is_refused (renamed name color t) db.tags) integrity) _ (λ _ _.
          (
            h.0,
            All-map _ _ db.associations
                (λ a. HasTag-update (λ x. x.id == t.id) (renamed name color) db.tags a (λ _. refl))
                h.1,
          )))))
  where
    P : TagDb × Tag → Type 0
    P p = IsLinked p.0

-- Creating, updating and deleting tags, and putting them on entities and taking them off, leave no
-- tag twice on an entity and no association without its tag, where there were none.
pub tags-IsLinked :
    (db : TagDb) (id k : ℕ) (made : TagCreate) (changed : TagUpdate) (kind : String) (entity u : ℕ)
    (admin : Bool)
    → IsLinked db
    → IfReturns (λ p. IsLinked p.0) (create_tag db id made u admin)
      × IfReturns (λ p. IsLinked p.0) (update_tag db k changed u admin)
      × IfReturns (λ p. IsLinked p.0) (delete_tag db k u admin)
      × IfReturns (λ p. IsLinked p.0) (associate_tag db id k kind entity u admin)
      × IfReturns (λ p. IsLinked p.0) (dissociate_tag db k kind entity u admin)
tags-IsLinked db id k made changed kind entity u admin h = (
  create_tag-IsLinked db id made u admin h,
  update_tag-IsLinked db k changed u admin h,
  delete_tag-IsLinked db k u admin h,
  associate_tag-IsLinked db id k kind entity u admin h,
  dissociate_tag-IsLinked db k kind entity u admin h,
)
