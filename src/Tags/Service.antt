-- ===== src/Tags/Service.antt =====
-- The rows of backend/app/models/tag.py, and the methods of `TagService` but the paged listing.
use assistant_audit.Prelude.{
  ℕ, String, Bool, true, false, not, ◌&&◌, ◌||◌, Option, none, some, List, [], ◌∷◌, ◌++◌, ◌==◌,
  nat_eq, string_eq, is_option, holds, first, select, update, delete,
}
use assistant_audit.Errors.{
  not_found, conflict, integrity, Result, ok, ◌>>=◌, ◌>>◌, raise_if, require,
}
use assistant_audit.Campaign.{Audit}

pub data Scope : Type 0 where
  global audit : Scope

abbrev pub same_scope : Scope → Scope → Bool
same_scope global global = true
same_scope audit audit = true
same_scope _ _ = false

pub record Tag : Type 0 where
  pub id : ℕ
  pub name : String
  pub color : String
  pub scope : Scope
  pub audit_id : Option ℕ
  pub created_by : Option ℕ

pub record TagAssociation : Type 0 where
  pub id : ℕ
  pub tag_id : ℕ
  pub taggable_type : String
  pub taggable_id : ℕ

pub record TagDb : Type 0 where
  pub audits : List Audit
  pub tags : List Tag
  pub associations : List TagAssociation

pub record TagCreate : Type 0 where
  pub name : String
  pub color : String
  pub scope : Scope
  pub audit_id : Option ℕ

-- `TagUpdate.model_dump(exclude_unset=True)`: `some none` is a field set to null.
pub record TagUpdate : Type 0 where
  pub name : Option (Option String)
  pub color : Option (Option String)

abbrev pub is_found {ℓ} : {A : Type ℓ} → Option A → Bool
is_found none = false
is_found (some a) = true

abbrev pub is_audit : Scope → Bool
is_audit global = false
is_audit audit = true

-- `Audit.id == audit_id, Audit.owner_id == user_id`
abbrev pub owns : List Audit → Option ℕ → ℕ → Bool
owns audits audit_id user_id =
    is_found (first (λ a. holds audit_id a.id && a.owner_id == user_id) audits)

unfoldable pub get_tag : TagDb → ℕ → ℕ → Bool → Result Tag
get_tag db tag_id user_id is_admin = do
  tag ← require (first (λ t. t.id == tag_id) db.tags) not_found
  raise_if (is_audit tag.scope && not is_admin && not (owns db.audits tag.audit_id user_id))
      not_found
  ok tag

abbrev pub is_named : String → Scope → Option ℕ → Tag → Bool
is_named name scope audit_id t =
    t.name == name && same_scope t.scope scope && is_option t.audit_id audit_id

unfoldable pub create_tag : TagDb → ℕ → TagCreate → ℕ → Bool → Result (TagDb × Tag)
create_tag db new_id body user_id is_admin = do
  raise_if
      (is_audit body.scope
        && is_found body.audit_id
        && not is_admin
        && not (owns db.audits body.audit_id user_id))
      not_found
  raise_if (is_found (first (is_named body.name body.scope body.audit_id) db.tags)) conflict
  let tag : Tag = record {
    id = new_id;
    name = body.name;
    color = body.color;
    scope = body.scope;
    audit_id = body.audit_id;
    created_by = some user_id;
  }
  ok (record db { tags = db.tags ++ tag ∷ [] }, tag)

-- `uq_tag_name_scope_audit` and `uix_global_tag_name`: SQL's NULLs differ from each other, so that
-- the name of a tag without an audit is unique for global tags only.
abbrev pub clashes : Tag → Tag → Bool
clashes a b =
    a.name == b.name
    && same_scope a.scope b.scope
    && is_option a.audit_id b.audit_id
    && (is_found a.audit_id || not (is_audit a.scope))

-- A field of the request: kept where it is not set, refused by the database where it is null.
abbrev pub new_value : Option (Option String) → String → Result String
new_value none old = ok old
new_value (some v) old = require v integrity

abbrev pub renamed : String → String → Tag → Tag
renamed name color t = record t { name = name; color = color }

-- Another tag has the key that the changed tag would have.
abbrev pub is_refused : Tag → List Tag → Bool
is_refused changed tags = is_found (first (λ t. not (t.id == changed.id) && clashes t changed) tags)

-- The method looks for no other tag of the new name; the database refuses it.
unfoldable pub update_tag : TagDb → ℕ → TagUpdate → ℕ → Bool → Result (TagDb × Tag)
unfolding get_tag
update_tag db tag_id body user_id is_admin = do
  tag ← get_tag db tag_id user_id is_admin
  name ← new_value body.name tag.name
  color ← new_value body.color tag.color
  raise_if (is_refused (renamed name color tag) db.tags) integrity
  ok (
    record db { tags = update (λ t. t.id == tag.id) (renamed name color) db.tags },
    renamed name color tag,
  )

-- The associations of the tag are deleted with it.
unfoldable pub delete_tag : TagDb → ℕ → ℕ → Bool → Result (TagDb × String)
unfolding get_tag
delete_tag db tag_id user_id is_admin = do
  tag ← get_tag db tag_id user_id is_admin
  ok (
    record db {
      tags = delete (λ t. t.id == tag.id) db.tags;
      associations = delete (λ a. a.tag_id == tag.id) db.associations;
    },
    tag.name,
  )

abbrev pub links : ℕ → String → ℕ → TagAssociation → Bool
links tag_id kind id a = a.tag_id == tag_id && a.taggable_type == kind && a.taggable_id == id

unfoldable pub associate_tag :
    TagDb → ℕ → ℕ → String → ℕ → ℕ → Bool → Result (TagDb × TagAssociation)
unfolding get_tag
associate_tag db new_id tag_id kind id user_id is_admin = do
  tag ← get_tag db tag_id user_id is_admin
  elim (first (links tag_id kind id) db.associations) [
    | some a ↦ ok (db, a)
    | none ↦ do
      let a : TagAssociation = record {
        id = new_id;
        tag_id = tag_id;
        taggable_type = kind;
        taggable_id = id;
      }
      ok (record db { associations = db.associations ++ a ∷ [] }, a)
  ]

unfoldable pub dissociate_tag : TagDb → ℕ → String → ℕ → ℕ → Bool → Result (TagDb × Bool)
unfolding get_tag
dissociate_tag db tag_id kind id user_id is_admin = do
  tag ← get_tag db tag_id user_id is_admin
  elim (first (links tag_id kind id) db.associations) [
    | some a ↦ ok (record db { associations = delete (λ x. x.id == a.id) db.associations }, true)
    | none ↦ ok (db, false)
  ]

-- The join of the tags with the associations of an entity.
unfoldable pub get_tags_for_entity : TagDb → String → ℕ → List Tag
get_tags_for_entity db kind id =
    select (λ t. is_found (first (links t.id kind id) db.associations)) db.tags
