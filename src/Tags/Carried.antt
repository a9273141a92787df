-- ===== src/Tags/Carried.antt =====
-- Tagging an entity, and taking the tag off it.
use assistant_audit.Prelude.{
  ℕ, ◌≡◌, refl, sym, ap, ◌∙◌, subst, String, Bool, true, false, not, ◌&&◌, none, some, List, [],
  ◌∷◌, ◌++◌, ◌==◌, ==-self, nat_eq, nat_eqb_iff, string_eq, first, All, first-none, first-snoc,
  first-and, first-select, delete-snoc, Option-cases, inl, inr,
}
use assistant_audit.Errors.{not_found, ok, err, ◌>>◌, raise_if, Returns}
use assistant_audit.Tags.Service.{
  Tag, TagAssociation, TagDb, is_found, is_audit, owns, get_tag, links, associate_tag,
  dissociate_tag, get_tags_for_entity,
}

pub get_tag-found :
    (db : TagDb) (k u : ℕ) (admin : Bool) {tag : Tag}
    → get_tag db k u admin ≡ ok tag
    → first (λ t. t.id == k) db.tags ≡ some tag
unfolding get_tag
get_tag-found db k u admin {tag} h = elim (Option-cases (first (λ t. t.id == k) db.tags)) [
  | inl n ↦ absurd (missing (rw n at h))
  | inr (t, e) ↦ rw e (
      ap some
        (last (is_audit t.scope && not admin && not (owns db.audits t.audit_id u)) (rw e at h)))
]
  where
    missing : err not_found ≡ ok tag → ⊥
    missing h = cc

    last : {t : Tag} (b : Bool) → (raise_if b not_found >> ok t) ≡ ok tag → t ≡ tag
    last true h = cc
    last false h = cc

get_tag-associations :
    (db : TagDb) (rows : List TagAssociation) (k u : ℕ) (admin : Bool)
    → get_tag (record db { associations = rows }) k u admin ≡ get_tag db k u admin
unfolding get_tag
get_tag-associations db rows k u admin = refl

abbrev new_association : ℕ → ℕ → String → ℕ → TagAssociation
new_association new_id tag_id kind id = record {
  id = new_id;
  tag_id = tag_id;
  taggable_type = kind;
  taggable_id = id;
}

-- A tag that the caller sees is put on an entity that does not carry it, under an id that no
-- association has: the entity then carries the tag; doing it again changes nothing and returns the
-- same association; and taking the tag off gives back the tables as they were.
pub associate_tag-dissociate :
    (db : TagDb) (new_id later_id k : ℕ) (kind : String) (id u : ℕ) (admin : Bool) {tag : Tag}
    → get_tag db k u admin ≡ ok tag
    → first (links k kind id) db.associations ≡ none
    → All (λ a. (a.id == new_id) ≡ false) db.associations
    → Returns
        (λ p.
          (first (λ t. t.id == k) (get_tags_for_entity p.0 kind id) ≡ some tag)
          × (associate_tag p.0 later_id k kind id u admin ≡ ok (p.0, p.1))
          × (dissociate_tag p.0 k kind id u admin ≡ ok (db, true)))
        (associate_tag db new_id k kind id u admin)
unfolding associate_tag dissociate_tag get_tags_for_entity
associate_tag-dissociate db new_id later_id k kind id u admin {tag} seen free fresh =
    let a = new_association new_id k kind id in
    let rows = db.associations ++ a ∷ [] in
    let linked : first (links k kind id) rows ≡ some a =
      first-snoc (links k kind id) db.associations a (first-none _ _ free)
        (rw (==-self k, ==-self kind, ==-self id) refl) in
    let seen' : get_tag (record db { associations = rows }) k u admin ≡ ok tag =
      get_tag-associations db rows k u admin ∙ seen in
    rw (seen, associate_tag, free)
      (
        first-select (λ t. t.id == k) (λ t. is_found (first (links t.id kind id) rows)) db.tags
            ∙ first-and (λ t. t.id == k) (λ t. is_found (first (links t.id kind id) rows)) db.tags
                (λ t same.
                  subst (λ n. is_found (first (links n kind id) rows) ≡ true)
                    (sym ((nat_eqb_iff t.id k).0 same)) (rw linked refl))
            ∙ get_tag-found db k u admin seen,
        (rw (seen', associate_tag, linked) refl),
        (rw (seen', dissociate_tag, linked)
            (ap (λ r. ok (record db { associations = r }, true))
              (delete-snoc (λ x. x.id == new_id) db.associations a fresh (==-self new_id)))),
      )
