-- ===== src/Checklist/Answers.antt =====
-- What an answer to an item changes, and what it leaves.
use assistant_audit.Prelude.{
  ℕ, ◌≡◌, refl, sym, ◌∙◌, if◌then◌else◌, Bool, true, false, ◌&&◌, some, first, ◌==◌, ==-self,
  nat_eq, arith, Bool-cases, Option-cases, inl, inr, first-none, first-snoc, first-update,
  first-append, subst, ap, first-satisfies, IsDistinct, first_unique, List,
}
use assistant_audit.Errors.{ok, Returns}
use assistant_audit.Checklist.Rows.{
  draft, in_progress, instance_status_eq, ChecklistInstance, ChecklistResponse, ChecklistItem,
  ChecklistDb, ResponseUpdate, is_response, in_template,
}
use assistant_audit.Checklist.Service.{
  get_instance, respond_to_item, upsert, new_response, begin, answer,
}
use assistant_audit.Checklist.Writes.{get_instance-found, begin_id}

-- `id` is a primary key.
abbrev pub same_id : ChecklistResponse → ChecklistResponse → Bool
same_id a b = a.id == b.id

module _ (new_id now k item : ℕ) (body : ResponseUpdate) (u : ℕ) (rs : List ChecklistResponse) where
  upsert-found :
      first (is_response k item) (upsert new_id now k item body u rs).0
      ≡ some (upsert new_id now k item body u rs).1
  unfolding upsert
  upsert-found = elim (Option-cases (first (is_response k item) rs)) [
    | inl free ↦
        rw (free, upsert)
          (first-snoc (is_response k item) rs (new_response new_id now k item body u)
            (first-none _ rs free) (rw (==-self k, ==-self item) refl))
    | inr (r, taken) ↦
        rw (taken, upsert)
          (rw (==-self r.id) at (
            first-update (is_response k item) (λ x. x.id == r.id) (answer body u now) rs (λ _. refl)
              taken))
  ]

  upsert-body :
      ((upsert new_id now k item body u rs).1.status ≡ body.status)
      × ((upsert new_id now k item body u rs).1.note ≡ body.note)
  unfolding upsert
  upsert-body = elim (Option-cases (first (is_response k item) rs)) [
    | inl free ↦ rw (free, upsert) (refl, refl)
    | inr (r, taken) ↦ rw (taken, upsert) (refl, refl)
  ]

  -- The answers to other items, and those of other instances, stay.
  upsert-others :
      (k' item' : ℕ) {x : ChecklistResponse}
      → (k' == k && item' == item) ≡ false
      → IsDistinct same_id rs
      → first (is_response k' item') rs ≡ some x
      → first (is_response k' item') (upsert new_id now k item body u rs).0 ≡ some x
  unfolding upsert
  upsert-others k' item' {x} other ids found = elim (Option-cases (first (is_response k item) rs)) [
    | inl free ↦ rw (free, upsert) (first-append (is_response k' item') rs _ found)
    | inr (r, taken) ↦
        let apart : (x.id == r.id) ≡ false = elim (Bool-cases (x.id == r.id)) [
          | inl t ↦ absurd (
              differ
                (first_unique same_id (is_response k' item') (is_response k item) rs flip ids found
                  taken t)
                (first-satisfies (is_response k' item') rs found)
                (first-satisfies (is_response k item) rs taken))
          | inr n ↦ n
        ] in
        rw (taken, upsert)
          (rw apart at (
            first-update (is_response k' item') (λ y. y.id == r.id) (answer body u now) rs
              (λ _. refl) found))
  ]
    where
      flip : (a b : ChecklistResponse) → same_id a b ≡ same_id b a
      flip a b = ground arith

      keys :
          (a : ChecklistResponse) → is_response k item a ≡ true → is_response k' item' a ≡ true → ⊥
      keys a t s = ground (arith, other)

      differ :
          {a b : ChecklistResponse}
          → a ≡ b
          → is_response k' item' a ≡ true
          → is_response k item b ≡ true
          → ⊥
      differ {a} {b} e s t = keys a (subst (λ z. is_response k item z ≡ true) (sym e) t) s

begin_lem :
    (now : ℕ) (i : ChecklistInstance)
    → begin now i ≡ record i {
      status = if i.status == draft then in_progress else i.status;
      started_at = if i.status == draft then some now else i.started_at;
    }
begin_lem now i = elim (Bool-cases (i.status == draft)) [ inl t ↦ rw t refl | inr n ↦ rw n refl ]

-- An answer, by a caller who may see the instance, to an item of its template: it is stored, as the
-- response found for the instance and the item; the response found before for any other pair is
-- still found; and the instance, if it was a draft, is in progress from now on, else unchanged. The ids of the
-- responses are distinct.
pub respond_to_item-stored :
    (db : ChecklistDb) (new_id now k item : ℕ) (body : ResponseUpdate) (u : ℕ) (admin : Bool)
    {i : ChecklistInstance} {x : ChecklistItem}
    → get_instance db k u admin ≡ ok i
    → first (λ y. y.id == item && in_template db.sections i.template_id y) db.items ≡ some x
    → IsDistinct same_id db.responses
    → Returns
        (λ p.
          (first (is_response k item) p.0.responses ≡ some p.1)
          × (p.1.status ≡ body.status)
          × (p.1.note ≡ body.note)
          × ((k' item' : ℕ) (r : ChecklistResponse)
              → (k' == k && item' == item) ≡ false
              → first (is_response k' item') db.responses ≡ some r
              → first (is_response k' item') p.0.responses ≡ some r)
          × (first (λ j. j.id == k) p.0.instances
              ≡ some (record i {
                status = if i.status == draft then in_progress else i.status;
                started_at = if i.status == draft then some now else i.started_at;
              })))
        (respond_to_item db new_id now k item body u admin)
unfolding respond_to_item
respond_to_item-stored db new_id now k item body u admin {i} {x} seen has ids =
    let told = upsert-body new_id now k item body u db.responses in
    rw (seen, has)
      (
        upsert-found new_id now k item body u db.responses,
        told.0,
        told.1,
        (λ k' item' r other found.
            upsert-others new_id now k item body u db.responses k' item' other ids found),
        (rw (==-self i.id) at (
              first-update (λ j. j.id == k) (λ j. j.id == i.id) (begin now) db.instances
                (λ j. ap (λ n. n == k) (begin_id now j)) (get_instance-found db k u admin seen)))
            ∙ ap some (begin_lem now i),
      )
