-- ===== src/Checklist/Writes.antt =====
-- What the writes of the checklist service keep: the keys of the tables and the places of the
-- responses.
use assistant_audit.Prelude.{
  ℕ, ap, sym, ◌≡◌, refl, Bool, true, false, some, none, List, ◌≢◌, ◌&&◌, is_option_comm, first,
  update, All, ◌==◌, nat_eq, arith, Bool-cases, Option-cases, inl, inr, first-none, first-update,
  IsDistinct, snoc-IsDistinct, update-IsDistinct, All-map, All-append, All-update, subst,
  if◌then◌else◌, Option,
}
use assistant_audit.Campaign.{Audit}
use assistant_audit.Errors.{err, Result, ◌>>=◌, ok, IfReturns, IfReturns-bind, not_found}
use assistant_audit.Checklist.Rows.{
  ChecklistInstance, ChecklistResponse, ChecklistItem, ChecklistSection, ChecklistDb,
  ResponseUpdate, is_response, in_template, is_found, draft, instance_status_eq,
}
use assistant_audit.Checklist.Service.{
  new_response, check_audit_access, get_instance, upsert, begin, answer,
}
use assistant_audit.Checklist.Counted.{IsPlaced, same_slot, same_item}

pub is_found-false : {A : Type 0} (o : Option A) → is_found o ≡ false → o ≡ none
is_found-false none h = refl
is_found-false (some a) h = cc

pub same_slot-flip : (a b : ChecklistInstance) → same_slot b a ≡ false → same_slot a b ≡ false
same_slot-flip a b h = ground (arith, is_option_comm a.site_id b.site_id)

pub same_item-flip : (a b : ChecklistResponse) → same_item b a ≡ false → same_item a b ≡ false
same_item-flip a b h = ground arith

pub begin_id : (now : ℕ) (i : ChecklistInstance) → (begin now i).id ≡ i.id
begin_id now i = ground arith

pub begin_left : (now : ℕ) (i j : ChecklistInstance) → same_slot (begin now i) j ≡ same_slot i j
begin_left now i j = elim (Bool-cases (i.status == draft)) [ inl t ↦ rw t refl | inr n ↦ rw n refl ]

pub begin_right : (now : ℕ) (i j : ChecklistInstance) → same_slot i (begin now j) ≡ same_slot i j
begin_right now i j = elim (Bool-cases (j.status == draft)) [
  | inl t ↦ rw t refl
  | inr n ↦ rw n refl
]

pub begin-keeps : (now : ℕ) (i : ChecklistInstance) → (begin now i).template_id ≡ i.template_id
begin-keeps now i = ground arith

module _ (sections : List ChecklistSection) (items : List ChecklistItem) where
  -- A response stays placed where its instance is still found, with the same template.
  pub IsPlaced-keep :
      (is is' : List ChecklistInstance) (r : ChecklistResponse)
      → ((i : ChecklistInstance)
          → first (λ x. x.id == r.instance_id) is ≡ some i
          → (j : ChecklistInstance) × (first (λ x. x.id == r.instance_id) is' ≡ some j)
            × (i.template_id ≡ j.template_id))
      → IsPlaced sections items is r
      → IsPlaced sections items is' r
  IsPlaced-keep is is' r keep (i, found, has) =
      let (j, found', same) = keep i found in
      (
        j,
        found',
        subst (λ t. first (λ x. x.id == r.item_id && in_template sections t x) items ≢ none) same
            has,
      )

-- The instance that the guards of a call return is in the table.
pub get_instance-found :
    (db : ChecklistDb) (k u : ℕ) (admin : Bool) {i : ChecklistInstance}
    → get_instance db k u admin ≡ ok i
    → first (λ x. x.id == k) db.instances ≡ some i
unfolding get_instance
get_instance-found db k u admin {i} h = elim (Option-cases (first (λ x. x.id == k) db.instances)) [
  | inl n ↦ absurd (missing (rw n at h))
  | inr (j, e) ↦ rw e (ap some (last (check_audit_access db j.audit_id u admin) (rw e at h)))
]
  where
    missing : err not_found ≡ ok i → ⊥
    missing h = cc

    last : {j : ChecklistInstance} (m : Result Audit) → (m >>= λ _. ok j) ≡ ok i → j ≡ i
    last (ok a) h = cc
    last (err e) h = cc

-- The upsert of a response.
module _ (new_id now k item : ℕ) (body : ResponseUpdate) (u : ℕ) where
  pub upsert-IsDistinct :
      (rs : List ChecklistResponse)
      → IsDistinct same_item rs
      → IsDistinct same_item (upsert new_id now k item body u rs).0
  unfolding upsert
  upsert-IsDistinct rs h = elim (Option-cases (first (is_response k item) rs)) [
    | inl free ↦
        rw (free, upsert)
          (snoc-IsDistinct same_item rs (new_response new_id now k item body u) h (
            All-map _ _ rs (λ r n. same_item-flip r (new_response new_id now k item body u) n)
              (first-none _ rs free)))
    | inr (r, taken) ↦
        rw (taken, upsert)
          (update-IsDistinct same_item (λ x. x.id == r.id) (answer body u now) rs (λ _ _. refl)
            (λ _ _. refl) h)
  ]

  pub upsert-All :
      (P : ChecklistResponse → Type 0) (rs : List ChecklistResponse)
      → ((r : ChecklistResponse) → P r → P (answer body u now r))
      → P (new_response new_id now k item body u)
      → All P rs
      → All P (upsert new_id now k item body u rs).0
  unfolding upsert
  upsert-All P rs keep new h = elim (Option-cases (first (is_response k item) rs)) [
    | inl free ↦ rw (free, upsert) (All-append P rs _ h (new, tt))
    | inr (r, taken) ↦
        rw (taken, upsert)
          (All-update P (λ x. x.id == r.id) (answer body u now) rs (λ r _ p. keep r p) h)
  ]

-- A write to an instance that keeps its key and its template.
module _ (db : ChecklistDb) (k : ℕ) (f : ChecklistInstance → ChecklistInstance)
    (id : (i : ChecklistInstance) → (f i).id ≡ i.id)
    (left : (i j : ChecklistInstance) → same_slot (f i) j ≡ same_slot i j)
    (right : (i j : ChecklistInstance) → same_slot i (f j) ≡ same_slot i j)
    (template : (i : ChecklistInstance) → (f i).template_id ≡ i.template_id) where
  abbrev pub written : List ChecklistInstance
  written = update (λ x. x.id == k) f db.instances

  pub instances-written : IsDistinct same_slot db.instances → IsDistinct same_slot written
  instances-written = update-IsDistinct same_slot (λ x. x.id == k) f db.instances left right

  pub IsPlaced-written :
      (r : ChecklistResponse)
      → IsPlaced db.sections db.items db.instances r
      → IsPlaced db.sections db.items written r
  IsPlaced-written r = IsPlaced-keep db.sections db.items db.instances written r (λ i e. (
    _,
    first-update (λ x. x.id == r.instance_id) (λ x. x.id == k) f db.instances
        (λ i. ap (λ n. n == r.instance_id) (id i)) e,
    kept i (i.id == k),
  ))
    where
      kept : (i : ChecklistInstance) (b : Bool) → i.template_id ≡ (if b then f i else i).template_id
      kept i true = sym (template i)
      kept i false = refl

pub get_instance-bind :
    {B : Type 0} (P : B → Type 0) (db : ChecklistDb) (k u : ℕ) (admin : Bool)
    (next : ChecklistInstance → Result B)
    → ((i : ChecklistInstance)
        → first (λ x. x.id == k) db.instances ≡ some i
        → IfReturns P (next i))
    → IfReturns P (get_instance db k u admin >>= next)
get_instance-bind P db k u admin next h =
    IfReturns-bind P (get_instance db k u admin) next
      (λ i e. h i (get_instance-found db k u admin e))
