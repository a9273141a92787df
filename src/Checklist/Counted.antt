-- ===== src/Checklist/Counted.antt =====
-- What makes the tables of checklists well-formed, and why the numbers of the progress of an
-- instance then add up.
use assistant_audit.Prelude.{
  nat_eqb_iff, subst, some-eq, if◌then◌else◌, ltb, ltb→lt, ℕ, ◌+◌, ◌≤◌, ◌<◌, ◌≡◌, refl, Bool, true,
  false, not, ◌&&◌, some, none, List, [], ◌∷◌, ◌≢◌, length, select, first, All, ◌==◌, nat_eq, arith,
  Bool-cases, inl, inr, first-select, IsDistinct, select-IsDistinct, length-le_of_points,
  length-select,
}
use assistant_audit.Errors.{Returns}
use assistant_audit.Compliance.Float.{Float, exact}
use assistant_audit.Checklist.Rows.{
  ResponseStatus, is_ok, nok, na, unchecked, response_status_eq, ChecklistInstance,
  ChecklistResponse, ChecklistItem, ChecklistSection, ChecklistDb, is_slot, is_response,
  in_template,
}
use assistant_audit.Checklist.Progress.{get_progress}

-- The same template, audit and site; the same instance and item.
abbrev pub same_slot : ChecklistInstance → ChecklistInstance → Bool
same_slot a b = is_slot a.template_id a.audit_id a.site_id b

abbrev pub same_item : ChecklistResponse → ChecklistResponse → Bool
same_item a b = is_response a.instance_id a.item_id b

-- The instance of the response is there, and its template has the item.
abbrev pub IsPlaced :
    List ChecklistSection → List ChecklistItem → List ChecklistInstance → ChecklistResponse → Type 0
IsPlaced sections items instances r =
    (i : ChecklistInstance) × (first (λ x. x.id == r.instance_id) instances ≡ some i)
    × (first (λ x. x.id == r.item_id && in_template sections i.template_id x) items ≢ none)

abbrev pub IsWell : ChecklistDb → Type 0
IsWell db =
    IsDistinct same_slot db.instances
    × IsDistinct same_item db.responses
    × All (IsPlaced db.sections db.items db.instances) db.responses

-- The responses of one instance are no more than the items of its template.
abbrev points : ℕ → ChecklistResponse → ChecklistItem → Bool
points k r y = r.instance_id == k && y.id == r.item_id

points-apart :
    (k : ℕ) (r r' : ChecklistResponse) (y : ChecklistItem)
    → points k r y ≡ true
    → same_item r r' ≡ false
    → points k r' y ≡ false
points-apart k r r' y h n = ground arith

points-found :
    (k t : ℕ) (sections : List ChecklistSection) (items : List ChecklistItem)
    (r : ChecklistResponse)
    → (r.instance_id == k) ≡ true
    → first (λ x. x.id == r.item_id && in_template sections t x) items ≢ none
    → first (points k r) (select (in_template sections t) items) ≢ none
points-found k t sections items r e h =
    rw (first-select (points k r) (in_template sections t) items, e) h

-- One more response, of any status.
counted-step :
    (s : ResponseStatus) (r : ChecklistResponse) (a b c d : List ChecklistResponse)
    → length a + length b + length c ≡ length d
    → length (if s == is_ok then r ∷ a else a)
        + length (if s == nok then r ∷ b else b)
        + length (if s == na then r ∷ c else c)
      ≡ length (if not (s == unchecked) then r ∷ d else d)
counted-step is_ok r a b c d h = omega (arith, h)
counted-step nok r a b c d h = omega (arith, h)
counted-step na r a b c d h = omega (arith, h)
counted-step unchecked r a b c d h = h

counted :
    (rs : List ChecklistResponse)
    → length (select (λ r. r.status == is_ok) rs)
        + length (select (λ r. r.status == nok) rs)
        + length (select (λ r. r.status == na) rs)
      ≡ length (select (λ r. not (r.status == unchecked)) rs)
counted [] = refl
counted (r ∷ rs) = counted-step r.status r _ _ _ _ (counted rs)

module _ (f : Float) (db : ChecklistDb) (k : ℕ) where
  open f use {of_ℕ, mul, div, round_0}

  answered-le_total :
      {i : ChecklistInstance}
      → first (λ x. x.id == k) db.instances ≡ some i
      → IsWell db
      → length (select (λ r. r.instance_id == k) db.responses)
        ≤ length (select (in_template db.sections i.template_id) db.items)
  answered-le_total {i} e well =
      length-le_of_points (points k) same_item _ _ (points-apart k)
        (select-IsDistinct same_item (λ r. r.instance_id == k) db.responses well.1)
        (of_instance db.responses well.2)
    where
      placed :
          (r : ChecklistResponse)
          → (r.instance_id == k) ≡ true
          → IsPlaced db.sections db.items db.instances r
          → first (points k r) (select (in_template db.sections i.template_id) db.items) ≢ none
      placed r u (j, found, has) =
          let same = (nat_eqb_iff r.instance_id k).0 u in
          let here = subst (λ z. first (λ x. x.id == z) db.instances ≡ some j) same found in
          points-found k i.template_id db.sections db.items r u (
            subst
              (λ z.
                first (λ x. x.id == r.item_id && in_template db.sections z.template_id x) db.items
                ≢ none)
              (some-eq here e) has)

      of_instance :
          (rs : List ChecklistResponse)
          → All (IsPlaced db.sections db.items db.instances) rs
          → All
              (λ r.
                first (points k r) (select (in_template db.sections i.template_id) db.items) ≢ none)
              (select (λ r. r.instance_id == k) rs)
      of_instance [] h = tt
      of_instance (r ∷ rs) h = elim (Bool-cases (r.instance_id == k)) [
        | inl u ↦ rw u (placed r u h.0, of_instance rs h.1)
        | inr n ↦ rw n (of_instance rs h.1)
      ]

  -- The percentage of a part of the total is at most 100.
  percent-le :
      (part total : ℕ)
      → part ≤ total
      → 0 < total
      → total < exact
      → round_0 (mul (div (of_ℕ part) (of_ℕ total)) (of_ℕ 100)) ≤ 100
  percent-le part total le pos small =
      subst (λ z. round_0 (mul (div (of_ℕ part) (of_ℕ total)) (of_ℕ 100)) ≤ z)
        (f.round_0-of_ℕ 100 (omega arith))
        (f.round_0-mono _ _
          (f.mul_hundred_le _ (f.div_le_one _ total pos small (f.le-of_ℕ part total le small))))

  -- On well-formed tables the progress of an instance is computed: its answers are "OK", "NOK" or
  -- "NA", the unchecked items are the others, and the percentage is at most 100, for a template of
  -- fewer items than 2 ^ 53.
  pub get_progress-adds_up :
      {i : ChecklistInstance}
      → first (λ x. x.id == k) db.instances ≡ some i
      → IsWell db
      → length (select (in_template db.sections i.template_id) db.items) < exact
      → Returns
          (λ p.
            (p.ok_count + p.nok_count + p.na_count ≡ p.answered)
            × (p.answered + p.unchecked_count ≡ p.total_items)
            × (p.progress_percent ≤ 100))
          (get_progress f db k)
  unfolding get_progress
  get_progress-adds_up {i} e well small =
      let total = length (select (in_template db.sections i.template_id) db.items) in
      let rs = select (λ r. r.instance_id == k) db.responses in
      let part = length (select (λ r. not (r.status == unchecked)) rs) in
      let le : part ≤ total =
        omega
          (arith, answered-le_total e well, length-select (λ r. not (r.status == unchecked)) rs) in
      rw e (
        counted rs,
        omega (arith, le),
        elim (Bool-cases (ltb 0 total)) [
          | inl t ↦ rw t (percent-le part total le (ltb→lt 0 total t) small)
          | inr n ↦ rw n (omega arith)
        ],
      )
