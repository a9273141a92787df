-- ===== src/Campaign/Creation.antt =====
-- The creation of an assessment: its results, and the uniqueness of assessments.
use assistant_audit.Prelude.{
  ℕ, ◌+◌, ◌≡◌, refl, ap, ◌∙◌, String, Bool, false, Option, none, some, List, [], ◌∷◌, ◌++◌, map,
  first, select, delete, All, All-append, All-delete, ◌==◌, nat_eq, arith, Option-cases, inl, inr,
  ==-self, select-append, select-none, first-none, Bool-cases,
}
use assistant_audit.Errors.{ok, Returns, IfReturns, IfReturns-bind, value_error, require}
use assistant_audit.Compliance.{Control, not_assessed}
use mathlib.Core.List.{flat_map, map-append}
use assistant_audit.Campaign.Rows.{
  Campaign, Assessment, Equipement, Framework, FrameworkCategory, Db,
}
use assistant_audit.Campaign.Service.{load_campaign, results_of, check_assessment_access}
use assistant_audit.Campaign.Results.{
  create_assessment, new_results, controls_of, same_triple, delete_campaign, delete_assessment,
}

select-new_results :
    (k id : ℕ) (cs : List Control)
    → select (λ r. r.assessment_id == id) (new_results k id cs) ≡ new_results k id cs
unfolding new_results
select-new_results k id [] = refl
select-new_results k id (c ∷ cs) = rw (==-self id, select-new_results (k + 1) id cs)

control_id-new_results :
    (k id : ℕ) (cs : List Control)
    → map (λ r. r.control_id) (new_results k id cs) ≡ map (λ c. c.id) cs
unfolding new_results
control_id-new_results k id [] = refl
control_id-new_results k id (c ∷ cs) = rw (control_id-new_results (k + 1) id cs)

status-new_results :
    (k id : ℕ) (cs : List Control) → All (λ r. r.status ≡ not_assessed) (new_results k id cs)
unfolding new_results
status-new_results k id [] = tt
status-new_results k id (c ∷ cs) = (refl, status-new_results (k + 1) id cs)

-- The library's lists within lists.
ids-controls_of :
    (cs : List FrameworkCategory)
    → map (λ c. c.id) (controls_of cs) ≡ flat_map (λ category. map (λ c. c.id) category.controls) cs
unfolding controls_of flat_map
ids-controls_of [] = refl
ids-controls_of (c ∷ cs) =
    map-append (λ x. x.id) c.controls (controls_of cs)
    ∙ ap (λ l. map (λ x. x.id) c.controls ++ l) (ids-controls_of cs)

-- An assessment that does not exist yet, of a campaign that the caller may load, is created, with
-- one result for each control of each category of the framework, in their order, each "not
-- assessed". (The database
-- gives the assessment an id that no result refers to.)
pub create_assessment-results :
    (db : Db) (new_id first_id cid eid fid : ℕ) (by : Option String) (user : Option ℕ)
    (admin : Bool) {c : Campaign} {e : Equipement} {fw : Framework}
    → All (λ r. (r.assessment_id == new_id) ≡ false) db.results
    → load_campaign db cid user admin ≡ ok c
    → first (λ x. x.id == eid) db.equipements ≡ some e
    → first (λ x. x.id == fid) db.frameworks ≡ some fw
    → first (same_triple cid eid fid) db.assessments ≡ none
    → Returns
        (λ p.
          (map (λ r. r.control_id) (results_of p.0 p.1.id)
            ≡ flat_map (λ category. map (λ c. c.id) category.controls) fw.categories)
          × All (λ r. r.status ≡ not_assessed) (results_of p.0 p.1.id))
        (create_assessment db new_id first_id cid eid fid by user admin)
unfolding create_assessment
create_assessment-results db new_id first_id cid eid fid by user admin {c} {e} {fw} fresh lc le lf
      free =
    rw (lc, le, lf, free)
      (rw (select-append, select-none _ _ fresh, select-new_results)
        (
          control_id-new_results first_id new_id _ ∙ ids-controls_of fw.categories,
          status-new_results first_id new_id _,
        ))

-- No two assessments join the same campaign, equipment and framework.
abbrev pub IsUnique : List Assessment → Type 0
IsUnique [] = Unit
IsUnique (a ∷ rest) =
    All (λ b. same_triple a.campaign_id a.equipement_id a.framework_id b ≡ false) rest
    × IsUnique rest

same_triple-flip :
    (a b : Assessment)
    → same_triple b.campaign_id b.equipement_id b.framework_id a ≡ false
    → same_triple a.campaign_id a.equipement_id a.framework_id b ≡ false
same_triple-flip a b h = ground arith

append-IsUnique :
    (rows : List Assessment) (a : Assessment)
    → IsUnique rows
    → All (λ b. same_triple a.campaign_id a.equipement_id a.framework_id b ≡ false) rows
    → IsUnique (rows ++ a ∷ [])
append-IsUnique [] a h new = (tt, tt)
append-IsUnique (b ∷ rest) a h new = (
  All-append (λ x. same_triple b.campaign_id b.equipement_id b.framework_id x ≡ false) rest (a ∷ [])
      h.0 (same_triple-flip b a new.0, tt),
  append-IsUnique rest a h.1 new.1,
)

delete-IsUnique :
    (p : Assessment → Bool) (rows : List Assessment) → IsUnique rows → IsUnique (delete p rows)
delete-IsUnique p [] h = tt
delete-IsUnique p (b ∷ rest) h = elim (Bool-cases (p b)) [
  | inl t ↦ rw t (delete-IsUnique p rest h.1)
  | inr n ↦ rw n (
    All-delete (λ x. same_triple b.campaign_id b.equipement_id b.framework_id x ≡ false) p rest h.0,
    delete-IsUnique p rest h.1,
  )
]

-- Creating an assessment, deleting one and deleting a campaign leave no two assessments of the same
-- campaign, equipment and framework, where there were none.
pub assessments-IsUnique :
    (db : Db) (new_id first_id cid eid fid : ℕ) (by : Option String) (user : Option ℕ)
    (admin : Bool)
    → IsUnique db.assessments
    → IfReturns
        (λ p. IsUnique p.0.assessments)
        (create_assessment db new_id first_id cid eid fid by user admin)
      × IfReturns (λ d. IsUnique d.assessments) (delete_assessment db new_id user admin)
      × IfReturns (λ d. IsUnique d.assessments) (delete_campaign db cid user admin)
unfolding create_assessment delete_assessment delete_campaign
assessments-IsUnique db new_id first_id cid eid fid by user admin h = (
  IfReturns-bind (λ p. IsUnique p.0.assessments) (load_campaign db cid user admin) _
      (λ c _.
        IfReturns-bind (λ p. IsUnique p.0.assessments)
          (require (first (λ x. x.id == eid) db.equipements) value_error) _
          (λ e _.
            IfReturns-bind (λ p. IsUnique p.0.assessments)
              (require (first (λ x. x.id == fid) db.frameworks) value_error) _
              (λ fw _. elim (Option-cases (first (same_triple cid eid fid) db.assessments)) [
                | inl free ↦ rw free (append-IsUnique db.assessments _ h (first-none _ _ free))
                | inr (a, taken) ↦ rw taken tt
              ]))),
  IfReturns-bind (λ d. IsUnique d.assessments)
      (require (first (λ x. x.id == new_id) db.assessments) value_error) _
      (λ a _.
        IfReturns-bind (λ d. IsUnique d.assessments) (check_assessment_access db a user admin) _
          (λ _ _. delete-IsUnique (λ b. b.id == a.id) db.assessments h)),
  IfReturns-bind (λ d. IsUnique d.assessments) (load_campaign db cid user admin) _
      (λ c _. delete-IsUnique (λ a. a.campaign_id == c.id) db.assessments h),
)
