-- ===== src/Campaign/Access.antt =====
-- Who may touch a campaign or an assessment: the operations that check the caller answer one who
-- neither owns the audit nor is an administrator as if it did not exist. (`bulk_update_results`,
-- in Campaign/Results, makes no such check.)
use assistant_audit.Prelude.{
  ℕ, ◌≡◌, ◌≢◌, String, false, Option, some, first, ◌==◌, nat_eq, Option-cases, inl, inr, nat_eqb-ne,
}
use assistant_audit.Errors.{not_found, err}
use assistant_audit.Compliance.{ControlResult}
use assistant_audit.Compliance.Float.{Float}
use assistant_audit.Campaign.Rows.{Audit, Campaign, Assessment, Db, CampaignUpdate}
use assistant_audit.Campaign.Service.{
  check_audit_access, check_campaign_access, check_assessment_access, load_campaign,
  create_campaign, get_campaign, start_campaign, complete_campaign, update_campaign,
}
use assistant_audit.Campaign.Results.{
  delete_campaign, create_assessment, get_assessment, delete_assessment, get_assessment_score,
  get_campaign_score, update_control_result, ResultUpdate,
}

-- The audit is not there, or belongs to somebody else.
abbrev pub IsForeign : Db → ℕ → ℕ → Type 0
IsForeign db audit_id u =
    (a : Audit) → first (λ x. x.id == audit_id) db.audits ≡ some a → a.owner_id ≢ u

check_audit_access-IsForeign :
    (db : Db) (audit_id u : ℕ)
    → IsForeign db audit_id u
    → check_audit_access db audit_id (some u) false ≡ err not_found
unfolding check_audit_access
check_audit_access-IsForeign db audit_id u h =
    elim (Option-cases (first (λ x. x.id == audit_id) db.audits)) [
      | inl e ↦ rw e
      | inr (a, e) ↦ rw (e, nat_eqb-ne a.owner_id u (h a e))
    ]

module _ (f : Float) (db : Db) (u : ℕ) where
  -- For a user who does not own the audit of a campaign and is no administrator, reading, starting,
  -- completing, updating, deleting and scoring that campaign and creating an assessment in it raise
  -- "not found", and so does the creation of a campaign in that audit.
  pub campaign-IsForeign :
      (campaign_id : ℕ) {c : Campaign}
      → first (λ x. x.id == campaign_id) db.campaigns ≡ some c
      → IsForeign db c.audit_id u
      → (new_id first_id now e fw : ℕ) (name : String) (d by : Option String)
        (body : CampaignUpdate)
      → (create_campaign db new_id name c.audit_id d (some u) false ≡ err not_found)
        × (get_campaign db campaign_id (some u) false ≡ err not_found)
        × (start_campaign db now campaign_id (some u) false ≡ err not_found)
        × (complete_campaign f db now campaign_id (some u) false ≡ err not_found)
        × (update_campaign f db now campaign_id body (some u) false ≡ err not_found)
        × (delete_campaign db campaign_id (some u) false ≡ err not_found)
        × (create_assessment db new_id first_id campaign_id e fw by (some u) false ≡ err not_found)
        × (get_campaign_score f db campaign_id (some u) false ≡ err not_found)
  campaign-IsForeign campaign_id {c} found foreign new_id first_id now e fw name d by body =
      let denied = check_audit_access-IsForeign db c.audit_id u foreign in
      let campaign : check_campaign_access db c (some u) false ≡ err not_found =
        unfold check_campaign_access in denied in
      let loaded : load_campaign db campaign_id (some u) false ≡ err not_found =
        unfold load_campaign in rw (found, campaign) in
      (
        (unfold create_campaign in rw denied),
        (unfold get_campaign in rw (found, get_campaign, campaign)),
        (unfold start_campaign in rw loaded),
        (unfold complete_campaign in rw loaded),
        (unfold update_campaign in rw loaded),
        (unfold delete_campaign in rw loaded),
        (unfold create_assessment in rw loaded),
        (unfold get_campaign_score in rw (found, get_campaign_score, campaign)),
      )

  -- For a user who does not own the audit of an assessment and is no administrator, reading,
  -- deleting and scoring the assessment and updating a single control result of it raise
  -- "not found".
  pub assessment-IsForeign :
      (result_id : ℕ) {r : ControlResult} {a : Assessment} {c : Campaign}
      → first (λ x. x.id == result_id) db.results ≡ some r
      → first (λ x. x.id == r.assessment_id) db.assessments ≡ some a
      → first (λ x. x.id == a.campaign_id) db.campaigns ≡ some c
      → IsForeign db c.audit_id u
      → (now : ℕ) (body : ResultUpdate) (by : Option String)
      → (get_assessment db r.assessment_id (some u) false ≡ err not_found)
        × (delete_assessment db r.assessment_id (some u) false ≡ err not_found)
        × (get_assessment_score f db r.assessment_id (some u) false ≡ err not_found)
        × (update_control_result db now result_id body by (some u) false ≡ err not_found)
  assessment-IsForeign result_id {r} {a} {c} result found owned foreign now body by =
      let denied = check_audit_access-IsForeign db c.audit_id u foreign in
      let access : check_assessment_access db a (some u) false ≡ err not_found =
        unfold check_assessment_access check_campaign_access in rw (owned, denied) in
      (
        (unfold get_assessment in rw (found, get_assessment, access)),
        (unfold delete_assessment in rw (found, access)),
        (unfold get_assessment_score in rw (found, get_assessment_score, access)),
        (unfold update_control_result in rw (result, found, update_control_result, access)),
      )
