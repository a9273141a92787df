-- ===== src/Campaign/Editing.antt =====
-- `update_campaign`: which of the fields that a request sets a reader finds afterwards.
use assistant_audit.Prelude.{
  ℕ, ◌≡◌, refl, sym, ap, ◌∙◌, subst, String, Bool, true, false, not, Option, none, some, List,
  first, update, ◌==◌, nat_eq, nat_eqb_iff, first-satisfies, first-update_own, if◌then◌else◌, arith,
  Bool-cases, inl, inr,
}
use assistant_audit.Errors.{ok, Returns}
use assistant_audit.Compliance.Float.{Float}
use assistant_audit.Campaign.Rows.{
  Campaign, CampaignStatus, draft, in_progress, review, completed, archived, Equipement,
  campaign_status_eq, Db, CampaignUpdate,
}
use assistant_audit.Campaign.Service.{
  check_audit_access, check_campaign_access, load_campaign, get_campaign, start_campaign, start,
  complete_campaign, complete, edit, update_campaign,
}

-- A campaign that a caller may load is there, and the caller has access to it.
load-facts :
    (db : Db) (k : ℕ) (user : Option ℕ) (admin : Bool) {c : Campaign}
    → load_campaign db k user admin ≡ ok c
    → (first (λ x. x.id == k) db.campaigns ≡ some c)
      × (check_campaign_access db c user admin ≡ ok tt)
unfolding load_campaign
load-facts db k user admin h = ground arith

-- It is found again by a call from inside the backend.
load_campaign-internal :
    (db : Db) (k : ℕ) (user : Option ℕ) (admin : Bool) {c : Campaign}
    → load_campaign db k user admin ≡ ok c
    → load_campaign db k none false ≡ ok c
unfolding load_campaign
load_campaign-internal db k user admin h = ground arith

-- The tables after a write to a campaign and to the equipments.
abbrev written : (Campaign → Campaign) → Campaign → List Equipement → Db → Db
written g c eqs db = record db {
  campaigns = update (λ x. x.id == c.id) g db.campaigns;
  equipements = eqs;
}

-- A write leaves the audits, and with them who may do what.
check_audit_access-written :
    (db : Db) (g : Campaign → Campaign) (c : Campaign) (eqs : List Equipement) (audit_id : ℕ)
    (user : Option ℕ) (admin : Bool)
    → check_audit_access (written g c eqs db) audit_id user admin
      ≡ check_audit_access db audit_id user admin
unfolding check_audit_access
check_audit_access-written db g c eqs audit_id user true = refl
check_audit_access-written db g c eqs audit_id none false = refl
check_audit_access-written db g c eqs audit_id (some u) false = refl

check_campaign_access-written :
    (db : Db) (g : Campaign → Campaign) (c : Campaign) (eqs : List Equipement) (user : Option ℕ)
    (admin : Bool)
    → (g c).audit_id ≡ c.audit_id
    → check_campaign_access (written g c eqs db) (g c) user admin
      ≡ check_campaign_access db c user admin
unfolding check_campaign_access
check_campaign_access-written db g c eqs user admin same =
    check_audit_access-written db g c eqs (g c).audit_id user admin
    ∙ ap (λ n. check_audit_access db n user admin) same

get_campaign-written :
    (db : Db) (k : ℕ) (user : Option ℕ) (admin : Bool) (g : Campaign → Campaign)
    (eqs : List Equipement) {c : Campaign}
    → load_campaign db k user admin ≡ ok c
    → ((y : Campaign) → (y.id == k) ≡ true → ((g y).id == k) ≡ true)
    → (g c).audit_id ≡ c.audit_id
    → get_campaign (written g c eqs db) k user admin ≡ ok (some (g c))
unfolding get_campaign
get_campaign-written db k user admin g eqs {c} h keep same =
    let (found, access) = load-facts db k user admin h in
    let own : c.id ≡ k =
      (nat_eqb_iff c.id k).0 (first-satisfies (λ x. x.id == k) db.campaigns found) in
    let stored : first (λ x. x.id == k) (update (λ x. x.id == c.id) g db.campaigns) ≡ some (g c) =
      subst (λ n. first (λ x. x.id == k) (update (λ x. x.id == n) g db.campaigns) ≡ some (g c))
        (sym own) (first-update_own (λ x. x.id == k) g db.campaigns keep found) in
    let seen : check_campaign_access (written g c eqs db) (g c) user admin ≡ ok tt =
      check_campaign_access-written db g c eqs user admin same ∙ access in
    rw (stored, get_campaign, seen) refl

-- Whether a request for a status goes to the method made for it.
abbrev pub moves : CampaignStatus → CampaignStatus → Bool
moves draft old = false
moves in_progress old = not (old == in_progress)
moves review old = false
moves completed old = not (old == completed)
moves archived old = false

module _ (f : Float) (db : Db) (now k : ℕ) (n : String) (d : Option String) (user : Option ℕ)
    (admin : Bool) {c : Campaign} (seen : load_campaign db k user admin ≡ ok c) where
  -- What a reader finds after the request for a status.
  abbrev pub IsEdited : CampaignStatus → Db × Campaign → Type 0
  IsEdited s p =
      (get_campaign p.0 k user admin ≡ ok (some p.1))
      × (p.1.status ≡ s)
      × (p.1.name ≡ (if moves s c.status then c.name else n))
      × (p.1.description ≡ (if moves s c.status then c.description else d))
      × (p.1.id ≡ c.id)
      × (p.1.audit_id ≡ c.audit_id)

  abbrev pub request : CampaignStatus → CampaignUpdate
  request s = record { name = some (some n); description = some d; status = some (some s) }

  edit-IsEdited :
      (s : CampaignStatus)
      → moves s c.status ≡ false
      → Returns (IsEdited s) (edit f (request s) c db)
  unfolding edit
  edit-IsEdited s stays = rw stays (
    get_campaign-written db k user admin (λ _. record c { name = n; description = d; status = s })
        db.equipements seen
        (λ _ _. first-satisfies (λ x. x.id == k) db.campaigns (load-facts db k user admin seen).0)
        refl,
    refl,
    refl,
    refl,
    refl,
    refl,
  )

  start-IsEdited :
      moves in_progress c.status ≡ true → Returns (IsEdited in_progress) (ok (start now c db))
  unfolding start
  start-IsEdited goes = rw goes (
    get_campaign-written db k user admin
        (λ x. record x { status = in_progress; started_at = some now }) _ seen (λ y t. t) refl,
    refl,
    refl,
    refl,
    refl,
    refl,
  )

  complete-IsEdited :
      moves completed c.status ≡ true → Returns (IsEdited completed) (ok (complete f now c db))
  unfolding complete
  complete-IsEdited goes = rw goes (
    get_campaign-written db k user admin
        (λ x. record x { status = completed; completed_at = some now }) _ seen (λ y t. t) refl,
    refl,
    refl,
    refl,
    refl,
    refl,
  )

  again : load_campaign db k none false ≡ ok c
  again = load_campaign-internal db k user admin seen

  -- A request for a name, a description and a status, on a campaign that the caller may load: the
  -- caller reads afterwards what the update returned, which has the status of the request and the
  -- id and the audit of before. Its name and its description are those of the request, but those of
  -- before where the status changes to "in_progress" or to "completed".
  pub get_campaign-update_campaign :
      (s : CampaignStatus)
      → Returns (IsEdited s) (update_campaign f db now k (request s) user admin)
  unfolding update_campaign
  get_campaign-update_campaign draft = rw seen (edit-IsEdited draft refl)
  get_campaign-update_campaign review = rw seen (edit-IsEdited review refl)
  get_campaign-update_campaign archived = rw seen (edit-IsEdited archived refl)
  get_campaign-update_campaign in_progress = elim (Bool-cases (c.status == in_progress)) [
    | inl t ↦ rw (seen, t) (edit-IsEdited in_progress (rw t refl))
    | inr o ↦ rw (seen, o) (unfold start_campaign in rw again (start-IsEdited (rw o refl)))
  ]
  get_campaign-update_campaign completed = elim (Bool-cases (c.status == completed)) [
    | inl t ↦ rw (seen, t) (edit-IsEdited completed (rw t refl))
    | inr o ↦ rw (seen, o) (unfold complete_campaign in rw again (complete-IsEdited (rw o refl)))
  ]
