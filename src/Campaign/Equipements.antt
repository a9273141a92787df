-- ===== src/Campaign/Equipements.antt =====
-- What starting and completing a campaign does to the audit status of each equipment.
use assistant_audit.Prelude.{
  ℕ, ◌+◌, ◌<◌, ◌≡◌, ◌≢◌, refl, true, ◌&&◌, some, List, [], ◌∷◌, ◌++◌, first, select, update,
  contains, All, ◌==◌, nat_eq, arith, first-update, if◌then◌else◌, map, nat_eqb-ne, nat_eqb_iff,
  lt→ltb, ◌∙◌, sym, ap, ltb,
}
use assistant_audit.Compliance.{ControlResult, compliant, non_compliant, partially_compliant}
use assistant_audit.Compliance.Float.{Float}
use assistant_audit.Compliance.Score.{compute_score}
use assistant_audit.Compliance.Score.Counted.{count_status, compute_score-partition}
use assistant_audit.Campaign.Rows.{
  Equipement, Assessment, Campaign, Db, AuditStatus, a_auditer, en_cours, conforme, non_conforme,
  audit_status_eq,
}
use assistant_audit.Campaign.Service.{
  start_equipements, start, verdict, complete_equipements, complete, assessments_of,
}

-- One equipment under the loop of `start_campaign`.
abbrev begin : List Assessment → Equipement → Equipement
begin [] e = e
begin (a ∷ rest) e = begin rest (
    if e.id == a.equipement_id && e.status_audit == a_auditer
    then record e { status_audit = en_cours }
    else e)

first-start :
    (k : ℕ) (todo : List Assessment) (eqs : List Equipement) {e : Equipement}
    → first (λ x. x.id == k) eqs ≡ some e
    → first (λ x. x.id == k) (start_equipements todo eqs) ≡ some (begin todo e)
unfolding start_equipements
first-start k [] eqs h = h
first-start k (a ∷ rest) eqs {e} h =
    first-start k rest
      (update (λ e. e.id == a.equipement_id && e.status_audit == a_auditer)
        (λ e. record e { status_audit = en_cours }) eqs)
      (first-update (λ x. x.id == k) (λ e. e.id == a.equipement_id && e.status_audit == a_auditer)
        (λ e. record e { status_audit = en_cours }) eqs (λ y. refl) h)

begin-settled :
    (todo : List Assessment) (e : Equipement) → e.status_audit ≢ a_auditer → begin todo e ≡ e
begin-settled [] e h = refl
begin-settled (a ∷ rest) e h = ground (arith, begin-settled rest e h)

begin_lem :
    (todo : List Assessment) (e : Equipement)
    → begin todo e ≡ (
        if contains e.id (map (λ a. a.equipement_id) todo) && e.status_audit == a_auditer
        then record e { status_audit = en_cours }
        else e)
begin_lem [] e = refl
begin_lem (a ∷ rest) e =
    ground (arith, begin_lem rest e, begin-settled rest (record e { status_audit = en_cours }))

-- After `start_campaign` an equipment of the campaign that waited for its audit is "EN_COURS";
-- every other equipment is as it was.
pub start-equipements :
    (db : Db) (now : ℕ) (c : Campaign) (k : ℕ) {e : Equipement}
    → first (λ x. x.id == k) db.equipements ≡ some e
    → first (λ x. x.id == k) (start now c db).0.equipements
      ≡ some (
          if contains e.id (map (λ a. a.equipement_id) (assessments_of db c.id))
            && e.status_audit == a_auditer
          then record e { status_audit = en_cours }
          else e)
unfolding start
start-equipements db now c k {e} h =
    rw (← begin_lem (assessments_of db c.id) e)
      (first-start k (assessments_of db c.id) db.equipements h)

-- The results of an assessment, and how many of them were assessed.
abbrev pub own_results : List ControlResult → Assessment → List ControlResult
own_results results a = select (λ r. r.assessment_id == a.id) results

abbrev pub assessed : List ControlResult → ℕ
assessed rs =
    count_status compliant rs + count_status non_compliant rs + count_status partially_compliant rs

module _ (f : Float) (results : List ControlResult) where
  -- One equipment under one round of the loop of `complete_campaign`, and under all of them.
  abbrev settle_one : Assessment → Equipement → Equipement
  settle_one a e =
      if e.id == a.equipement_id
      then record e {
        status_audit = verdict f (compute_score f (own_results results a)) e.status_audit;
      }
      else e

  abbrev settle : List Assessment → Equipement → Equipement
  settle [] e = e
  settle (a ∷ rest) e = settle rest (settle_one a e)

  first_complete :
      (k : ℕ) (todo : List Assessment) (eqs : List Equipement) {e : Equipement}
      → first (λ x. x.id == k) eqs ≡ some e
      → first (λ x. x.id == k) (complete_equipements f results todo eqs) ≡ some (settle todo e)
  unfolding complete_equipements
  first_complete k [] eqs h = h
  first_complete k (a ∷ rest) eqs {e} h =
      first_complete k rest
        (update (λ e. e.id == a.equipement_id)
          (λ e. record e {
            status_audit = verdict f (compute_score f (own_results results a)) e.status_audit;
          })
          eqs)
        (first-update (λ x. x.id == k) (λ e. e.id == a.equipement_id)
          (λ e. record e {
            status_audit = verdict f (compute_score f (own_results results a)) e.status_audit;
          })
          eqs (λ y. refl) h)

  settle-append :
      (before after : List Assessment) (e : Equipement)
      → settle (before ++ after) e ≡ settle after (settle before e)
  settle-append [] after e = refl
  settle-append (a ∷ rest) after e = settle-append rest after (settle_one a e)

  id-settle : (todo : List Assessment) (e : Equipement) → (settle todo e).id ≡ e.id
  id-settle [] e = refl
  id-settle (a ∷ rest) e = id-settle rest (settle_one a e) ∙ id_one a e
    where
      id_one : (a : Assessment) (e : Equipement) → (settle_one a e).id ≡ e.id
      id_one a e = ground arith

  settle-others :
      (k : ℕ) (todo : List Assessment) (e : Equipement)
      → e.id ≡ k
      → All (λ a. k ≢ a.equipement_id) todo
      → settle todo e ≡ e
  settle-others k [] e same h = refl
  settle-others k (a ∷ rest) e same h =
      rw (nat_eqb-ne e.id a.equipement_id (λ p. h.0 (sym same ∙ p)))
        (settle-others k rest e same h.1)

  verdict_lem :
      (rs : List ControlResult) (old : AuditStatus)
      → verdict f (compute_score f rs) old ≡ (
          if ltb 0 (count_status non_compliant rs)
          then non_conforme
          else if ltb 0 (assessed rs)
          then conforme
          else old)
  unfolding verdict
  verdict_lem rs old = ground (arith, compute_score-partition f rs)

  -- The last assessment of an equipment decides, whatever the assessments before it found.
  settle-last :
      (before after : List Assessment) (a : Assessment) (e : Equipement)
      → e.id ≡ a.equipement_id
      → All (λ b. e.id ≢ b.equipement_id) after
      → (settle (before ++ a ∷ after) e).status_audit
        ≡ verdict f (compute_score f (own_results results a)) (settle before e).status_audit
  settle-last before after a e mine others =
      let e' = settle before e in
      let here : (e'.id == a.equipement_id) ≡ true =
        (nat_eqb_iff e'.id a.equipement_id).1 (id-settle before e ∙ mine) in
      let e'' : Equipement = record e' {
        status_audit = verdict f (compute_score f (own_results results a)) e'.status_audit;
      } in
      let one : settle_one a e' ≡ e'' = rw here in
      ap (λ (x : Equipement). x.status_audit)
        (settle-append before (a ∷ after) e
          ∙ ap (settle after) one
          ∙ settle-others e.id after e'' (id-settle before e) others)

-- When a campaign is completed, the last of its assessments of an equipment decides the audit
-- status of the equipment: NON_CONFORME if it has a non-compliant result, else CONFORME if any of
-- its results was assessed. This holds whatever the earlier assessments of the same equipment
-- found.
pub complete-equipements :
    (f : Float) (db : Db) (now : ℕ) (c : Campaign) (k : ℕ) {e : Equipement}
    → first (λ x. x.id == k) db.equipements ≡ some e
    → (before after : List Assessment) (a : Assessment)
    → assessments_of db c.id ≡ before ++ a ∷ after
    → a.equipement_id ≡ e.id
    → All (λ b. e.id ≢ b.equipement_id) after
    → (e' : Equipement) × (first (λ x. x.id == k) (complete f now c db).0.equipements ≡ some e')
      × (0 < count_status non_compliant (own_results db.results a) → e'.status_audit ≡ non_conforme)
      × (count_status non_compliant (own_results db.results a) ≡ 0
          → 0 < assessed (own_results db.results a)
          → e'.status_audit ≡ conforme)
unfolding complete
complete-equipements f db now c k {e} h before after a split mine others =
    let todo = before ++ a ∷ after in
    let outcome =
      settle-last f db.results before after a e (sym mine) others
      ∙ verdict_lem f db.results (own_results db.results a)
          (settle f db.results before e).status_audit in
    (
      settle f db.results todo e,
      rw split (first_complete f db.results k todo db.equipements h),
      (λ some_bad. outcome ∙ rw (lt→ltb 0 _ some_bad)),
      (λ none_bad some_done.
          outcome ∙ rw (lt→ltb 0 (assessed (own_results db.results a)) some_done, none_bad)),
    )
