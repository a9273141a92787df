-- ===== src/Finding/Lifecycle.antt =====
-- The life of a finding: which changes of status are made, and what the history says of them.
use assistant_audit.Prelude.{
  ℕ, ◌≡◌, inl, inr, refl, String, Bool, true, false, Option, some, List, [], ◌∷◌, ◌++◌, select,
  contains, override, ◌==◌, nat_eq, arith, if◌then◌else◌, Bool-cases, Option-cases, sym, subst, ◌∙◌,
  first-update_inv, first-satisfies, nat_eqb_iff, some-eq, select-snoc, ap, ==-ne,
}
use assistant_audit.Errors.{Returns, IfReturns}
use assistant_audit.Finding.Rows.{
  FindingStatus, opened, assigned, in_progress, remediated, verified, closed, finding_status_eq,
  parse_status, valid_transitions, Finding, FindingStatusHistory, FindingDb,
}
use assistant_audit.Finding.Service.{update_status, get_finding}

-- The life cycle, arrow by arrow.
infix 40 ◌⟶◌
pub data ◌⟶◌ : FindingStatus → FindingStatus → Type 0 where
  assign : opened ⟶ assigned
  dismiss : opened ⟶ closed
  begin : assigned ⟶ in_progress
  unassign : assigned ⟶ opened
  remediate : in_progress ⟶ remediated
  hand_back : in_progress ⟶ assigned
  verify : remediated ⟶ verified
  rework : remediated ⟶ in_progress
  close : verified ⟶ closed
  reject : verified ⟶ opened
  reopen : closed ⟶ opened

ruleset arrows =
    (assign, dismiss, begin, unassign, remediate, hand_back, verify, rework, close, reject, reopen)

-- The table of transitions is the life cycle.
transition-arrow : (s t : FindingStatus) → contains t (valid_transitions s) ≡ true → s ⟶ t
unfolding valid_transitions
transition-arrow s t h = grind (arith, arrows)

arrow-transition : {s t : FindingStatus} → s ⟶ t → contains t (valid_transitions s) ≡ true
unfolding valid_transitions
arrow-transition assign = refl
arrow-transition dismiss = refl
arrow-transition begin = refl
arrow-transition unassign = refl
arrow-transition remediate = refl
arrow-transition hand_back = refl
arrow-transition verify = refl
arrow-transition rework = refl
arrow-transition close = refl
arrow-transition reject = refl
arrow-transition reopen = refl

-- A change of status succeeds exactly for the name of a status that the life cycle allows next.
pub update_status-ok :
    (db : FindingDb) (now : ℕ) (f : Finding) (text : String) (user : Option ℕ)
    (comment assigned_to : Option String)
    → ((t : FindingStatus)
        → parse_status text ≡ some t
        → f.status ⟶ t
        → Returns (λ p. p.1.status ≡ t) (update_status db now f text user comment assigned_to))
      × IfReturns
          (λ p. (parse_status text ≡ some p.1.status) × (f.status ⟶ p.1.status))
          (update_status db now f text user comment assigned_to)
unfolding update_status
update_status-ok db now f text user comment assigned_to = (
  (λ t named arrow. rw (named, arrow-transition arrow) refl),
  elim (Option-cases (parse_status text)) [
    | inl e ↦ rw e tt
    | inr (t, e) ↦ elim (Bool-cases (contains t (valid_transitions f.status))) [
      | inl allowed ↦ rw (e, allowed) (refl, transition-arrow f.status t allowed)
      | inr refused ↦ rw (e, refused) tt
    ]
  ],
)

-- The entries of the history that concern a finding, in the order of insertion.
abbrev pub history_of : FindingDb → ℕ → List FindingStatusHistory
history_of db k = select (λ h. h.finding_id == k) db.history

-- Each entry starts where the one before it ended, and follows an arrow.
abbrev pub IsTrail : FindingStatus → List FindingStatusHistory → FindingStatus → Type 0
IsTrail s [] t = s ≡ t
IsTrail s (h ∷ hs) t = (h.old_status ≡ s) × (s ⟶ h.new_status) × IsTrail h.new_status hs t

-- The history of every stored finding leads from "open" to its present status.
abbrev pub IsTraced : FindingDb → Type 0
IsTraced db =
    (k : ℕ) (f : Finding) → get_finding db k ≡ some f → IsTrail opened (history_of db k) f.status

IsTrail-append :
    (s : FindingStatus) (hs : List FindingStatusHistory) {t : FindingStatus}
    (h : FindingStatusHistory)
    → IsTrail s hs t
    → h.old_status ≡ t
    → t ⟶ h.new_status
    → IsTrail s (hs ++ h ∷ []) h.new_status
IsTrail-append s [] {t} h end old arrow =
    (old ∙ sym end, subst (λ x. x ⟶ h.new_status) (sym end) arrow, refl)
IsTrail-append s (g ∷ hs) h trail old arrow =
    (trail.0, trail.1, IsTrail-append g.new_status hs h trail.2 old arrow)

-- What becomes of a trail when `f` goes to `t`, for a finding `x` that is found by `j`.
IsTrail-after :
    (db : FindingDb) (j k : ℕ) {f x : Finding} (entry : FindingStatusHistory)
    → IsTraced db
    → get_finding db k ≡ some f
    → get_finding db j ≡ some x
    → entry.finding_id ≡ f.id
    → entry.old_status ≡ f.status
    → f.status ⟶ entry.new_status
    → IsTrail opened
        (select (λ h. h.finding_id == j) (db.history ++ entry ∷ []))
        (if x.id == f.id then entry.new_status else x.status)
IsTrail-after db j k {f} {x} entry traced stored found mine old arrow =
    let xj : x.id ≡ j =
      (nat_eqb_iff x.id j).0 (first-satisfies (λ y. y.id == j) db.findings found) in
    let fk : f.id ≡ k =
      (nat_eqb_iff f.id k).0 (first-satisfies (λ y. y.id == k) db.findings stored) in
    let trail = traced j x found in
    rw select-snoc (elim (Bool-cases (x.id == f.id)) [
      | inl e ↦
          let xf : x.id ≡ f.id = (nat_eqb_iff x.id f.id).0 e in
          let fx : f ≡ x =
            some-eq (subst (λ z. get_finding db z ≡ some f) (sym fk ∙ sym xf ∙ xj) stored) found in
          rw (e, (nat_eqb_iff entry.finding_id j).1 (mine ∙ sym xf ∙ xj))
            (IsTrail-append opened (history_of db j) entry trail
              (old ∙ ap (λ (y : Finding). y.status) fx)
              (subst (λ s. s ⟶ entry.new_status) (ap (λ (y : Finding). y.status) fx) arrow))
      | inr n ↦
          rw
            (
              n,
              ==-ne entry.finding_id j
                  (λ p. false_true n ((nat_eqb_iff x.id f.id).1 (xj ∙ sym p ∙ mine))),
            )
            trail
    ])
  where
    false_true : {b : Bool} → b ≡ false → b ≡ true → ⊥
    false_true n e = cc

status-if :
    (b : Bool) (x y : Finding) {g : Finding}
    → g ≡ (if b then y else x)
    → g.status ≡ (if b then y.status else x.status)
status-if true x y e = ap (λ (z : Finding). z.status) e
status-if false x y e = ap (λ (z : Finding). z.status) e

-- A successful change of status writes the entry that continues the trail of its finding, and
-- leaves every other trail alone.
pub update_status-IsTraced :
    (db : FindingDb) (now k : ℕ) {f : Finding} (text : String) (user : Option ℕ)
    (comment assigned_to : Option String)
    → IsTraced db
    → get_finding db k ≡ some f
    → IfReturns (λ p. IsTraced p.0) (update_status db now f text user comment assigned_to)
unfolding update_status
update_status-IsTraced db now k {f} text user comment assigned_to traced stored =
    elim (Option-cases (parse_status text)) [
      | inl e ↦ rw e tt
      | inr (t, e) ↦ elim (Bool-cases (contains t (valid_transitions f.status))) [
        | inr refused ↦ rw (e, refused) tt
        | inl allowed ↦
            rw (e, allowed)
              (λ j g found.
                let (x, before, after) =
                  first-update_inv (λ y. y.id == j) (λ y. y.id == f.id)
                    (λ y. record y { status = t; assigned_to = override assigned_to y.assigned_to })
                    db.findings g (λ y. refl) found in
                subst (IsTrail opened _) (sym (status-if (x.id == f.id) x _ after)) (
                  IsTrail-after db j k _ traced stored before refl refl
                    (transition-arrow f.status t allowed)))
      ]
    ]
