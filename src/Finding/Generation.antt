-- ===== src/Finding/Generation.antt =====
-- The generation of findings: one for each reported result, and none twice.
use native.Mathlib.Nat.{add-zero, zero-add}
use assistant_audit.Prelude.{
  ℕ, ◌+◌, ◌≤◌, ◌≡◌, refl, String, Bool, true, false, Option, some, List, [], ◌∷◌, ◌++◌, first,
  select, All, length, length-append, select-append, append_assoc, append-nil, ◌==◌, nat_eq, arith,
  if◌then◌else◌, Bool-cases, inl, inr, ◌∙◌, ap, ==-self, All-zip, All-map, All-select,
}
use assistant_audit.Errors.{ok, Returns}
use assistant_audit.Compliance.{ControlResult}
use assistant_audit.Campaign.{Assessment}
use assistant_audit.Finding.Rows.{Finding, FindingDb}
use assistant_audit.Finding.Service.{
  is_reported, is_finding_of, new_finding, Generated, generate_one, generate_loop,
  generate_from_assessment,
}

-- How many findings a result has.
abbrev pub findings_of : ℕ → ControlResult → List Finding → ℕ
findings_of aid r fs = length (select (is_finding_of r aid) fs)

-- The results of a table have different ids.
abbrev pub HaveDistinctIds : List ControlResult → Type 0
HaveDistinctIds [] = Unit
HaveDistinctIds (r ∷ rs) = All (λ x. (r.id == x.id) ≡ false) rs × HaveDistinctIds rs

abbrev is_new : ℕ → List Finding → ControlResult → Bool
is_new aid stored r = findings_of aid r stored == 0

module _ (numbered : ℕ → String) (stored : List Finding) (aid : ℕ) (user : Option ℕ)
    (a : Assessment) where
  -- The findings that the loop adds.
  abbrev added : ℕ → List ControlResult → List Finding
  added k [] = []
  added k (r ∷ rs) =
      if is_new aid stored r
      then new_finding numbered k aid user a r ∷ added (k + 1) rs
      else added k rs

  abbrev after : Generated → List ControlResult → Generated
  after g [] = g
  after g (r ∷ rs) =
      if is_new aid stored r
      then after
          (record {
            findings = g.findings ++ new_finding numbered g.next_id aid user a r ∷ [];
            next_id = g.next_id + 1;
            generated = g.generated + 1;
            skipped = g.skipped;
          })
          rs
      else after (record g { skipped = g.skipped + 1 }) rs

  module _ (assessments : List Assessment)
      (row : first (λ x. x.id == aid) assessments ≡ some a) where
    one_round :
        (r : ControlResult) (g : Generated)
        → r.assessment_id ≡ aid
        → (fs : List Finding) → select (is_finding_of r aid) stored ≡ fs
        → length fs ≤ 1
        → generate_one numbered stored assessments aid user r g
          ≡ ok (
              if length fs == 0
              then record {
                findings = g.findings ++ new_finding numbered g.next_id aid user a r ∷ [];
                next_id = g.next_id + 1;
                generated = g.generated + 1;
                skipped = g.skipped;
              }
              else record g { skipped = g.skipped + 1 })
    unfolding generate_one
    one_round r g mine [] e few = rw (e, mine, row)
    one_round r g mine (x ∷ []) e few = rw e
    one_round r g mine (x ∷ y ∷ fs) e few = absurd (omega arith)

    loop_lem :
        (rs : List ControlResult) (g : Generated)
        → All (λ r. (r.assessment_id ≡ aid) × (findings_of aid r stored ≤ 1)) rs
        → generate_loop numbered stored assessments aid user rs g ≡ ok (after g rs)
    unfolding generate_loop
    loop_lem [] g h = refl
    loop_lem (r ∷ rs) g h =
        rw (one_round r g h.0.0 (select (is_finding_of r aid) stored) refl h.0.1)
          (elim (Bool-cases (is_new aid stored r)) [
            | inl t ↦ rw t (loop_lem rs _ h.1)
            | inr n ↦ rw n (loop_lem rs _ h.1)
          ])

  findings-after :
      (g : Generated) (rs : List ControlResult)
      → (after g rs).findings ≡ g.findings ++ added g.next_id rs
  findings-after g [] = rw append-nil
  findings-after g (r ∷ rs) = elim (Bool-cases (is_new aid stored r)) [
    | inl t ↦
        rw (t, findings-after _ rs)
          (append_assoc g.findings (new_finding numbered g.next_id aid user a r ∷ [])
            (added (g.next_id + 1) rs))
    | inr n ↦ rw n (findings-after (record g { skipped = g.skipped + 1 }) rs)
  ]

  counted-after :
      (g : Generated) (rs : List ControlResult)
      → (after g rs).generated + (after g rs).skipped ≡ g.generated + g.skipped + length rs
  counted-after g [] = omega arith
  counted-after g (r ∷ rs) = elim (Bool-cases (is_new aid stored r)) [
    | inl t ↦ rw t (
        omega (
          arith,
          counted-after
              (record {
                findings = g.findings ++ new_finding numbered g.next_id aid user a r ∷ [];
                next_id = g.next_id + 1;
                generated = g.generated + 1;
                skipped = g.skipped;
              })
              rs,
        ))
    | inr n ↦ rw n (omega (arith, counted-after (record g { skipped = g.skipped + 1 }) rs))
  ]

  -- A finding of `x` counts for the result `r` exactly if the ids agree.
  findings_of-new :
      (k : ℕ) (x r : ControlResult) (fs : List Finding)
      → findings_of aid r (new_finding numbered k aid user a x ∷ fs)
        ≡ (if x.id == r.id then 1 + findings_of aid r fs else findings_of aid r fs)
  unfolding new_finding
  findings_of-new k x r fs = elim (Bool-cases (x.id == r.id)) [
    | inl t ↦ rw (t, ==-self aid) (omega arith)
    | inr n ↦ rw n
  ]

  added-other :
      (k : ℕ) (r : ControlResult) (rs : List ControlResult)
      → All (λ x. (r.id == x.id) ≡ false) rs
      → findings_of aid r (added k rs) ≡ 0
  added-other k r [] h = refl
  added-other k r (x ∷ rs) h = elim (Bool-cases (is_new aid stored x)) [
    | inl t ↦ rw (t, findings_of-new, flip r.id x.id h.0) (added-other (k + 1) r rs h.1)
    | inr n ↦ rw n (added-other k r rs h.1)
  ]
    where
      flip : (m n : ℕ) → (m == n) ≡ false → (n == m) ≡ false
      flip m n h = ground arith

  added-each :
      (k : ℕ) (rs : List ControlResult)
      → HaveDistinctIds rs
      → All (λ r. findings_of aid r (added k rs) ≡ (if is_new aid stored r then 1 else 0)) rs
  added-each k [] h = tt
  added-each k (x ∷ rs) h = elim (Bool-cases (is_new aid stored x)) [
    | inl t ↦ rw t (
      rw (findings_of-new, ==-self x.id) (omega (arith, added-other (k + 1) x rs h.0)),
      All-zip (λ r. (x.id == r.id) ≡ false)
          (λ r. findings_of aid r (added (k + 1) rs) ≡ (if is_new aid stored r then 1 else 0)) _ rs
          (λ r ne e. rw (t, findings_of-new, ne) e) h.0 (added-each (k + 1) rs h.1),
    )
    | inr n ↦ rw n (
      added-other k x rs h.0,
      All-map (λ r. findings_of aid r (added k rs) ≡ (if is_new aid stored r then 1 else 0)) _ rs
          (λ r e. rw n e) (added-each k rs h.1),
    )
  ]

  each_once :
      (k : ℕ) (rs : List ControlResult)
      → HaveDistinctIds rs
      → All (λ r. findings_of aid r stored ≤ 1) rs
      → All (λ r. findings_of aid r (stored ++ added k rs) ≡ 1) rs
  each_once k rs distinct few =
      All-zip (λ r. findings_of aid r stored ≤ 1)
        (λ r. findings_of aid r (added k rs) ≡ (if is_new aid stored r then 1 else 0)) _ rs
        (λ r le e. once r le e) few (added-each k rs distinct)
    where
      once :
          (r : ControlResult)
          → findings_of aid r stored ≤ 1
          → findings_of aid r (added k rs) ≡ (if is_new aid stored r then 1 else 0)
          → findings_of aid r (stored ++ added k rs) ≡ 1
      once r le e = rw (select-append, length-append) (ground arith)

-- Where each result has its finding already, the loop only skips.
All-skipped :
    (numbered : ℕ → String) (stored : List Finding) (aid : ℕ) (user : Option ℕ) (a : Assessment)
    (g : Generated) (rs : List ControlResult)
    → All (λ r. findings_of aid r stored ≡ 1) rs
    → after numbered stored aid user a g rs ≡ record g { skipped = g.skipped + length rs }
All-skipped numbered stored aid user a g [] h = rw add-zero
All-skipped numbered stored aid user a g (r ∷ rs) h = rw h.0 (
    All-skipped numbered stored aid user a (record g { skipped = g.skipped + 1 }) rs h.1
    ∙ ap (λ (n : ℕ). record g { skipped = n }) (omega arith))

reported-mine : (aid : ℕ) (r : ControlResult) → is_reported aid r ≡ true → r.assessment_id ≡ aid
reported-mine aid r h = ground arith

-- Each result reported by an assessment has at most one finding beforehand, and the results have
-- different ids. Then a generation returns; every reported result is either given a finding or
-- skipped, and has exactly one finding afterwards; and a second generation changes nothing and
-- skips them all.
pub generate-idempotent :
    (numbered : ℕ → String) (db : FindingDb) (next_id aid : ℕ) (user : Option ℕ) {a : Assessment}
    → first (λ x. x.id == aid) db.assessments ≡ some a
    → HaveDistinctIds (select (is_reported aid) db.results)
    → All (λ r. findings_of aid r db.findings ≤ 1) (select (is_reported aid) db.results)
    → Returns
        (λ p.
          (p.1 + p.2 ≡ length (select (is_reported aid) db.results))
          × All (λ r. findings_of aid r p.0.findings ≡ 1) (select (is_reported aid) db.results)
          × ((later : ℕ) (other : Option ℕ)
              → generate_from_assessment numbered p.0 later aid other
                ≡ ok (p.0, 0, length (select (is_reported aid) db.results))))
        (generate_from_assessment numbered db next_id aid user)
unfolding generate_from_assessment
generate-idempotent numbered db next_id aid user {a} row distinct few =
    let rs = select (is_reported aid) db.results in
    let start : Generated = record {
      findings = db.findings;
      next_id = next_id;
      generated = 0;
      skipped = 0;
    } in
    let mine =
      All-select (λ r. r.assessment_id ≡ aid) (is_reported aid) db.results
        (λ r e. reported-mine aid r e) in
    let each = each_once numbered db.findings aid user a next_id rs distinct few in
    rw
      (loop_lem numbered db.findings aid user a db.assessments row rs start
        (All-zip (λ r. r.assessment_id ≡ aid) _ _ rs (λ r m le. (m, le)) mine few))
      (
        omega (arith, counted-after numbered db.findings aid user a start rs),
        rw (findings-after numbered db.findings aid user a start rs) each,
        (λ later other.
            let fs = (after numbered db.findings aid user a start rs).findings in
            let full : All (λ r. findings_of aid r fs ≡ 1) rs =
              rw (findings-after numbered db.findings aid user a start rs) each in
            let again : Generated = record {
              findings = fs;
              next_id = later;
              generated = 0;
              skipped = 0;
            } in
            rw (
              loop_lem numbered fs aid other a db.assessments row rs again (
                  All-zip (λ r. r.assessment_id ≡ aid) (λ r. findings_of aid r fs ≡ 1) _ rs
                    (λ r m e. (m, omega arith)) mine full),
              All-skipped numbered fs aid other a again rs full,
              zero-add,
            )),
      )
