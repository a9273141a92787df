-- ===== src/Remediation/Entries.antt =====
-- The entries of the aggregation count every non-compliant result once, under its control.
use assistant_audit.Prelude.{
  ℕ, suc, ◌+◌, ◌≡◌, refl, sym, ap, ◌∙◌, String, Bool, true, Option, none, some, List, [], ◌∷◌, ◌++◌,
  map, ◌==◌, nat_eq, string_eq, length, count_by, contains, All, length-append, if◌then◌else◌,
  arith, Bool-cases, Option-cases, inl, inr, nat_eqb_iff,
}
use mathlib.Core.List.{map-append}
use assistant_audit.Compliance.{
  ComplianceStatus, not_assessed, compliant, non_compliant, partially_compliant, not_applicable,
  status_eq,
}
use assistant_audit.Compliance.Float.{Float}
use assistant_audit.Remediation.Plan.{
  PlanEquipement, PlanControl, PlanResult, PlanAssessment, PlanCampaign, Aggregate, aggregate,
  failing_control, aggregate_results, aggregate_assessments, aggregate_campaigns,
}

-- Some ids, and after them each of the others once, where it first comes.
abbrev pub uniques : List ℕ → List ℕ → List ℕ
uniques seen [] = seen
uniques seen (n ∷ ns) = uniques (if contains n seen then seen else seen ++ n ∷ []) ns

uniques-append : (seen xs ys : List ℕ) → uniques seen (xs ++ ys) ≡ uniques (uniques seen xs) ys
uniques-append seen [] ys = refl
uniques-append seen (x ∷ xs) ys =
    uniques-append (if contains x seen then seen else seen ++ x ∷ []) xs ys

count_by-append {ℓ} :
    {A : Type ℓ} (p : A → Bool) (xs ys : List A)
    → count_by p (xs ++ ys) ≡ count_by p xs + count_by p ys
count_by-append p [] ys = omega arith
count_by-append p (x ∷ xs) ys = elim (Bool-cases (p x)) [
  | inl t ↦ rw t (omega (arith, count_by-append p xs ys))
  | inr n ↦ rw n (count_by-append p xs ys)
]

All-parts {ℓ κ} :
    {A : Type ℓ} (P : A → Type κ) (xs ys : List A) → All P (xs ++ ys) → All P xs × All P ys
All-parts P [] ys h = (tt, h)
All-parts P (x ∷ xs) ys h = let rest = All-parts P xs ys h.1 in ((h.0, rest.0), rest.1)

==-flip : (a b : ℕ) → (a == b) ≡ (b == a)
==-flip a b = ground arith

module _ (f : Float) where
  abbrev pub cause : ComplianceStatus → Option (PlanControl f) → Option (PlanControl f)
  cause non_compliant control = control
  cause not_assessed control = none
  cause compliant control = none
  cause partially_compliant control = none
  cause not_applicable control = none

  failing_control-cause : (r : PlanResult f) → failing_control f r ≡ cause r.status r.control
  failing_control-cause r = by_status r.status r.control
    where
      by_status :
          (s : ComplianceStatus) (c : Option (PlanControl f))
          → (if s == non_compliant then c else none) ≡ cause s c
      by_status not_assessed c = refl
      by_status compliant c = refl
      by_status non_compliant c = refl
      by_status partially_compliant c = refl
      by_status not_applicable c = refl

  -- The controls of the non-compliant results that have one, a control once for each result.
  abbrev pub controls_in : List (PlanResult f) → List (PlanControl f)
  controls_in [] = []
  controls_in (r ∷ rs) = elim (cause r.status r.control) [
    | none ↦ controls_in rs
    | some c ↦ c ∷ controls_in rs
  ]

  abbrev pub controls_under : List (PlanAssessment f) → List (PlanControl f)
  controls_under [] = []
  controls_under (a ∷ rest) = controls_in a.results ++ controls_under rest

  abbrev pub failing_controls : List (PlanCampaign f) → List (PlanControl f)
  failing_controls [] = []
  failing_controls (c ∷ rest) = controls_under c.assessments ++ failing_controls rest

  -- The references of some controls are those of a table.
  abbrev pub IsReferenced : (ℕ → String) → List (PlanControl f) → Type 0
  IsReferenced ref cs = All (λ c. c.ref_id ≡ ref c.id) cs

  abbrev pub total_count : List (Aggregate f) → ℕ
  total_count [] = 0
  total_count (a ∷ rest) = a.count + total_count rest

  abbrev pub count_of : String → List (Aggregate f) → ℕ
  count_of s [] = 0
  count_of s (a ∷ rest) = (if a.control.ref_id == s then a.count else 0) + count_of s rest

  abbrev pub entry_ids : List (Aggregate f) → List ℕ
  entry_ids entries = map (λ a. a.control.id) entries

  abbrev pub IsKnown : (ℕ → String) → List (Aggregate f) → Type 0
  IsKnown ref entries = All (λ a. a.control.ref_id ≡ ref a.control.id) entries

  -- What the entries count after some controls more: there is an entry for each, and the counts go
  -- up by their number, in all and for each reference.
  pub record IsAggregate (ref : ℕ → String) (from : List (PlanControl f))
      (old entries : List (Aggregate f)) : Type 0 where
    pub ids : entry_ids entries ≡ uniques (entry_ids old) (map (λ c. c.id) from)
    pub total : total_count entries ≡ length from + total_count old
    pub each :
        (s : String) → count_of s entries ≡ count_by (λ c. c.ref_id == s) from + count_of s old
    pub known : IsKnown ref entries

  nothing-IsAggregate :
      (ref : ℕ → String) (entries : List (Aggregate f))
      → IsKnown ref entries
      → IsAggregate ref [] entries entries
  nothing-IsAggregate ref entries k = record {
    ids = refl;
    total = omega arith;
    each = λ s. omega arith;
    known = k;
  }

  then-IsAggregate :
      (ref : ℕ → String) (xs ys : List (PlanControl f)) {old mid new : List (Aggregate f)}
      → IsAggregate ref xs old mid
      → IsAggregate ref ys mid new
      → IsAggregate ref (xs ++ ys) old new
  then-IsAggregate ref xs ys {old} {mid} {new} h k = record {
    ids =
        k.ids
        ∙ ap (λ l. uniques l (map (λ c. c.id) ys)) h.ids
        ∙ sym (uniques-append (entry_ids old) (map (λ c. c.id) xs) (map (λ c. c.id) ys))
        ∙ ap (uniques (entry_ids old)) (sym (map-append (λ c. c.id) xs ys));
    total = omega (arith, h.total, k.total, length-append xs ys);
    each = λ s. omega (arith, h.each s, k.each s, count_by-append (λ c. c.ref_id == s) xs ys);
    known = k.known;
  }

  entry_ids-aggregate :
      (eq : Option PlanEquipement) (c : PlanControl f) (entries : List (Aggregate f))
      → entry_ids (aggregate f eq c entries) ≡ (
          if contains c.id (entry_ids entries)
          then entry_ids entries
          else entry_ids entries ++ c.id ∷ [])
  unfolding aggregate
  entry_ids-aggregate eq c [] = refl
  entry_ids-aggregate eq c (a ∷ rest) = elim (Bool-cases (a.control.id == c.id)) [
    | inl t ↦ rw (==-flip c.id a.control.id, t) refl
    | inr n ↦
        rw (==-flip c.id a.control.id, n)
          (elim (Bool-cases (contains c.id (entry_ids rest))) [
            | inl y ↦ rw y (ap (◌∷◌ a.control.id) (rw y at (entry_ids-aggregate eq c rest)))
            | inr o ↦ rw o (ap (◌∷◌ a.control.id) (rw o at (entry_ids-aggregate eq c rest)))
          ])
  ]

  total_count-aggregate :
      (eq : Option PlanEquipement) (c : PlanControl f) (entries : List (Aggregate f))
      → total_count (aggregate f eq c entries) ≡ suc (total_count entries)
  unfolding aggregate
  total_count-aggregate eq c [] = refl
  total_count-aggregate eq c (a ∷ rest) = elim (Bool-cases (a.control.id == c.id)) [
    | inl t ↦ rw t (omega arith)
    | inr n ↦ rw n (omega (arith, total_count-aggregate eq c rest))
  ]

  module _ (ref : ℕ → String) (eq : Option PlanEquipement) (c : PlanControl f)
      (own : c.ref_id ≡ ref c.id) where
    same_ref :
        (a : Aggregate f)
        → a.control.ref_id ≡ ref a.control.id
        → (a.control.id == c.id) ≡ true
        → a.control.ref_id ≡ c.ref_id
    same_ref a k t = k ∙ ap ref ((nat_eqb_iff a.control.id c.id).0 t) ∙ sym own

    count_of-aggregate :
        (s : String) (entries : List (Aggregate f))
        → IsKnown ref entries
        → count_of s (aggregate f eq c entries)
          ≡ count_by (λ x. x.ref_id == s) (c ∷ []) + count_of s entries
    unfolding aggregate
    count_of-aggregate s [] k = elim (Bool-cases (c.ref_id == s)) [
      | inl t ↦ rw t refl
      | inr n ↦ rw n refl
    ]
    count_of-aggregate s (a ∷ rest) k = elim (Bool-cases (a.control.id == c.id)) [
      | inl t ↦
          rw (t, same_ref a k.0 t)
            (elim (Bool-cases (c.ref_id == s)) [
              | inl y ↦ rw y (omega arith)
              | inr n ↦ rw n (omega arith)
            ])
      | inr n ↦ rw n (omega (arith, count_of-aggregate s rest k.1))
    ]

    aggregate-IsKnown :
        (entries : List (Aggregate f))
        → IsKnown ref entries
        → IsKnown ref (aggregate f eq c entries)
    unfolding aggregate
    aggregate-IsKnown [] k = (own, tt)
    aggregate-IsKnown (a ∷ rest) k = elim (Bool-cases (a.control.id == c.id)) [
      | inl t ↦ rw t (k.0, k.1)
      | inr n ↦ rw n (k.0, aggregate-IsKnown rest k.1)
    ]

    aggregate-IsAggregate :
        (entries : List (Aggregate f))
        → IsKnown ref entries
        → IsAggregate ref (c ∷ []) entries (aggregate f eq c entries)
    aggregate-IsAggregate entries k = record {
      ids = entry_ids-aggregate eq c entries;
      total = omega (arith, total_count-aggregate eq c entries);
      each = λ s. count_of-aggregate s entries k;
      known = aggregate-IsKnown entries k;
    }

  results-IsAggregate :
      (ref : ℕ → String) (eq : Option PlanEquipement) (rs : List (PlanResult f))
      (entries : List (Aggregate f))
      → IsReferenced ref (controls_in rs)
      → IsKnown ref entries
      → IsAggregate ref (controls_in rs) entries (aggregate_results f eq rs entries)
  unfolding aggregate_results
  results-IsAggregate ref eq [] entries h k = nothing-IsAggregate ref entries k
  results-IsAggregate ref eq (r ∷ rs) entries h k = elim (Option-cases (failing_control f r)) [
    | inl n ↦
        let n' = sym (failing_control-cause r) ∙ n in
        rw (n, aggregate_results, n', controls_in)
          (results-IsAggregate ref eq rs entries (rw (n', controls_in) at h) k)
    | inr (c, e) ↦
        let e' = sym (failing_control-cause r) ∙ e in
        let own = rw (e', controls_in) at h in
        let one = aggregate-IsAggregate ref eq c own.0 entries k in
        rw (e, aggregate_results, e', controls_in)
          (then-IsAggregate ref (c ∷ []) (controls_in rs) one
            (results-IsAggregate ref eq rs _ own.1 one.known))
  ]

  assessments-IsAggregate :
      (ref : ℕ → String) (xs : List (PlanAssessment f)) (entries : List (Aggregate f))
      → IsReferenced ref (controls_under xs)
      → IsKnown ref entries
      → IsAggregate ref (controls_under xs) entries (aggregate_assessments f xs entries)
  unfolding aggregate_assessments
  assessments-IsAggregate ref [] entries h k = nothing-IsAggregate ref entries k
  assessments-IsAggregate ref (a ∷ rest) entries h k =
      let parts = All-parts (λ c. c.ref_id ≡ ref c.id) (controls_in a.results) _ h in
      let one = results-IsAggregate ref a.equipement a.results entries parts.0 k in
      then-IsAggregate ref (controls_in a.results) (controls_under rest) one
        (assessments-IsAggregate ref rest _ parts.1 one.known)

  pub campaigns-IsAggregate :
      (ref : ℕ → String) (cs : List (PlanCampaign f)) (entries : List (Aggregate f))
      → IsReferenced ref (failing_controls cs)
      → IsKnown ref entries
      → IsAggregate ref (failing_controls cs) entries (aggregate_campaigns f cs entries)
  unfolding aggregate_campaigns
  campaigns-IsAggregate ref [] entries h k = nothing-IsAggregate ref entries k
  campaigns-IsAggregate ref (c ∷ rest) entries h k =
      let parts = All-parts (λ c. c.ref_id ≡ ref c.id) (controls_under c.assessments) _ h in
      let one = assessments-IsAggregate ref c.assessments entries parts.0 k in
      then-IsAggregate ref (controls_under c.assessments) (failing_controls rest) one
        (campaigns-IsAggregate ref rest _ parts.1 one.known)
