-- ===== src/Collect/Stored.antt =====
-- What the prefilling of an assessment writes in the table of results.
use assistant_audit.Prelude.{
  ℕ, ◌≡◌, refl, ap, sym, ◌∙◌, subst, String, Bool, true, false, Option, none, some, List, [], ◌∷◌,
  ◌==◌, nat_eq, first, first-update, first-satisfies, nat_eqb_iff, if◌then◌else◌, Bool-cases,
  Option-cases, arith, inl, inr,
}
use assistant_audit.Compliance.{ControlResult, compliant, non_compliant}
use assistant_audit.Collect.Rows.{CheckMapping}
use assistant_audit.Collect.Prefill.{fill, fill_all}

-- The row before and after: as it was where no check is about it, else with the status of the verdict.
abbrev pub IsFilled : Option Bool → ControlResult → ControlResult → Type 0
IsFilled none x y = y ≡ x
IsFilled (some true) x y = y.status ≡ compliant
IsFilled (some false) x y = y.status ≡ non_compliant

module _ (evaluate : String → Bool × String) (result_for : String → Option ControlResult)
    (k : ℕ) where
  abbrev pub is_row : Option ControlResult → Bool
  is_row none = false
  is_row (some r) = r.id == k

  -- The verdict of the last check whose control has the row of that id for a result.
  abbrev pub verdict_on : List CheckMapping → Option Bool
  verdict_on [] = none
  verdict_on (m ∷ ms) = elim (verdict_on ms) [
    | some passed ↦ some passed
    | none ↦ if is_row (result_for m.control_ref) then some (evaluate m.check).0 else none
  ]

  module _ (source assessor : String) (now : ℕ) where
    -- What the table says of a row after some checks.
    abbrev pub Stores : List CheckMapping → ControlResult → List ControlResult → Type 0
    Stores ms x rows =
        (y : ControlResult) × (first (λ z. z.id == k) rows ≡ some y) × IsFilled (verdict_on ms) x y

    fill-IsFilled :
        (m : CheckMapping) (v : Bool × String) (x : ControlResult)
        → IsFilled (some v.0) x (fill source assessor now m v x)
    fill-IsFilled m (true, detail) x = refl
    fill-IsFilled m (false, detail) x = refl

    -- A check more, before the others.
    missed-Stores :
        (m : CheckMapping) (ms : List CheckMapping) (x : ControlResult) (rows : List ControlResult)
        → is_row (result_for m.control_ref) ≡ false
        → Stores ms x rows
        → Stores (m ∷ ms) x rows
    missed-Stores m ms x rows miss h = elim (Option-cases (verdict_on ms)) [
      | inl n ↦ rw (n, miss) (rw n at h)
      | inr (b, e) ↦ rw e (rw e at h)
    ]

    settled : (b : Bool) (x z y : ControlResult) → IsFilled (some b) x y → IsFilled (some b) z y
    settled true x z y h = h
    settled false x z y h = h

    hit-Stores :
        (m : CheckMapping) (ms : List CheckMapping) (x : ControlResult) (rows : List ControlResult)
        → is_row (result_for m.control_ref) ≡ true
        → Stores ms (fill source assessor now m (evaluate m.check) x) rows
        → Stores (m ∷ ms) x rows
    hit-Stores m ms x rows hit (y, found, h) = elim (Option-cases (verdict_on ms)) [
      | inl n ↦ (
        y,
        found,
        rw (n, hit)
            (subst (IsFilled (some (evaluate m.check).0) x) (sym (rw n at h))
              (fill-IsFilled m (evaluate m.check) x)),
      )
      | inr (b, e) ↦ (y, found, rw e (settled b _ x y (rw e at h)))
    ]

    flip : (a b : ℕ) → (a == b) ≡ (b == a)
    flip a b = ground arith

    pub fill_all-Stores :
        (ms : List CheckMapping) (rows : List ControlResult) {x : ControlResult}
        → first (λ z. z.id == k) rows ≡ some x
        → Stores ms x (fill_all evaluate result_for source assessor now ms rows).0
    unfolding fill_all
    fill_all-Stores [] rows {x} found = (x, found, refl)
    fill_all-Stores (m ∷ ms) rows {x} found = elim (Option-cases (result_for m.control_ref)) [
      | inl n ↦
          rw (n, fill_all) (missed-Stores m ms x _ (ap is_row n) (fill_all-Stores ms rows found))
      | inr (r, e) ↦
          let own = (nat_eqb_iff x.id k).0 (first-satisfies (λ z. z.id == k) rows found) in
          let written =
            first-update (λ z. z.id == k) (λ z. z.id == r.id)
              (fill source assessor now m (evaluate m.check)) rows (λ z. refl) found in
          let same = ap (λ n. n == r.id) own ∙ flip k r.id in
          rw (e, fill_all)
            (elim (Bool-cases (r.id == k)) [
              | inl t ↦
                  hit-Stores m ms x _ (ap is_row e ∙ t)
                    (fill_all-Stores ms _ (rw (same ∙ t) at written))
              | inr f ↦
                  missed-Stores m ms x _ (ap is_row e ∙ f)
                    (fill_all-Stores ms _ (rw (same ∙ f) at written))
            ])
    ]
