-- ===== src/Compliance/Score/Range.antt =====
-- The compliance score lies between 0 and 100 and is there exactly when something was assessed.
use assistant_audit.Prelude.{
  ℕ, ◌+◌, ◌≤◌, ◌<◌, ◌≡◌, ◌↔◌, none, some, List, length, arith, subst, ltb, ltb→lt, Bool, true,
  if◌then◌else◌,
}
use assistant_audit.Compliance.{not_applicable, not_assessed, ControlResult}
use assistant_audit.Compliance.Float.{Float, exact}
use assistant_audit.Compliance.Score.{compute_score}
use assistant_audit.Compliance.Score.Counted.{count_status, compute_score-partition}

-- No score is computed exactly when every result is "not assessed" or "not applicable".
pub compute_score-none :
    (f : Float) (results : List ControlResult)
    → ((compute_score f results).compliance_score ≡ none)
      ↔ (length results ≡ count_status not_assessed results + count_status not_applicable results)
unfolding compute_score
compute_score-none f results = ground (arith, compute_score-partition f results)

if_some :
    {A : Type 0} {v x : A} (b : Bool) → (if b then some v else none) ≡ some x → (b ≡ true) × (v ≡ x)
if_some b h = ground arith

module _ (f : Float) where
  open f use {F, le, of_ℕ, half, add, mul, div, round_1}

  abbrev ratio : ℕ → ℕ → ℕ → F
  ratio c p n = div (add (of_ℕ c) (mul half (of_ℕ p))) (of_ℕ n)

  -- `round((c + 0.5 * p) / n * 100, 1)` for c + p of n assessed controls.
  rounded_bounds :
      (c p n : ℕ)
      → c + p ≤ n
      → 0 < n
      → n < exact
      → let x = round_1 (mul (ratio c p n) (of_ℕ 100)) in le (of_ℕ 0) x × le x (of_ℕ 100)
  rounded_bounds c p n h pos small =
      let nonneg = f.mul_hundred_nonneg (ratio c p n) (
        f.div_nonneg (add (of_ℕ c) (mul half (of_ℕ p))) n pos small (
          f.add_nonneg (of_ℕ c) (mul half (of_ℕ p)) (f.le-of_ℕ 0 c (omega arith) (omega arith))
            (f.half_of_nonneg p (omega arith)))) in
      let below = f.mul_hundred_le (ratio c p n) (
        f.div_le_one (add (of_ℕ c) (mul half (of_ℕ p))) n pos small (
          f.le_trans (add (of_ℕ c) (mul half (of_ℕ p))) (of_ℕ (c + p)) (of_ℕ n)
            (f.add_half_le c p (omega arith)) (f.le-of_ℕ (c + p) n h small))) in
      (
        subst (λ z. le z (round_1 (mul (ratio c p n) (of_ℕ 100)))) (f.round_int 0 (omega arith))
            (f.round_mono (of_ℕ 0) (mul (ratio c p n) (of_ℕ 100)) nonneg),
        subst (λ z. le (round_1 (mul (ratio c p n) (of_ℕ 100))) z) (f.round_int 100 (omega arith))
            (f.round_mono (mul (ratio c p n) (of_ℕ 100)) (of_ℕ 100) below),
      )

  -- A computed score lies between 0 and 100, for fewer results than 2 ^ 53.
  pub compute_score-range :
      (results : List ControlResult)
      → length results < exact
      → (x : F) → (compute_score f results).compliance_score ≡ some x
      → le (of_ℕ 0) x × le x (of_ℕ 100)
  unfolding compute_score
  compute_score-range results small x h =
      let s = compute_score f results in
      let p = compute_score-partition f results in
      let (counted, same) = if_some (ltb 0 s.assessed_controls) h in
      subst (λ z. le (of_ℕ 0) z × le z (of_ℕ 100)) same
        (rounded_bounds s.counts.compliant s.counts.partially_compliant s.assessed_controls
          (omega (arith, p)) (ltb→lt 0 s.assessed_controls counted) (omega (arith, p)))
