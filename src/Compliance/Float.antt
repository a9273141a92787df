-- ===== src/Compliance/Float.antt =====
-- The double-precision numbers of the scores. Their arithmetic is the machine's, so it is an
-- interface: the operations that the scoring calls, and the facts of rounded arithmetic that
-- bound a score. Integers are exact below 2 ^ 53. The factors and divisors that the laws are about
-- are integers below that, and a divisor is positive.
use assistant_audit.Prelude.{ℕ, ◌+◌, ◌≤◌, ◌<◌, ◌≡◌}

abbrev pub exact : ℕ
exact = 9007199254740992

pub record Float : Type 1 where
  pub F : Type 0
  pub le : F → F → Type 0
  pub of_ℕ : ℕ → F
  pub half : F
  pub add : F → F → F
  pub mul : F → F → F
  pub div : F → F → F
  -- `round(x, 1)`
  pub round_1 : F → F
  -- `round(x)`
  pub round_0 : F → ℕ
  pub le_trans : (a b c : F) → le a b → le b c → le a c
  pub le-of_ℕ : (m n : ℕ) → m ≤ n → n < exact → le (of_ℕ m) (of_ℕ n)
  pub add_nonneg : (a b : F) → le (of_ℕ 0) a → le (of_ℕ 0) b → le (of_ℕ 0) (add a b)
  pub half_of_nonneg : (n : ℕ) → n < exact → le (of_ℕ 0) (mul half (of_ℕ n))
  pub mul_hundred_nonneg : (a : F) → le (of_ℕ 0) a → le (of_ℕ 0) (mul a (of_ℕ 100))
  pub div_nonneg :
      (a : F) (n : ℕ) → 0 < n → n < exact → le (of_ℕ 0) a → le (of_ℕ 0) (div a (of_ℕ n))
  -- m + 0.5 * n is at most m + n, which is a number of the format, and so is its rounding.
  pub add_half_le : (m n : ℕ) → m + n < exact → le (add (of_ℕ m) (mul half (of_ℕ n))) (of_ℕ (m + n))
  pub div_le_one :
      (a : F) (n : ℕ) → 0 < n → n < exact → le a (of_ℕ n) → le (div a (of_ℕ n)) (of_ℕ 1)
  pub mul_hundred_le : (a : F) → le a (of_ℕ 1) → le (mul a (of_ℕ 100)) (of_ℕ 100)
  pub round_mono : (a b : F) → le a b → le (round_1 a) (round_1 b)
  pub round_int : (n : ℕ) → n < exact → round_1 (of_ℕ n) ≡ of_ℕ n
  pub round_0-mono : (a b : F) → le a b → round_0 a ≤ round_0 b
  pub round_0-of_ℕ : (n : ℕ) → n < exact → round_0 (of_ℕ n) ≡ n
