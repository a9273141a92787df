-- ===== src/Remediation/Sorting.antt =====
-- The actions of a horizon: sorted, and none lost.
use assistant_audit.Prelude.{
  ℕ, ◌+◌, ◌≤◌, ◌≡◌, refl, List, [], ◌∷◌, leb, leb→le, leb-false, length, select, All, All-map,
  if◌then◌else◌, arith, Bool-cases, inl, inr,
}
use assistant_audit.Compliance.Float.{Float}
use assistant_audit.Remediation.Plan.{
  Horizon, quick_wins, short_term, mid_term, long_term, same_horizon, RemediationAction,
  insert_action, sort_actions,
}

module _ (f : Float) where
  abbrev pub weight : (RemediationAction f → ℕ) → List (RemediationAction f) → ℕ
  weight w [] = 0
  weight w (a ∷ rest) = w a + weight w rest

  abbrev pub IsDescending : List (RemediationAction f) → Type 0
  IsDescending [] = Unit
  IsDescending (a ∷ rest) = All (λ b. b.occurrences ≤ a.occurrences) rest × IsDescending rest

  insert_action-All :
      (P : RemediationAction f → Type 0) (a : RemediationAction f) (bs : List (RemediationAction f))
      → P a
      → All P bs
      → All P (insert_action f a bs)
  unfolding insert_action
  insert_action-All P a [] p h = (p, tt)
  insert_action-All P a (b ∷ rest) p h = elim (Bool-cases (leb b.occurrences a.occurrences)) [
    | inl t ↦ rw t (p, h)
    | inr n ↦ rw n (h.0, insert_action-All P a rest p h.1)
  ]

  insert_action-IsDescending :
      (a : RemediationAction f) (bs : List (RemediationAction f))
      → IsDescending bs
      → IsDescending (insert_action f a bs)
  unfolding insert_action
  insert_action-IsDescending a [] h = (tt, tt)
  insert_action-IsDescending a (b ∷ rest) h = elim (Bool-cases (leb b.occurrences a.occurrences)) [
    | inl t ↦
        let le = leb→le b.occurrences a.occurrences t in
        rw t ((le, All-map _ _ rest (λ c k. omega (arith, k, le)) h.0), h)
    | inr n ↦
        let lt = leb-false b.occurrences a.occurrences n in
        rw n (
          insert_action-All (λ c. c.occurrences ≤ b.occurrences) a rest (omega (arith, lt)) h.0,
          insert_action-IsDescending a rest h.1,
        )
  ]

  weight-insert_action :
      (w : RemediationAction f → ℕ) (a : RemediationAction f) (bs : List (RemediationAction f))
      → weight w (insert_action f a bs) ≡ w a + weight w bs
  unfolding insert_action
  weight-insert_action w a [] = refl
  weight-insert_action w a (b ∷ rest) = elim (Bool-cases (leb b.occurrences a.occurrences)) [
    | inl t ↦ rw t refl
    | inr n ↦ rw n (omega (arith, weight-insert_action w a rest))
  ]

  pub sort_actions-IsDescending :
      (xs : List (RemediationAction f)) → IsDescending (sort_actions f xs)
  unfolding sort_actions
  sort_actions-IsDescending [] = tt
  sort_actions-IsDescending (a ∷ rest) =
      insert_action-IsDescending a (sort_actions f rest) (sort_actions-IsDescending rest)

  pub sort_actions-All :
      (P : RemediationAction f → Type 0) (xs : List (RemediationAction f))
      → All P xs
      → All P (sort_actions f xs)
  unfolding sort_actions
  sort_actions-All P [] h = tt
  sort_actions-All P (a ∷ rest) h =
      insert_action-All P a (sort_actions f rest) h.0 (sort_actions-All P rest h.1)

  pub weight-sort_actions :
      (w : RemediationAction f → ℕ) (xs : List (RemediationAction f))
      → weight w (sort_actions f xs) ≡ weight w xs
  unfolding sort_actions
  weight-sort_actions w [] = refl
  weight-sort_actions w (a ∷ rest) =
      omega (arith, weight-insert_action w a (sort_actions f rest), weight-sort_actions w rest)

  pub weight-length : (xs : List (RemediationAction f)) → length xs ≡ weight (λ a. 1) xs
  weight-length [] = refl
  weight-length (a ∷ rest) = omega (arith, weight-length rest)

  -- The actions of one horizon.
  abbrev pub at_horizon : Horizon → List (RemediationAction f) → List (RemediationAction f)
  at_horizon key xs = select (λ a. same_horizon a.horizon key) xs

  -- One action more, in the list of its horizon.
  partition-step :
      (h : Horizon) (w : RemediationAction f → ℕ) (a : RemediationAction f)
      (q s m l : List (RemediationAction f)) (n : ℕ)
      → weight w q + weight w s + weight w m + weight w l ≡ n
      → weight w (if same_horizon h quick_wins then a ∷ q else q)
          + weight w (if same_horizon h short_term then a ∷ s else s)
          + weight w (if same_horizon h mid_term then a ∷ m else m)
          + weight w (if same_horizon h long_term then a ∷ l else l)
        ≡ w a + n
  partition-step quick_wins w a q s m l n h = omega (arith, h)
  partition-step short_term w a q s m l n h = omega (arith, h)
  partition-step mid_term w a q s m l n h = omega (arith, h)
  partition-step long_term w a q s m l n h = omega (arith, h)

  pub weight-partition :
      (w : RemediationAction f → ℕ) (xs : List (RemediationAction f))
      → weight w (at_horizon quick_wins xs)
          + weight w (at_horizon short_term xs)
          + weight w (at_horizon mid_term xs)
          + weight w (at_horizon long_term xs)
        ≡ weight w xs
  weight-partition w [] = refl
  weight-partition w (a ∷ rest) =
      partition-step a.horizon w a _ _ _ _ (weight w rest) (weight-partition w rest)
