-- ===== src/Prelude/Tables.antt =====
-- Lemmas on the reads and writes of tables.
use Prim.Native.Nat.{suc, ◌+◌}
use mathlib.Core.Path.{◌≡◌, refl, ap}
use mathlib.Core.Bool.{Bool, true, false, ◌&&◌}
use mathlib.Core.Logic.{inl, inr}
use mathlib.Core.List.{List, [], ◌∷◌, ◌++◌}
use mathlib.Core.Option.{some, none}
use native.Mathlib.Omega.{arith}
use assistant_audit.Prelude.Tests.{Bool-cases, &&-false}
use assistant_audit.Prelude.Lists.{length, select, first, update, delete, count_by, All}

module _ {ℓ} {A : Type ℓ} where
  pub first-All : (p : A → Bool) (xs : List A) → All (λ x. p x ≡ false) xs → first p xs ≡ none
  first-All p [] h = refl
  first-All p (x ∷ xs) h = rw h.0 (first-All p xs h.1)

  pub first-snoc :
      (p : A → Bool) (xs : List A) (x : A)
      → All (λ y. p y ≡ false) xs
      → p x ≡ true
      → first p (xs ++ x ∷ []) ≡ some x
  first-snoc p [] x h t = rw t refl
  first-snoc p (y ∷ ys) x h t = rw h.0 (first-snoc p ys x h.1 t)

  -- After a write: what it makes of the rows it takes, and what held of the others.
  pub All-written_or_not {κ} :
      (P : A → Type κ) (p : A → Bool) (f : A → A) (xs : List A)
      → ((x : A) → p x ≡ true → P (f x))
      → All (λ x. p x ≡ false → P x) xs
      → All P (update p f xs)
  All-written_or_not P p f [] made h = tt
  All-written_or_not P p f (x ∷ xs) made h = elim (Bool-cases (p x)) [
    | inl t ↦ rw t (made x t, All-written_or_not P p f xs made h.1)
    | inr n ↦ rw n (h.0 n, All-written_or_not P p f xs made h.1)
  ]

  pub length-update : (p : A → Bool) (f : A → A) (xs : List A) → length (update p f xs) ≡ length xs
  length-update p f [] = refl
  length-update p f (x ∷ xs) = ap suc (length-update p f xs)

  -- A write that turns the rows it takes into ones that a count takes, and had not taken.
  pub count_by-update :
      (q p : A → Bool) (f : A → A) (xs : List A)
      → ((x : A) → p x ≡ true → (q x ≡ false) × (q (f x) ≡ true))
      → count_by q (update p f xs) ≡ count_by q xs + length (select p xs)
  count_by-update q p f [] h = refl
  count_by-update q p f (x ∷ xs) h = elim (Bool-cases (p x)) [
    | inl t ↦ let both = h x t in rw (t, both.0, both.1) (omega (arith, count_by-update q p f xs h))
    | inr n ↦ elim (Bool-cases (q x)) [
      | inl u ↦ rw (n, u) (omega (arith, count_by-update q p f xs h))
      | inr u ↦ rw (n, u) (count_by-update q p f xs h)
    ]
  ]

  pub All-always {κ} : (P : A → Type κ) (xs : List A) → ((a : A) → P a) → All P xs
  All-always P [] h = tt
  All-always P (x ∷ xs) h = (h x, All-always P xs h)

  -- A query of a query.
  pub first-select :
      (p q : A → Bool) (xs : List A) → first p (select q xs) ≡ first (λ x. p x && q x) xs
  first-select p q [] = refl
  first-select p q (x ∷ xs) = elim (Bool-cases (q x)) [
    | inl t ↦ elim (Bool-cases (p x)) [
      | inl u ↦ rw (t, u) refl
      | inr m ↦ rw (t, m, first-select p q xs) refl
    ]
    | inr n ↦ rw (n, &&-false (p x), first-select p q xs) refl
  ]

  -- A row that is found is found in a longer table.
  pub first-append :
      (p : A → Bool) (xs ys : List A) {a : A} → first p xs ≡ some a → first p (xs ++ ys) ≡ some a
  first-append p [] ys h = cc
  first-append p (x ∷ xs) ys {a} h = elim (Bool-cases (p x)) [
    | inl t ↦ rw t (rw t at h)
    | inr n ↦ rw n (first-append p xs ys (rw n at h))
  ]

  -- What a query does not take may be deleted.
  pub first-delete :
      (q p : A → Bool) (xs : List A)
      → ((x : A) → q x ≡ true → p x ≡ false)
      → first q (delete p xs) ≡ first q xs
  first-delete q p [] apart = refl
  first-delete q p (x ∷ xs) apart = elim (Bool-cases (q x)) [
    | inl t ↦ rw (apart x t, t) refl
    | inr n ↦ elim (Bool-cases (p x)) [
      | inl u ↦ rw (n, u) (first-delete q p xs apart)
      | inr m ↦ rw (m, n) (first-delete q p xs apart)
    ]
  ]

  -- A write that takes no row.
  pub update-none :
      (p : A → Bool) (f : A → A) (xs : List A) → All (λ x. p x ≡ false) xs → update p f xs ≡ xs
  update-none p f [] h = refl
  update-none p f (x ∷ xs) h = rw h.0 (ap (◌∷◌ x) (update-none p f xs h.1))

  -- A test that follows from a query's adds nothing to it.
  pub first-and :
      (p q : A → Bool) (xs : List A)
      → ((x : A) → p x ≡ true → q x ≡ true)
      → first (λ x. p x && q x) xs ≡ first p xs
  first-and p q [] h = refl
  first-and p q (x ∷ xs) h = elim (Bool-cases (p x)) [
    | inl t ↦ rw (t, h x t) refl
    | inr n ↦ rw n (first-and p q xs h)
  ]

  pub delete-none : (p : A → Bool) (xs : List A) → All (λ x. p x ≡ false) xs → delete p xs ≡ xs
  delete-none p [] h = refl
  delete-none p (x ∷ xs) h = rw h.0 (ap (◌∷◌ x) (delete-none p xs h.1))

  pub delete-snoc :
      (p : A → Bool) (xs : List A) (x : A)
      → All (λ y. p y ≡ false) xs
      → p x ≡ true
      → delete p (xs ++ x ∷ []) ≡ xs
  delete-snoc p [] x h t = rw t refl
  delete-snoc p (y ∷ ys) x h t = rw h.0 (ap (◌∷◌ y) (delete-snoc p ys x h.1 t))
