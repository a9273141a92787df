-- ===== src/Prelude/Distinct.antt =====
-- Tables without two rows of the same key, and how many rows such a table can have.
use Prim.Native.Nat.{suc, ◌≤◌}
use mathlib.Core.Path.{◌≡◌, refl, sym, ◌∙◌, subst}
use mathlib.Core.Bool.{Bool, true, false}
use mathlib.Core.Logic.{◌≢◌, inl, inr}
use mathlib.Core.List.{List, [], ◌∷◌, ◌++◌}
use mathlib.Core.Option.{none, some}
use native.Mathlib.Omega.{arith}
use assistant_audit.Prelude.Tests.{if◌then◌else◌, Bool-cases}
use assistant_audit.Prelude.Lists.{
  length, select, first, first_head, All-first, update, delete, All, All-delete, All-append,
}

module _ {ℓ} {A : Type ℓ} where
  -- No two rows are the same for `same`.
  abbrev pub IsDistinct : (A → A → Bool) → List A → Type 0
  IsDistinct same [] = Unit
  IsDistinct same (x ∷ xs) = All (λ y. same x y ≡ false) xs × IsDistinct same xs

  pub snoc-IsDistinct :
      (same : A → A → Bool) (xs : List A) (x : A)
      → IsDistinct same xs
      → All (λ y. same y x ≡ false) xs
      → IsDistinct same (xs ++ x ∷ [])
  snoc-IsDistinct same [] x h new = (tt, tt)
  snoc-IsDistinct same (y ∷ ys) x h new = (
    All-append (λ z. same y z ≡ false) ys (x ∷ []) h.0 (new.0, tt),
    snoc-IsDistinct same ys x h.1 new.1,
  )

  pub delete-IsDistinct :
      (same : A → A → Bool) (p : A → Bool) (xs : List A)
      → IsDistinct same xs
      → IsDistinct same (delete p xs)
  delete-IsDistinct same p [] h = tt
  delete-IsDistinct same p (x ∷ xs) h = elim (Bool-cases (p x)) [
    | inl t ↦ rw t (delete-IsDistinct same p xs h.1)
    | inr n ↦ rw n (All-delete (λ y. same x y ≡ false) p xs h.0, delete-IsDistinct same p xs h.1)
  ]

  -- A write that keeps the keys.
  All-same-update :
      (same : A → A → Bool) (p : A → Bool) (f : A → A) (b : Bool) (x : A) (xs : List A)
      → ((u v : A) → same (f u) v ≡ same u v)
      → ((u v : A) → same u (f v) ≡ same u v)
      → All (λ y. same x y ≡ false) xs
      → All (λ y. same (if b then f x else x) y ≡ false) (update p f xs)
  All-same-update same p f b x [] left right h = tt
  All-same-update same p f b x (y ∷ ys) left right h =
      (written b (p y), All-same-update same p f b x ys left right h.1)
    where
      written : (b c : Bool) → same (if b then f x else x) (if c then f y else y) ≡ false
      written true true = rw (left x (f y), right x y) h.0
      written true false = rw (left x y) h.0
      written false true = rw (right x y) h.0
      written false false = h.0

  pub update-IsDistinct :
      (same : A → A → Bool) (p : A → Bool) (f : A → A) (xs : List A)
      → ((u v : A) → same (f u) v ≡ same u v)
      → ((u v : A) → same u (f v) ≡ same u v)
      → IsDistinct same xs
      → IsDistinct same (update p f xs)
  update-IsDistinct same p f [] left right h = tt
  update-IsDistinct same p f (x ∷ xs) left right h = (
    All-same-update same p f (p x) x xs left right h.0,
    update-IsDistinct same p f xs left right h.1,
  )

  All-restrict {κ} : (P : A → Type κ) (p : A → Bool) (xs : List A) → All P xs → All P (select p xs)
  All-restrict P p [] h = tt
  All-restrict P p (x ∷ xs) h = elim (Bool-cases (p x)) [
    | inl t ↦ rw t (h.0, All-restrict P p xs h.1)
    | inr n ↦ rw n (All-restrict P p xs h.1)
  ]

  pub select-IsDistinct :
      (same : A → A → Bool) (p : A → Bool) (xs : List A)
      → IsDistinct same xs
      → IsDistinct same (select p xs)
  select-IsDistinct same p [] h = tt
  select-IsDistinct same p (x ∷ xs) h = elim (Bool-cases (p x)) [
    | inl t ↦ rw t (All-restrict (λ y. same x y ≡ false) p xs h.0, select-IsDistinct same p xs h.1)
    | inr n ↦ rw n (select-IsDistinct same p xs h.1)
  ]

  length-delete-none : (p : A → Bool) (xs : List A) → All (λ x. p x ≡ false) xs → delete p xs ≡ xs
  length-delete-none p [] h = refl
  length-delete-none p (x ∷ xs) h = rw (h.0, length-delete-none p xs h.1)

  -- A query that takes one row at most leaves the others.
  pub length-delete_one :
      (same : A → A → Bool) (p : A → Bool) (xs : List A)
      → ((x y : A) → p x ≡ true → same x y ≡ false → p y ≡ false)
      → IsDistinct same xs
      → length xs ≤ suc (length (delete p xs))
  length-delete_one same p [] apart h = omega arith
  length-delete_one same p (x ∷ xs) apart h = elim (Bool-cases (p x)) [
    | inl t ↦ rw (t, length-delete-none p xs (others t xs h.0)) (omega arith)
    | inr n ↦ rw n (omega (arith, length-delete_one same p xs apart h.1))
  ]
    where
      others :
          p x ≡ true → (ys : List A) → All (λ y. same x y ≡ false) ys → All (λ y. p y ≡ false) ys
      others t [] k = tt
      others t (y ∷ ys) k = (apart x y t k.0, others t ys k.1)

  pub All-left {κ} :
      (P Q : A → Type κ) (p : A → Bool) (xs : List A)
      → ((x : A) → p x ≡ false → P x → Q x)
      → All P xs
      → All Q (delete p xs)
  All-left P Q p [] f h = tt
  All-left P Q p (x ∷ xs) f h = elim (Bool-cases (p x)) [
    | inl t ↦ rw t (All-left P Q p xs f h.1)
    | inr n ↦ rw n (f x n h.0, All-left P Q p xs f h.1)
  ]

module _ {ℓ} {A : Type ℓ} where
  -- Two queries that find rows of the same key find the same row.
  pub first_unique :
      (same : A → A → Bool) (p q : A → Bool) (xs : List A) {x y : A}
      → ((u v : A) → same u v ≡ same v u)
      → IsDistinct same xs
      → first p xs ≡ some x
      → first q xs ≡ some y
      → same x y ≡ true
      → x ≡ y
  first_unique same p q [] flip h ex ey s = cc
  first_unique same p q (z ∷ zs) {x} {y} flip h ex ey s = elim (Bool-cases (p z)) [
    | inl t ↦ elim (Bool-cases (q z)) [
      | inl u ↦ via (first_head p z zs t ex) (first_head q z zs u ey)
      | inr m ↦
          let other = All-first (λ w. same z w ≡ false) q zs h.0 (rw m at ey) in
          absurd (clash (subst (λ w. same w y ≡ false) (first_head p z zs t ex) other) s)
    ]
    | inr n ↦ elim (Bool-cases (q z)) [
      | inl u ↦
          let other = All-first (λ w. same z w ≡ false) p zs h.0 (rw n at ex) in
          absurd (clash (subst (λ w. same w x ≡ false) (first_head q z zs u ey) other) (rw flip s))
      | inr m ↦ first_unique same p q zs flip h.1 (rw n at ex) (rw m at ey) s
    ]
  ]
    where
      clash : {b : Bool} → b ≡ false → b ≡ true → ⊥
      clash n t = cc

      via : {a b c : A} → a ≡ b → a ≡ c → b ≡ c
      via e d = sym e ∙ d

-- Rows with distinct keys, each of which points at a row of another table, are no more than the
-- rows of that table.
module _ {ℓ κ} {A : Type ℓ} {B : Type κ} (points : A → B → Bool) (same : A → A → Bool) where
  pub length-le_of_points :
      (xs : List A) (ys : List B)
      → ((x x' : A) (y : B) → points x y ≡ true → same x x' ≡ false → points x' y ≡ false)
      → IsDistinct same xs
      → All (λ x. first (points x) ys ≢ none) xs
      → length xs ≤ length ys
  length-le_of_points xs [] apart h found = empty xs found
    where
      empty : (xs : List A) → All (λ x. first (points x) [] ≢ none) xs → length xs ≤ 0
      empty [] k = omega arith
      empty (x ∷ xs) k = absurd (k.0 refl)
  length-le_of_points xs (y ∷ ys) apart h found =
      let p : A → Bool = λ x. points x y in
      let rest = length-le_of_points (delete p xs) ys apart (delete-IsDistinct same p xs h) (
        All-left (λ x. first (points x) (y ∷ ys) ≢ none) (λ x. first (points x) ys ≢ none) p xs
          (λ x n k. rw n at k) found) in
      omega (arith, rest, length-delete_one same p xs (λ x x' t d. apart x x' y t d) h)
