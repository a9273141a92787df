-- ===== src/Prelude/Lists.antt =====
-- Lists measured by native numbers, and tables as lists of rows: the queries and writes of a
-- database session.
use Prim.Native.Nat.{ℕ, zero, suc, ◌+◌, ◌-◌, ◌≤◌}
use mathlib.Core.Path.{◌≡◌, refl, sym, subst}
use mathlib.Core.Bool.{Bool, true, false, ◌||◌}
use mathlib.Core.Logic.{inl, inr}
use mathlib.Core.List.{List, [], ◌∷◌, ◌++◌, Memᴰ}
use mathlib.Core.Option.{Option, none, some}
use native.Mathlib.Omega.{arith}
use assistant_audit.Prelude.Tests.{Eq, ◌==◌, if◌then◌else◌, Bool-cases, Option-cases}

module _ {ℓ} {A : Type ℓ} where
  abbrev pub length : List A → ℕ
  length [] = 0
  length (x ∷ xs) = suc (length xs)

  abbrev pub take : ℕ → List A → List A
  take zero xs = []
  take (suc n) [] = []
  take (suc n) (x ∷ xs) = x ∷ take n xs

  abbrev pub drop : ℕ → List A → List A
  drop zero xs = xs
  drop (suc n) [] = []
  drop (suc n) (x ∷ xs) = drop n xs

  -- `query.filter(p).all()`
  abbrev pub select : (A → Bool) → List A → List A
  select p [] = []
  select p (x ∷ xs) = if p x then x ∷ select p xs else select p xs

  -- `query.filter(p).first()`
  abbrev pub first : (A → Bool) → List A → Option A
  first p [] = none
  first p (x ∷ xs) = if p x then some x else first p xs

  -- Assignments to the attributes of the rows that satisfy `p`.
  abbrev pub update : (A → Bool) → (A → A) → List A → List A
  update p f [] = []
  update p f (x ∷ xs) = (if p x then f x else x) ∷ update p f xs

  -- `db.delete` of the rows that satisfy `p`.
  abbrev pub delete : (A → Bool) → List A → List A
  delete p [] = []
  delete p (x ∷ xs) = if p x then delete p xs else x ∷ delete p xs

  abbrev pub count_by : (A → Bool) → List A → ℕ
  count_by p [] = 0
  count_by p (x ∷ xs) = if p x then suc (count_by p xs) else count_by p xs

  abbrev pub All {κ} : (A → Type κ) → List A → Type κ
  All P [] = Unit
  All P (x ∷ xs) = P x × All P xs

abbrev pub contains {ℓ} : {A : Type ℓ} ⦃e : Eq A⦄ → A → List A → Bool
contains a [] = false
contains a (x ∷ xs) = a == x || contains a xs

module _ {ℓ} {A : Type ℓ} where
  pub length-append : (xs ys : List A) → length (xs ++ ys) ≡ length xs + length ys
  length-append [] ys = omega arith
  length-append (x ∷ xs) ys = omega (arith, length-append xs ys)

  pub length-select : (p : A → Bool) (xs : List A) → length (select p xs) ≤ length xs
  length-select p [] = omega arith
  length-select p (x ∷ xs) = ground (arith, length-select p xs)

  pub length-drop : (n : ℕ) (xs : List A) → length (drop n xs) ≡ length xs - n
  length-drop zero xs = omega arith
  length-drop (suc n) [] = omega arith
  length-drop (suc n) (x ∷ xs) = omega (arith, length-drop n xs)

  pub first-satisfies : (p : A → Bool) (xs : List A) {a : A} → first p xs ≡ some a → p a ≡ true
  first-satisfies p [] h = cc
  first-satisfies p (x ∷ xs) {a} h = ground (arith, first-satisfies p xs {a = a})

  pub first_head :
      (p : A → Bool) (x : A) (xs : List A) {a : A} → p x ≡ true → first p (x ∷ xs) ≡ some a → x ≡ a
  first_head p x xs t e = ground arith

  first_tail :
      (p : A → Bool) (x : A) (xs : List A) {a : A}
      → p x ≡ false
      → first p (x ∷ xs) ≡ some a
      → first p xs ≡ some a
  first_tail p x xs n e = ground arith

  -- A row that a query finds is in the table.
  pub first-Memᴰ : (p : A → Bool) (xs : List A) {a : A} → first p xs ≡ some a → Memᴰ a xs
  first-Memᴰ p [] h = cc
  first-Memᴰ p (x ∷ xs) {a} h = elim (Bool-cases (p x)) [
    | inl t ↦ Memᴰ.head (sym (first_head p x xs t h))
    | inr n ↦ Memᴰ.tail (first-Memᴰ p xs (first_tail p x xs n h))
  ]

  first_kept :
      (q p : A → Bool) (f : A → A) (x : A)
      → ((y : A) → q (f y) ≡ q y)
      → q (if p x then f x else x) ≡ q x
  first_kept q p f x keep = ground (arith, keep x)

  pub All-first {κ} :
      (P : A → Type κ) (p : A → Bool) (xs : List A) {a : A} → All P xs → first p xs ≡ some a → P a
  All-first P p [] h e = cc
  All-first P p (x ∷ xs) {a} h e = elim (Bool-cases (p x)) [
    | inl t ↦ subst P (first_head p x xs t e) h.0
    | inr f ↦ All-first P p xs h.1 (rw f at e)
  ]

  pub All-append {κ} : (P : A → Type κ) (xs ys : List A) → All P xs → All P ys → All P (xs ++ ys)
  All-append P [] ys hx hy = hy
  All-append P (x ∷ xs) ys hx hy = (hx.0, All-append P xs ys hx.1 hy)

  pub All-update {κ} :
      (P : A → Type κ) (p : A → Bool) (f : A → A) (xs : List A)
      → ((a : A) → p a ≡ true → P a → P (f a))
      → All P xs
      → All P (update p f xs)
  All-update P p f [] keep h = tt
  All-update P p f (x ∷ xs) keep h = elim (Bool-cases (p x)) [
    | inl t ↦ rw t (keep x t h.0, All-update P p f xs keep h.1)
    | inr n ↦ rw n (h.0, All-update P p f xs keep h.1)
  ]

  pub All-delete {κ} :
      (P : A → Type κ) (p : A → Bool) (xs : List A) → All P xs → All P (delete p xs)
  All-delete P p [] h = tt
  All-delete P p (x ∷ xs) h = elim (Bool-cases (p x)) [
    | inl t ↦ rw t (All-delete P p xs h.1)
    | inr n ↦ rw n (h.0, All-delete P p xs h.1)
  ]

  -- A write that keeps what a query tests is seen by the query.
  pub first-update :
      (q p : A → Bool) (f : A → A) (xs : List A) {x : A}
      → ((y : A) → q (f y) ≡ q y)
      → first q xs ≡ some x
      → first q (update p f xs) ≡ some (if p x then f x else x)
  first-update q p f [] keep h = cc
  first-update q p f (y ∷ ys) {x} keep h = elim (Bool-cases (q y)) [
    | inl t ↦ let e = first_head q y ys t h in rw (← e) (rw (first_kept q p f y keep, t))
    | inr n ↦ rw (first_kept q p f y keep, n) (first-update q p f ys keep (first_tail q y ys n h))
  ]

  -- A write to the rows that a query finds.
  pub first-update_own :
      (q : A → Bool) (f : A → A) (xs : List A) {x : A}
      → ((y : A) → q y ≡ true → q (f y) ≡ true)
      → first q xs ≡ some x
      → first q (update q f xs) ≡ some (f x)
  first-update_own q f [] keep h = cc
  first-update_own q f (y ∷ ys) {x} keep h = elim (Bool-cases (q y)) [
    | inl t ↦ let e = first_head q y ys t h in rw (← e) (rw (t, keep y t) refl)
    | inr n ↦ rw (n, n) (first-update_own q f ys keep (first_tail q y ys n h))
  ]

  pub select-append :
      (p : A → Bool) (xs ys : List A) → select p (xs ++ ys) ≡ select p xs ++ select p ys
  select-append p [] ys = refl
  select-append p (x ∷ xs) ys = elim (Bool-cases (p x)) [
    | inl t ↦ rw (t, select-append p xs ys)
    | inr n ↦ rw (n, select-append p xs ys)
  ]

  pub select-none : (p : A → Bool) (xs : List A) → All (λ x. p x ≡ false) xs → select p xs ≡ []
  select-none p [] h = refl
  select-none p (x ∷ xs) h = rw h.0 (select-none p xs h.1)

  pub first-none : (p : A → Bool) (xs : List A) → first p xs ≡ none → All (λ x. p x ≡ false) xs
  first-none p [] h = tt
  first-none p (x ∷ xs) h = elim (Bool-cases (p x)) [
    | inl t ↦ absurd (hit t (rw t at h))
    | inr n ↦ (n, first-none p xs (rw n at h))
  ]
    where
      hit : p x ≡ true → some x ≡ none → ⊥
      hit t e = cc

  pub first-update-none :
      (q p : A → Bool) (f : A → A) (xs : List A)
      → ((y : A) → q (f y) ≡ q y)
      → first q xs ≡ none
      → first q (update p f xs) ≡ none
  first-update-none q p f [] keep h = refl
  first-update-none q p f (x ∷ xs) keep h =
      let misses = first-none q (x ∷ xs) h in
      rw (first_kept q p f x keep, misses.0) (first-update-none q p f xs keep (rw misses.0 at h))

  -- What a query finds after a write, it found before the write.
  pub first-update_inv :
      (q p : A → Bool) (f : A → A) (xs : List A) (y : A)
      → ((z : A) → q (f z) ≡ q z)
      → first q (update p f xs) ≡ some y
      → (x : A) × (first q xs ≡ some x) × (y ≡ (if p x then f x else x))
  first-update_inv q p f xs y keep h = elim (Option-cases (first q xs)) [
    | inl e ↦ absurd (none_some (first-update-none q p f xs keep e) h)
    | inr (x, e) ↦ (x, e, same (first-update q p f xs keep e) h)
  ]
    where
      none_some : {o : Option A} {a : A} → o ≡ none → o ≡ some a → ⊥
      none_some n s = cc

      same : {o : Option A} {a b : A} → o ≡ some a → o ≡ some b → b ≡ a
      same s t = ground arith

  pub select-snoc :
      (p : A → Bool) (xs : List A) (x : A)
      → select p (xs ++ x ∷ []) ≡ (if p x then select p xs ++ x ∷ [] else select p xs)
  select-snoc p [] x = refl
  select-snoc p (y ∷ ys) x = elim (Bool-cases (p y)) [
    | inl t ↦ rw (t, select-snoc p ys x) (push_in (p x))
    | inr n ↦ rw (n, select-snoc p ys x)
  ]
    where
      push_in :
          (b : Bool)
          → y ∷ (if b then select p ys ++ x ∷ [] else select p ys)
            ≡ (if b then y ∷ (select p ys ++ x ∷ []) else y ∷ select p ys)
      push_in true = refl
      push_in false = refl

pub some-eq {ℓ} : {A : Type ℓ} {o : Option A} {a b : A} → o ≡ some a → o ≡ some b → a ≡ b
some-eq s t = ground arith

module _ {ℓ} {A : Type ℓ} where
  pub All-zip {κ} :
      (P Q R : A → Type κ) (xs : List A)
      → ((x : A) → P x → Q x → R x)
      → All P xs
      → All Q xs
      → All R xs
  All-zip P Q R [] f p q = tt
  All-zip P Q R (x ∷ xs) f p q = (f x p.0 q.0, All-zip P Q R xs f p.1 q.1)

  pub All-map {κ} : (P Q : A → Type κ) (xs : List A) → ((x : A) → P x → Q x) → All P xs → All Q xs
  All-map P Q [] f p = tt
  All-map P Q (x ∷ xs) f p = (f x p.0, All-map P Q xs f p.1)

  pub All-select {κ} :
      (P : A → Type κ) (p : A → Bool) (xs : List A)
      → ((x : A) → p x ≡ true → P x)
      → All P (select p xs)
  All-select P p [] f = tt
  All-select P p (x ∷ xs) f = elim (Bool-cases (p x)) [
    | inl t ↦ rw t (f x t, All-select P p xs f)
    | inr n ↦ rw n (All-select P p xs f)
  ]
