-- ===== src/Errors.antt =====
-- backend/app/core/errors.py, and the results of a service call. A service raises before it writes,
-- and the caller's session is rolled back on an exception, so an error carries no state. Of an
-- exception its class is kept, and not its message.
use assistant_audit.Prelude.{◌≡◌, refl, subst, Bool, true, false, Option, none, some}

pub data Error : Type 0 where
  not_found forbidden conflict validation business_rule server : Error
  -- Python's own `ValueError` and `AttributeError`, the database's refusal of a row, a query with several rows where one was asked for, and the rate limiter's HTTP 429
  value_error attribute_error integrity multiple_results too_many_requests unauthorized : Error

pub data Result {ℓ} (A : Type ℓ) : Type ℓ where
  ok : A → Result A
  err : Error → Result A

-- `if test: raise e`
abbrev pub raise_if : Bool → Error → Result (Unit {0})
raise_if true e = err e
raise_if false e = ok tt

-- `if row is None: raise e`
abbrev pub require {ℓ} : {A : Type ℓ} → Option A → Error → Result A
require none e = err e
require (some a) e = ok a

-- A call, and what the caller does with its result: an exception passes through.
infixl 5 ◌>>=◌
abbrev pub ◌>>=◌ {ℓ κ} : {A : Type ℓ} {B : Type κ} → Result A → (A → Result B) → Result B
ok result >>= next = next result
err e >>= next = err e

-- A check, and what follows where it passes.
infixl 5 ◌>>◌
abbrev pub ◌>>◌ {κ} : {B : Type κ} → Result (Unit {0}) → Result B → Result B
check >> rest = check >>= λ _. rest

-- The call returns, and its result satisfies `P`.
abbrev pub Returns {ℓ} : {A : Type ℓ} → (A → Type 0) → Result A → Type 0
Returns P (ok a) = P a
Returns P (err e) = ⊥

-- If the call returns, its result satisfies `P`.
abbrev pub IfReturns {ℓ} : {A : Type ℓ} → (A → Type 0) → Result A → Type 0
IfReturns P (ok a) = P a
IfReturns P (err e) = Unit

pub IfReturns-bind {ℓ κ} :
    {A : Type ℓ} {B : Type κ} (P : B → Type 0) (m : Result A) (f : A → Result B)
    → ((a : A) → m ≡ ok a → IfReturns P (f a))
    → IfReturns P (m >>= f)
IfReturns-bind P (ok a) f h = h a refl
IfReturns-bind P (err e) f h = tt

-- A row that was required was there.
pub require-some {ℓ} :
    {A : Type ℓ} (o : Option A) (e : Error) {a : A} → require o e ≡ ok a → o ≡ some a
require-some none e h = cc
require-some (some b) e h = cc

-- A guard that was passed did not hold.
pub raise_if-passed : (b : Bool) (e : Error) {t : Unit {0}} → raise_if b e ≡ ok t → b ≡ false
raise_if-passed true e h = cc
raise_if-passed false e h = refl

-- What holds of any result holds of the one that was returned.
pub IfReturns-ok {ℓ} :
    {A : Type ℓ} (P : A → Type 0) (m : Result A) {a : A} → IfReturns P m → m ≡ ok a → P a
IfReturns-ok P (ok b) {a} h e = subst P (same e) h
  where
    same : ok b ≡ ok a → b ≡ a
    same e = cc
IfReturns-ok P (err x) h e = cc
