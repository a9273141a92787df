-- ===== src/RateLimit/Window.antt =====
-- The sliding window of the rate limiter.
use assistant_audit.Prelude.{
  ℕ, ◌+◌, ◌≤◌, ◌≡◌, refl, inl, inr, String, Bool, true, false, List, [], ◌∷◌, ltb, Bool-cases, ◌&&◌,
  arith, ◌==◌, string_eq, if◌then◌else◌, subst,
}
use assistant_audit.Errors.{too_many_requests, Result, ok, err}
use assistant_audit.RateLimit.Limiter.{
  seconds, Limits, Limiter, new_limiter, cleanup, attempt, acquire_attempt, reset,
}
use assistant_audit.RateLimit.Limited.{
  in_window, IsLimited, later-IsLimited, purge-IsLimited, attempt-IsLimited,
}

abbrev pub returns {ℓ} : {A : Type ℓ} → Result A → Bool
returns (ok a) = true
returns (err e) = false

returns-if : (b : Bool) → returns (if b then ok (tt {0}) else err too_many_requests) ≡ b
returns-if true = refl
returns-if false = refl

-- The calls that the limiter gets.
pub data Call : Type 0 where
  attempt_by reset_by : String → ℕ → Call

-- The clock does not go back.
abbrev pub IsInOrder : ℕ → List Call → Type 0
IsInOrder n [] = Unit
IsInOrder n (attempt_by x now ∷ calls) = n ≤ now × IsInOrder now calls
IsInOrder n (reset_by x now ∷ calls) = n ≤ now × IsInOrder now calls

abbrev pub latest : ℕ → List Call → ℕ
latest n [] = n
latest n (attempt_by x now ∷ calls) = latest now calls
latest n (reset_by x now ∷ calls) = latest now calls

module _ (limits : Limits) where
  cleanup-IsLimited :
      (s : Limiter) (ip : String) (ts : List ℕ) (now : ℕ)
      → IsLimited limits (s.clients ip) ts now
      → IsLimited limits ((cleanup limits now s).clients ip) ts now
  unfolding cleanup
  cleanup-IsLimited s ip ts now l = elim (Bool-cases (ltb now (s.last_cleanup + seconds 120))) [
    | inl early ↦ rw early l
    | inr due ↦ rw due (purge-IsLimited limits (s.clients ip) ts now l)
  ]

  -- The times of the accepted attempts of `ip` since its last reset, the newest first, on top of `ts`.
  abbrev pub accepted : String → Limiter → List ℕ → List Call → List ℕ
  accepted ip s ts [] = ts
  accepted ip s ts (attempt_by x now ∷ calls) =
      let r = acquire_attempt limits x now s in
      accepted ip r.0 (if ip == x && returns r.1 then now ∷ ts else ts) calls
  accepted ip s ts (reset_by x now ∷ calls) =
      accepted ip (reset x s) (if ip == x then [] else ts) calls

  acquire-IsLimited :
      (s : Limiter) (ip x : String) (ts : List ℕ) (now : ℕ)
      → seconds limits.window_seconds + seconds 1 ≤ seconds limits.block_seconds
      → IsLimited limits (s.clients ip) ts now
      → let r = acquire_attempt limits x now s in
        IsLimited limits (r.0.clients ip) (if ip == x && returns r.1 then now ∷ ts else ts) now
  unfolding acquire_attempt
  acquire-IsLimited s ip x ts now long l =
      let clean = cleanup-IsLimited s ip ts now l in
      elim (Bool-cases (ip == x)) [
        | inl same ↦
            let here =
              subst (λ z. IsLimited limits ((cleanup limits now s).clients z) ts now)
                ((string_eq.eqb_iff ip x).0 same) clean in
            rw (same, returns-if (attempt limits now ((cleanup limits now s).clients x)).1)
              (attempt-IsLimited limits ((cleanup limits now s).clients x) ts now long here)
        | inr other ↦ rw other clean
      ]

  reset-IsLimited :
      (s : Limiter) (ip x : String) (ts : List ℕ) (now : ℕ)
      → IsLimited limits (s.clients ip) ts now
      → IsLimited limits ((reset x s).clients ip) (if ip == x then [] else ts) now
  unfolding reset
  reset-IsLimited s ip x ts now l = elim (Bool-cases (ip == x)) [
    | inl same ↦
        rw same (record { past = tt; few = λ m h. omega arith; covered = inl (λ m h. omega arith) })
    | inr other ↦ rw other l
  ]

  accepted-few :
      (ip : String) (calls : List Call) (s : Limiter) (ts : List ℕ) (n : ℕ)
      → seconds limits.window_seconds + seconds 1 ≤ seconds limits.block_seconds
      → IsLimited limits (s.clients ip) ts n
      → IsInOrder n calls
      → (m : ℕ) → latest n calls ≤ m
      → in_window limits m (accepted ip s ts calls) ≤ limits.max_attempts
  accepted-few ip [] s ts n long l order m h = l.few m h
  accepted-few ip (attempt_by x now ∷ calls) s ts n long l order m h =
      accepted-few ip calls _ _ now long
        (acquire-IsLimited s ip x ts now long
          (later-IsLimited limits (s.clients ip) ts n now order.0 l))
        order.1 m h
  accepted-few ip (reset_by x now ∷ calls) s ts n long l order m h =
      accepted-few ip calls _ _ now long
        (reset-IsLimited s ip x ts now (later-IsLimited limits (s.clients ip) ts n now order.0 l))
        order.1 m h

  -- Where a block lasts at least a second longer than the window, and the clock does not go back, no
  -- sequence of attempts and resets from any addresses lets one address make more than the maximal
  -- number of accepted attempts, since its last reset, in a window that ends at the last call or
  -- later.
  pub accepted-bound :
      (ip : String) (start : ℕ) (calls : List Call)
      → seconds limits.window_seconds + seconds 1 ≤ seconds limits.block_seconds
      → IsInOrder start calls
      → (m : ℕ) → latest start calls ≤ m
      → in_window limits m (accepted ip (new_limiter start) [] calls) ≤ limits.max_attempts
  accepted-bound ip start calls long order =
      accepted-few ip calls (new_limiter start) [] start long
        (record { past = tt; few = λ m h. omega arith; covered = inl (λ m h. omega arith) }) order
