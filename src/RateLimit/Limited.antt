-- ===== src/RateLimit/Limited.antt =====
-- One client of the rate limiter: what is known of the accepted attempts while its requests come in.
use assistant_audit.Prelude.{
  ℕ, ◌+◌, ◌≤◌, ◌<◌, ◌≡◌, refl, ◌⊎◌, inl, inr, Option, none, some, List, [], ◌∷◌, ◌++◌, length,
  select, count_by, ltb, leb, ltb→lt, All, All-map, Bool-cases, some-eq, length-append, leb-false,
  arith, string_eq, if◌then◌else◌, subst,
}
use assistant_audit.RateLimit.Limiter.{seconds, Limits, Client, is_recent, purge, admit, attempt}

module _ (limits : Limits) where
  -- How many of the times lie in the window that ends at `m`.
  abbrev pub in_window : ℕ → List ℕ → ℕ
  in_window m ts = count_by (is_recent limits m) ts

  in_window-select :
      (now m : ℕ) (ts : List ℕ)
      → now ≤ m
      → in_window m (select (is_recent limits now) ts) ≡ in_window m ts
  in_window-select now m [] h = refl
  in_window-select now m (t ∷ ts) h = ground (arith, in_window-select now m ts h)

  in_window-snoc : (m t : ℕ) (ts : List ℕ) → in_window m (ts ++ t ∷ []) ≡ in_window m (t ∷ ts)
  in_window-snoc m t [] = refl
  in_window-snoc m t (u ∷ ts) = ground (arith, in_window-snoc m t ts)

  in_window-length : (m : ℕ) (ts : List ℕ) → in_window m ts ≤ length ts
  in_window-length m [] = omega arith
  in_window-length m (t ∷ ts) = ground (arith, in_window-length m ts)

  in_window-expired :
      (m : ℕ) (ts : List ℕ)
      → All (λ t. t + seconds limits.window_seconds ≤ m) ts
      → in_window m ts ≡ 0
  in_window-expired m [] h = refl
  in_window-expired m (t ∷ ts) h = ground (arith, in_window-expired m ts h.1, h.0)

  -- The list accounts for the accepted attempts, unless a block outlasts their window.
  abbrev pub IsCovered : Client → List ℕ → ℕ → Type 0
  IsCovered c ts now =
      ((m : ℕ) → now ≤ m → in_window m ts ≤ in_window m c.attempts)
      ⊎ ((until : ℕ) × (c.blocked ≡ some until)
          × All (λ t. t + seconds limits.window_seconds + seconds 1 ≤ until) ts)

  -- What is known at `now` of a client whose attempts at `ts` were accepted.
  pub record IsLimited (c : Client) (ts : List ℕ) (now : ℕ) : Type 0 where
    pub past : All (λ t. t ≤ now) ts
    pub few : (m : ℕ) → now ≤ m → in_window m ts ≤ limits.max_attempts
    pub covered : IsCovered c ts now

  pub later-IsLimited :
      (c : Client) (ts : List ℕ) (n now : ℕ) → n ≤ now → IsLimited c ts n → IsLimited c ts now
  later-IsLimited c ts n now h l = record {
    past = All-map (λ t. t ≤ n) (λ t. t ≤ now) ts (λ t p. omega arith) l.past;
    few = λ m p. l.few m (omega arith);
    covered = elim l.covered [ inl all ↦ inl (λ m p. all m (omega arith)) | inr b ↦ inr b ];
  }

  -- A block that is over covered attempts whose window is over.
  expired-covered :
      (c : Client) (ts : List ℕ) (until now : ℕ)
      → until < now + seconds 1
      → All (λ t. t + seconds limits.window_seconds + seconds 1 ≤ until) ts
      → (m : ℕ) → now ≤ m
      → in_window m ts ≤ in_window m c.attempts
  expired-covered c ts until now over gone m h =
      let none_left = in_window-expired m ts (
        All-map (λ t. t + seconds limits.window_seconds + seconds 1 ≤ until) _ ts
          (λ t p. omega arith) gone) in
      omega (arith, none_left)

  pub purge-IsLimited :
      (c : Client) (ts : List ℕ) (now : ℕ)
      → IsLimited c ts now
      → IsLimited (purge limits now c) ts now
  unfolding purge
  purge-IsLimited c ts now l = record {
    past = l.past;
    few = l.few;
    covered = elim l.covered [
      | inl all ↦ inl (λ m h. rw (in_window-select now m c.attempts h) (all m h))
      | inr (until, b, gone) ↦ elim (Bool-cases (ltb until now)) [
        | inl over ↦
            let short = ltb→lt until now over in
            inl (λ m h.
              expired-covered (purge limits now c) ts until now (omega (arith, short)) gone m h)
        | inr n ↦ inr (until, rw (b, n) refl, gone)
      ]
    ];
  }

  -- The window after a request which no block stopped.
  admit-IsLimited :
      (c : Client) (ts : List ℕ) (now : ℕ)
      → seconds limits.window_seconds + seconds 1 ≤ seconds limits.block_seconds
      → All (λ t. t ≤ now) ts
      → ((m : ℕ) → now ≤ m → in_window m ts ≤ limits.max_attempts)
      → ((m : ℕ) → now ≤ m → in_window m ts ≤ in_window m c.attempts)
      → IsLimited (admit limits now c).0 (if (admit limits now c).1 then now ∷ ts else ts) now
  unfolding admit
  admit-IsLimited c ts now long past few all =
      let recent = select (is_recent limits now) c.attempts in
      elim (Bool-cases (leb limits.max_attempts (length recent))) [
        | inl full ↦ rw full (record {
          past = past;
          few = few;
          covered = inr (
            now + seconds limits.block_seconds,
            refl,
            All-map (λ t. t ≤ now) _ ts (λ t p. omega arith) past,
          );
        })
        | inr room ↦
            let counted : (m : ℕ)
                → now ≤ m
                → in_window m (now ∷ ts) ≤ in_window m (recent ++ now ∷ []) =
              λ m h.
                rw (in_window-snoc m now recent)
                  (more m recent (rw (in_window-select now m c.attempts h) (all m h))) in
            rw room (record {
              past = (omega arith, past);
              few = λ m h.
                  fits (counted m h) (in_window-length m (recent ++ now ∷ []))
                    (length-append recent (now ∷ []))
                    (leb-false limits.max_attempts (length recent) room);
              covered = inl counted;
            })
      ]
    where
      more :
          (m : ℕ) (recent : List ℕ)
          → in_window m ts ≤ in_window m recent
          → in_window m (now ∷ ts) ≤ in_window m (now ∷ recent)
      more m recent h = ground arith

      fits :
          {x y n k : ℕ}
          → x ≤ y
          → y ≤ n
          → n ≡ k + 1
          → k < limits.max_attempts
          → x ≤ limits.max_attempts
      fits a b e f = omega (arith, a, b, e, f)

  attempt_at-IsLimited :
      (listed : List ℕ) (block : Option ℕ) (ts : List ℕ) (now : ℕ)
      → let c : Client = record { attempts = listed; blocked = block } in
        seconds limits.window_seconds + seconds 1 ≤ seconds limits.block_seconds
        → IsLimited c ts now
        → IsLimited (attempt limits now c).0 (if (attempt limits now c).1 then now ∷ ts else ts) now
  unfolding attempt
  attempt_at-IsLimited listed none ts now long l =
      admit-IsLimited (record { attempts = listed; blocked = none }) ts now long l.past l.few
        (elim l.covered [ inl all ↦ all | inr (until, b, gone) ↦ absurd (none_some b) ])
    where
      none_some : {u : ℕ} → ◌≡◌ {A = Option ℕ} none (some u) → ⊥
      none_some s = cc
  attempt_at-IsLimited listed (some until) ts now long l =
      elim (Bool-cases (leb (now + seconds 1) until)) [
        | inl still ↦ rw still l
        | inr over ↦ rw over (
            admit-IsLimited (record { attempts = listed; blocked = none }) ts now long l.past l.few
              (elim l.covered [
                | inl all ↦ all
                | inr (until', b, gone) ↦
                    expired-covered (record { attempts = listed; blocked = none }) ts until' now
                      (subst (λ u. u < now + seconds 1) (some-eq refl b)
                        (leb-false (now + seconds 1) until over))
                      gone
              ]))
      ]

  pub attempt-IsLimited :
      (c : Client) (ts : List ℕ) (now : ℕ)
      → seconds limits.window_seconds + seconds 1 ≤ seconds limits.block_seconds
      → IsLimited c ts now
      → IsLimited (attempt limits now c).0 (if (attempt limits now c).1 then now ∷ ts else ts) now
  attempt-IsLimited c ts now long l = attempt_at-IsLimited c.attempts c.blocked ts now long l
