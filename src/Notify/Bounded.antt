-- ===== src/Notify/Bounded.antt =====
-- The size of a user's buffer.
use assistant_audit.Prelude.{
  ℕ, zero, suc, ◌+◌, ◌-◌, ◌≤◌, Option, none, some, List, [], ◌∷◌, length, length-append,
  length-select, length-drop, select, leb, leb-false, Bool-cases, inl, inr, arith,
}
use assistant_audit.Notify.Channel.{
  buffer_max_size, Channel, is_valid, newest, buffer_event, replay, connect_user, disconnect_user,
  send_to_user, Call, connect, disconnect, send, call, run,
}

module _ {ℓ} {E : Type ℓ} where
  newest-short : (buf : List (ℕ × E)) → length (newest buf) + 1 ≤ buffer_max_size
  newest-short buf = elim (Bool-cases (leb buffer_max_size (length buf))) [
    | inl full ↦ rw full (omega (arith, length-drop (length buf - 999) buf))
    | inr room ↦ rw room (omega (arith, leb-false buffer_max_size (length buf) room))
  ]

  pub buffer_event-bounded :
      (now : ℕ) (event : E) (buf : List (ℕ × E))
      → length (buffer_event now event buf) ≤ buffer_max_size
  unfolding buffer_event
  buffer_event-bounded now event buf =
      let kept = newest (select (is_valid now) buf) in
      omega
        (arith, length-append kept ((now, event) ∷ []), newest-short (select (is_valid now) buf))

  replay-shrinks : (takes : ℕ) (buf : List (ℕ × E)) → length (replay takes buf).1 ≤ length buf
  unfolding replay
  replay-shrinks takes [] = omega arith
  replay-shrinks zero (entry ∷ rest) = omega arith
  replay-shrinks (suc takes) (entry ∷ rest) = omega (arith, replay-shrinks takes rest)

  send-bounded :
      (now : ℕ) (event : E) (socket : Option ℕ) (buf : List (ℕ × E))
      → length buf ≤ buffer_max_size
      → length (send_to_user now event (record { socket = socket; buffer = buf })).0.buffer
        ≤ buffer_max_size
  unfolding send_to_user disconnect_user
  send-bounded now event none buf h = buffer_event-bounded now event buf
  send-bounded now event (some zero) buf h = buffer_event-bounded now event buf
  send-bounded now event (some (suc takes)) buf h = h

  call-bounded :
      (x : Call E) (c : Channel E)
      → length c.buffer ≤ buffer_max_size
      → length (call x c).0.buffer ≤ buffer_max_size
  unfolding call connect_user disconnect_user
  call-bounded (connect now takes) c h = omega (
    arith,
    h,
    replay-shrinks takes (select (is_valid now) c.buffer),
    length-select (is_valid now) c.buffer,
  )
  call-bounded disconnect c h = h
  call-bounded (send now event) c h = send-bounded now event c.socket c.buffer h

  -- Whatever calls are made on a channel, one after the other, its buffer never holds more than a thousand events, where
  -- it did not before.
  pub run-bounded :
      (calls : List (Call E)) (c : Channel E)
      → length c.buffer ≤ buffer_max_size
      → length (run calls c).0.buffer ≤ buffer_max_size
  unfolding run
  run-bounded [] c h = h
  run-bounded (x ∷ calls) c h = run-bounded calls (call x c).0 (call-bounded x c h)
