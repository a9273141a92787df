-- ===== src/Notify/Channel.antt =====
-- `ConnectionManager`, for one user: `user_connections.get(user_id)` and
-- `user_event_buffer.get(user_id, [])`. Each coroutine is run to its end before the next one: the
-- source awaits between the messages of a replay with the websocket already registered, so that there
-- a concurrent `send_to_user` may overtake the replay, which is not modelled. A
-- websocket is the number of messages that it still takes before `send_json` raises; the times are
-- in microseconds.
use assistant_audit.Prelude.{
  ℕ, zero, suc, ◌+◌, ◌-◌, ◌*◌, Bool, Option, none, some, List, [], ◌∷◌, ◌++◌, length, drop, select,
  ltb, leb, if◌then◌else◌,
}

-- `BUFFER_TTL_SECONDS` and `BUFFER_MAX_SIZE`
abbrev pub buffer_ttl : ℕ
buffer_ttl = 1800 * 1000000

abbrev pub buffer_max_size : ℕ
buffer_max_size = 1000

pub record Channel {ℓ} (E : Type ℓ) : Type ℓ where
  pub socket : Option ℕ
  pub buffer : List (ℕ × E)

module _ {ℓ} {E : Type ℓ} where
  -- `(now - ts).total_seconds() < BUFFER_TTL_SECONDS`
  abbrev pub is_valid : ℕ → ℕ × E → Bool
  is_valid now entry = ltb now (entry.0 + buffer_ttl)

  -- `buf[-(BUFFER_MAX_SIZE - 1):]`, where there are too many
  abbrev pub newest : List (ℕ × E) → List (ℕ × E)
  newest buf =
      if leb buffer_max_size (length buf)
      then drop (length buf - (buffer_max_size - 1)) buf
      else buf

  unfoldable pub buffer_event : ℕ → E → List (ℕ × E) → List (ℕ × E)
  buffer_event now event buf = newest (select (is_valid now) buf) ++ (now, event) ∷ []

  -- The loop of `_replay_buffered_events`: what was sent, what is buffered again, and what the
  -- websocket still takes.
  unfoldable pub replay : ℕ → List (ℕ × E) → List E × List (ℕ × E) × ℕ
  replay takes [] = ([], [], takes)
  replay zero (entry ∷ rest) = ([], entry ∷ rest, zero)
  replay (suc takes) (entry ∷ rest) =
      let (sent, left, takes') = replay takes rest in (entry.1 ∷ sent, left, takes')

  -- `connect_user` with a valid token, and `_replay_buffered_events`
  unfoldable pub connect_user : ℕ → ℕ → Channel E → Channel E × List E
  unfolding replay
  connect_user now takes c =
      let r = replay takes (select (is_valid now) c.buffer) in
      (record { socket = some r.2; buffer = r.1 }, r.0)

  unfoldable pub disconnect_user : Channel E → Channel E
  disconnect_user c = record c { socket = none }

  unfoldable pub send_to_user : ℕ → E → Channel E → Channel E × List E
  unfolding buffer_event disconnect_user
  send_to_user now event c = elim c.socket [
    | none ↦ (record c { buffer = buffer_event now event c.buffer }, [])
    | some zero ↦ (record (disconnect_user c) { buffer = buffer_event now event c.buffer }, [])
    | some (suc takes) ↦ (record c { socket = some takes }, event ∷ [])
  ]

pub data Call {ℓ} (E : Type ℓ) : Type ℓ where
  connect : ℕ → ℕ → Call E
  disconnect : Call E
  send : ℕ → E → Call E

module _ {ℓ} {E : Type ℓ} where
  unfoldable pub call : Call E → Channel E → Channel E × List E
  unfolding connect_user disconnect_user send_to_user
  call (connect now takes) c = connect_user now takes c
  call disconnect c = (disconnect_user c, [])
  call (send now event) c = send_to_user now event c

  -- The channel after the calls, and what the user got.
  unfoldable pub run : List (Call E) → Channel E → Channel E × List E
  unfolding call
  run [] c = (c, [])
  run (x ∷ calls) c =
      let step = call x c in let rest = run calls step.0 in (rest.0, step.1 ++ rest.1)
