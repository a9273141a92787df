-- ===== src/Notify/Delivery.antt =====
-- What a user gets where the coroutines run one after the other: every event once, in the order in
-- which they were sent.
use assistant_audit.Prelude.{
  ℕ, zero, suc, ◌+◌, ◌≤◌, ◌<◌, ◌≡◌, refl, sym, ◌∙◌, ap, Option, none, some, List, [], ◌∷◌, ◌++◌,
  map, append_assoc, append-nil, length, length-append, select, lt→ltb, leb-gt, All, All-append,
  arith,
}
use assistant_audit.Notify.Channel.{
  buffer_ttl, buffer_max_size, is_valid, newest, buffer_event, replay, connect_user,
  disconnect_user, send_to_user, Call, connect, disconnect, send, call, run,
}

module _ {ℓ} {E : Type ℓ} where
  abbrev pub events : List (ℕ × E) → List E
  events buf = map (λ entry. entry.1) buf

  -- The events of the calls, in order.
  abbrev pub sent_by : List (Call E) → List E
  sent_by [] = []
  sent_by (connect now takes ∷ calls) = sent_by calls
  sent_by (disconnect ∷ calls) = sent_by calls
  sent_by (send now event ∷ calls) = event ∷ sent_by calls

  -- All calls fall into the half hour after `start`.
  abbrev pub IsWithin : ℕ → List (Call E) → Type 0
  IsWithin start [] = Unit
  IsWithin start (connect now takes ∷ calls) =
      (start ≤ now) × (now < start + buffer_ttl) × IsWithin start calls
  IsWithin start (disconnect ∷ calls) = IsWithin start calls
  IsWithin start (send now event ∷ calls) =
      (start ≤ now) × (now < start + buffer_ttl) × IsWithin start calls

  -- Nothing waits for a websocket that still takes messages.
  abbrev IsFlushed : Option ℕ → List (ℕ × E) → Type ℓ
  IsFlushed none buf = Unit
  IsFlushed (some zero) buf = Unit
  IsFlushed (some (suc takes)) buf = buf ≡ []

  All-valid :
      (start now : ℕ) (buf : List (ℕ × E))
      → now < start + buffer_ttl
      → All (λ entry. start ≤ entry.0) buf
      → select (is_valid now) buf ≡ buf
  All-valid start now [] h since = refl
  All-valid start now (entry ∷ rest) h since =
      rw (lt→ltb now (entry.0 + buffer_ttl) (omega (arith, since.0)))
        (ap (λ l. entry ∷ l) (All-valid start now rest h since.1))

  newest_all : (buf : List (ℕ × E)) → length buf + 1 ≤ buffer_max_size → newest buf ≡ buf
  newest_all buf h = rw (leb-gt buffer_max_size (length buf) (omega arith)) refl

  buffer_event-keeps :
      (start now : ℕ) (event : E) (buf : List (ℕ × E))
      → now < start + buffer_ttl
      → All (λ entry. start ≤ entry.0) buf
      → length buf + 1 ≤ buffer_max_size
      → buffer_event now event buf ≡ buf ++ (now, event) ∷ []
  unfolding buffer_event
  buffer_event-keeps start now event buf h since room =
      rw (All-valid start now buf h since, newest_all buf room) refl

  -- A replay sends a first part and keeps the rest, in order.
  replay-events :
      (takes : ℕ) (buf : List (ℕ × E)) → let r = replay takes buf in r.0 ++ events r.1 ≡ events buf
  unfolding replay
  replay-events takes [] = refl
  replay-events zero (entry ∷ rest) = refl
  replay-events (suc takes) (entry ∷ rest) = ap (λ l. entry.1 ∷ l) (replay-events takes rest)

  replay-IsFlushed :
      (takes : ℕ) (buf : List (ℕ × E)) → let r = replay takes buf in IsFlushed (some r.2) r.1
  unfolding replay
  replay-IsFlushed zero [] = tt
  replay-IsFlushed (suc takes) [] = refl
  replay-IsFlushed zero (entry ∷ rest) = tt
  replay-IsFlushed (suc takes) (entry ∷ rest) = replay-IsFlushed takes rest

  replay-All :
      (P : ℕ × E → Type 0) (takes : ℕ) (buf : List (ℕ × E))
      → All P buf
      → All P (replay takes buf).1 × (length (replay takes buf).1 ≤ length buf)
  unfolding replay
  replay-All P takes [] h = (tt, omega arith)
  replay-All P zero (entry ∷ rest) h = (h, omega arith)
  replay-All P (suc takes) (entry ∷ rest) h =
      let ih = replay-All P takes rest h.1 in (ih.0, omega (arith, ih.1))

  map-append : (xs ys : List (ℕ × E)) → events (xs ++ ys) ≡ events xs ++ events ys
  map-append [] ys = refl
  map-append (x ∷ xs) ys = ap (λ l. x.1 ∷ l) (map-append xs ys)

  empty-IsFlushed : (takes : ℕ) (buf : List (ℕ × E)) → buf ≡ [] → IsFlushed (some takes) buf
  empty-IsFlushed zero buf h = tt
  empty-IsFlushed (suc takes) buf h = h

  -- An event that joins the queue, before the rest is sent.
  queued-events :
      (buf : List (ℕ × E)) (now : ℕ) (event : E) (rest : List E)
      → events (buf ++ (now, event) ∷ []) ++ rest ≡ events buf ++ event ∷ rest
  queued-events buf now event rest =
      ap (λ l. l ++ rest) (map-append buf ((now, event) ∷ []))
      ∙ append_assoc (events buf) (event ∷ []) rest

  -- The waiting events, then those that will be sent, come out in this order.
  conserved :
      (start : ℕ) (calls : List (Call E)) (socket : Option ℕ) (buf : List (ℕ × E))
      → IsWithin start calls
      → All (λ entry. start ≤ entry.0) buf
      → IsFlushed socket buf
      → length buf + length (sent_by calls) ≤ buffer_max_size
      → let r = run calls (record { socket = socket; buffer = buf }) in
        r.1 ++ events r.0.buffer ≡ events buf ++ sent_by calls
  unfolding run call connect_user disconnect_user send_to_user
  conserved start [] socket buf within since flushed room = sym (append-nil (events buf))
  conserved start (connect now takes ∷ calls) socket buf within since flushed room =
      let kept = replay-All (λ entry. start ≤ entry.0) takes buf since in
      let r = replay takes buf in
      rw (All-valid start now buf within.1 since) (
        append_assoc r.0 (run calls (record { socket = some r.2; buffer = r.1 })).1 _
        ∙ ap (λ l. r.0 ++ l)
            (conserved start calls (some r.2) r.1 within.2 kept.0 (replay-IsFlushed takes buf)
              (omega (arith, room, kept.1)))
        ∙ sym (append_assoc r.0 (events r.1) (sent_by calls))
        ∙ ap (λ l. l ++ sent_by calls) (replay-events takes buf))
  conserved start (disconnect ∷ calls) socket buf within since flushed room =
      conserved start calls none buf within since tt room
  conserved start (send now event ∷ calls) none buf within since flushed room =
      rw (buffer_event-keeps start now event buf within.1 since (omega (arith, room))) (
        conserved start calls none (buf ++ (now, event) ∷ []) within.2
          (All-append (λ entry. start ≤ entry.0) buf ((now, event) ∷ []) since (within.0, tt)) tt
          (omega (arith, room, length-append buf ((now, event) ∷ [])))
        ∙ queued-events buf now event (sent_by calls))
  conserved start (send now event ∷ calls) (some zero) buf within since flushed room =
      rw (buffer_event-keeps start now event buf within.1 since (omega (arith, room))) (
        conserved start calls none (buf ++ (now, event) ∷ []) within.2
          (All-append (λ entry. start ≤ entry.0) buf ((now, event) ∷ []) since (within.0, tt)) tt
          (omega (arith, room, length-append buf ((now, event) ∷ [])))
        ∙ queued-events buf now event (sent_by calls))
  conserved start (send now event ∷ calls) (some (suc takes)) buf within since flushed room =
      rw flushed (
        ap (λ l. event ∷ l)
          (conserved start calls (some takes) [] within.2 tt (empty-IsFlushed takes [] refl)
            (omega (arith, room))))

  -- From an empty buffer, within half an hour and for at most a thousand events, where each
  -- connection with its replay, each sending and each disconnection ends before the next begins,
  -- and whatever losses of the websocket and disconnections come between: what the user got,
  -- followed by what still waits, is what was sent, each event once and in order.
  pub run-delivers :
      (start : ℕ) (calls : List (Call E))
      → IsWithin start calls
      → length (sent_by calls) ≤ buffer_max_size
      → let r = run calls (record { socket = none; buffer = [] }) in
        r.1 ++ events r.0.buffer ≡ sent_by calls
  run-delivers start calls within room =
      conserved start calls none [] within tt tt (omega (arith, room))
