-- ===== src/Notify/Tests.antt =====
-- A user who comes back: the first websocket takes one message, the second one the rest.
use assistant_audit.Prelude.{◌≤◌, ◌≡◌, refl, String, none, List, [], ◌∷◌, ◌++◌, arith, length}
use assistant_audit.Notify.Channel.{Call, connect, disconnect, send, run, buffer_event}
use assistant_audit.Notify.Bounded.{run-bounded}
use assistant_audit.Notify.Delivery.{events, run-delivers}

abbrev calls : List (Call String)
calls =
    send 10 "a"
    ∷ send 20 "b"
    ∷ connect 30 1
    ∷ send 40 "c"
    ∷ disconnect
    ∷ connect 50 9
    ∷ send 60 "d"
    ∷ []

-- "a" on the first websocket, the others on the second.
delivered : (run calls (record { socket = none; buffer = [] })).1 ≡ "a" ∷ "b" ∷ "c" ∷ "d" ∷ []
unfolding run buffer_event
delivered = refl

run-delivers_example :
    let r = run calls (record { socket = none; buffer = [] }) in
    r.1 ++ events r.0.buffer ≡ "a" ∷ "b" ∷ "c" ∷ "d" ∷ []
run-delivers_example =
    run-delivers 5 calls
      (
        omega arith,
        omega arith,
        (
          omega arith,
          omega arith,
          (
            omega arith,
            omega arith,
            (omega arith, omega arith, (omega arith, omega arith, (omega arith, omega arith, tt))),
          ),
        ),
      )
      (omega arith)

run-bounded_example : length (run calls (record { socket = none; buffer = [] })).0.buffer ≤ 1000
run-bounded_example = run-bounded calls (record { socket = none; buffer = [] }) (omega arith)
