-- ===== src/Tests/Channel.antt =====
-- A sender and a receiver of libsponge over a network, at concrete inputs.
use cs144_me.Prelude.{ℕ, ◌≡◌, List, [], ◌∷◌, arith}
use cs144_me.Prelude.Result.{ok}
use cs144_me.Channel.{Net, Event, run, start}
use cs144_me.Channel.Delivery.{Delivers, run-Delivers}
use cs144_me.Channel.Kept.{IsKept, run-IsKept}
use cs144_me.Channel.Flow.{IsPaced, run-IsPaced}

-- A stream whose byte i is i.
abbrev bytes_from : ℕ → ℕ
bytes_from i = i

-- The SYN is lost once and sent again; the FIN arrives before the data, which arrives twice.
abbrev events : List Event
events =
    Event.send
    ∷ Event.pass 1000
    ∷ Event.deliver 1
    ∷ Event.reply
    ∷ Event.ack 0
    ∷ Event.put 5
    ∷ Event.send
    ∷ Event.close
    ∷ Event.send
    ∷ Event.deliver 3
    ∷ Event.deliver 2
    ∷ Event.deliver 2
    ∷ Event.read 3
    ∷ Event.reply
    ∷ Event.ack 1
    ∷ Event.read 9
    ∷ []

run-Delivers_example :
    (net : Net) × (run bytes_from (start 7 1000 100 20) events ≡ ok net) × Delivers bytes_from net
run-Delivers_example =
    run-Delivers bytes_from 7 1000 100 20 events (omega arith) (omega arith) (omega arith)

run-IsPaced_example :
    (net : Net) × (run bytes_from (start 7 1000 100 20) events ≡ ok net) × IsPaced 20 net
run-IsPaced_example =
    run-IsPaced bytes_from 7 1000 100 20 events (omega arith) (omega arith) (omega arith)

run-IsKept_example :
    (net : Net) × (run bytes_from (start 7 1000 100 20) events ≡ ok net) × IsKept net
run-IsKept_example =
    run-IsKept bytes_from 7 1000 100 20 events (omega arith) (omega arith) (omega arith)
