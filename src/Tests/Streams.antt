-- ===== src/Tests/Streams.antt =====
-- The byte stream, the reassembler and the sequence numbers of libsponge at concrete inputs.
use cs144_me.Prelude.{ℕ, ◌^◌, ◌≤◌, ◌<◌, ◌≡◌, refl, true, false, List, [], ◌∷◌, arith}
use cs144_me.Prelude.Result.{ok}
use cs144_me.ByteStream.Fifo
use cs144_me.ByteStream.Fifo.{Op, Trace, Fifo, run-Fifo}
use cs144_me.Wrapping.{wrap, unwrap}
use cs144_me.Wrapping.Closest.{unwrap_closest, unwrap-wrap, gap}
use cs144_me.Reassembler
use cs144_me.Reassembler.{StreamReassembler, push_substring}
use cs144_me.Reassembler.Trim.{Inv}
use cs144_me.Reassembler.Spec
use cs144_me.Reassembler.Spec.{Call, Reading, IsReading, start-IsReading, run_delivers}
use cs144_me.Reassembler.Substring.{AfterPush, push_substring_lem}

-- A stream whose byte i is i.
abbrev bytes_from : ℕ → ℕ
bytes_from i = i

abbrev calls : List Call
calls =
    Call.push (3 ∷ 4 ∷ []) 3 true
    ∷ Call.push (1 ∷ 2 ∷ 3 ∷ []) 1 false
    ∷ Call.push (0 ∷ 1 ∷ []) 0 false
    ∷ Call.read 4
    ∷ []

run_delivers_example :
    (s : Reading) × (Spec.run (Spec.start 8) calls ≡ ok s) × IsReading bytes_from 8 5 s
run_delivers_example =
    run_delivers bytes_from 8 5 calls (omega arith)
      ((refl, omega arith), ((refl, omega arith), ((refl, omega arith), tt)))

new-Inv : Inv bytes_from (Reassembler.new 8)
new-Inv = (start-IsReading bytes_from 8 0 (omega arith)).inv

push_substring_lem_example :
    (r : StreamReassembler) × (push_substring (Reassembler.new 8) (2 ∷ 3 ∷ []) 2 false ≡ ok r)
    × AfterPush bytes_from (Reassembler.new 8) 2 2 false r
push_substring_lem_example =
    push_substring_lem bytes_from (Reassembler.new 8) (2 ∷ 3 ∷ []) 2 false new-Inv refl
      (omega arith)

abbrev ops : List Op
ops = Op.put (7 ∷ 8 ∷ 9 ∷ []) ∷ Op.get 1 ∷ Op.put (5 ∷ []) ∷ Op.close ∷ Op.get 9 ∷ []

run-Fifo_example : (t : Trace) × (Fifo.run (Fifo.start 2) ops ≡ ok t) × Fifo.Fifo t
run-Fifo_example = run-Fifo 2 ops (omega arith) (omega arith)

unwrap_closest_example :
    (wrap (unwrap 5 10 4294967300) 10 ≡ 5)
    × ((x : ℕ)
        → x < 2 ^ 63
        → wrap x 10 ≡ 5
        → gap (unwrap 5 10 4294967300) 4294967300 ≤ gap x 4294967300)
unwrap_closest_example = unwrap_closest 5 10 4294967300 (omega arith) (omega arith) (omega arith)

unwrap-wrap_example : unwrap (wrap 4294967299 10) 10 4294967200 ≡ 4294967299
unwrap-wrap_example =
    unwrap-wrap 4294967299 10 4294967200 (omega arith) (omega arith) (omega arith) (omega arith)
