-- ===== src/Reassembler/Spec.antt =====
-- StreamReassembler of libsponge/stream_reassembler.cc as a whole: any calls of push_substring between
-- reads of the output.
use cs144_me.Prelude.{
  ℕ, ◌+◌, ◌-◌, ◌^◌, ◌≤◌, ◌<◌, ◌≡◌, refl, ap, sym, ◌∙◌, List, [], ◌∷◌, ◌++◌, length, take, arith,
  Bool, true, length-drop,
}
use native.Mathlib.Decide.{dec_lt}
use cs144_me.Prelude.Result.{Result, ok, ◌>>=◌}
use cs144_me.ByteStream
use cs144_me.ByteStream.{ByteStream, bytes_written, end_input}
use cs144_me.ByteStream.Inv.{available, after_pop, read_lem, pop-IsValid}
use cs144_me.Reassembler.{StreamReassembler, new, push_substring}
use cs144_me.Reassembler.Slice.{slice, slice_cong, slice-append, take_run, drop_run}
use cs144_me.Reassembler.Chunks.{Chunks-mono}
use cs144_me.Reassembler.Flush.{IsOutput, has}
use cs144_me.Reassembler.Trim.{window, Inv}
use cs144_me.Reassembler.Substring.{AfterPush, next_missing, push_substring_lem}

-- A call of the receiver or of the reader.
pub data Call : Type 0 where
  push : List ℕ → ℕ → Bool → Call
  read : ℕ → Call

-- The state and all the bytes that the reader got.
pub record Reading : Type 0 where
  pub reassembler : StreamReassembler
  pub given : List ℕ

unfoldable pub step : Reading → Call → Result Reading
step s (push bytes index eof) = do
  r ← push_substring s.reassembler bytes index eof
  ok (record s { reassembler = r })
step s (read len) = do
  (res, out) ← ByteStream.read s.reassembler.output len
  ok (record { reassembler = record (s.reassembler) { output = out }; given = s.given ++ res })

unfoldable pub run : Reading → List Call → Result Reading
run s [] = ok s
run s (c ∷ cs) = step s c >>= λ s'. run s' cs

-- Each substring is a part of the first n bytes of the stream.
abbrev pub AllWithin : (ℕ → ℕ) → ℕ → List Call → Type 0
AllWithin src n [] = Unit {0}
AllWithin src n (push bytes index eof ∷ cs) =
    ((bytes ≡ slice src index (length bytes)) × (index + length bytes ≤ n)) × AllWithin src n cs
AllWithin src n (read len ∷ cs) = AllWithin src n cs

-- What holds between the calls.
pub record IsReading (src : ℕ → ℕ) (cap n : ℕ) (s : Reading) : Type 0 where
  pub inv : Inv src s.reassembler
  pub capacity : s.reassembler.capacity ≡ cap
  pub within : (i : ℕ) → has s.reassembler.output s.reassembler.m i ≡ true → i < n
  pub given : s.given ≡ slice src 0 s.reassembler.output.total_read

pub written_le :
    (src : ℕ → ℕ) (cap n : ℕ) (s : Reading)
    → IsReading src cap n s
    → s.reassembler.output.written ≤ n
written_le src cap n s v = elim (dec_lt 0 w) [
  | yes pos ↦
      omega
        (arith, v.within (w - 1) ((next_missing src s.reassembler v.inv).1 (w - 1) (omega arith)))
  | no zero_written ↦ omega arith
]
  where
    w : ℕ
    w = s.reassembler.output.written

-- The state after the reader got up to `len` bytes.
abbrev pub after_read : Reading → ℕ → Reading
after_read s len =
    let k : ℕ = available s.reassembler.output len in
    record {
      reassembler = record (s.reassembler) { output = after_pop s.reassembler.output k };
      given = s.given ++ take k s.reassembler.output.buffer;
    }

pub AfterPush-IsReading :
    (src : ℕ → ℕ) (cap n : ℕ) (s : Reading) (index len : ℕ) (eof : Bool) (r' : StreamReassembler)
    → IsReading src cap n s
    → index + len ≤ n
    → AfterPush src s.reassembler index len eof r'
    → IsReading src cap n (record s { reassembler = r' })
AfterPush-IsReading src cap n s index len eof r' v h a = record {
  inv = a.inv;
  capacity = a.capacity ∙ v.capacity;
  within = λ i p. ground (arith, a.keeps i, v.within i);
  given = v.given ∙ slice_cong src refl (sym a.read);
}

module _ (src : ℕ → ℕ) (cap n : ℕ) (small : n + cap < 2 ^ 31) where
  push-IsReading :
      (s : Reading) (bytes : List ℕ) (index : ℕ) (eof : Bool)
      → IsReading src cap n s
      → bytes ≡ slice src index (length bytes)
      → index + length bytes ≤ n
      → (s' : Reading) × (step s (push bytes index eof) ≡ ok s') × IsReading src cap n s'
  unfolding step
  push-IsReading s bytes index eof v e h =
      let (r', q, a) = push_substring_lem src s.reassembler bytes index eof v.inv e (omega arith) in
      (
        record s { reassembler = r' },
        rw q,
        AfterPush-IsReading src cap n s index (length bytes) eof r' v h a,
      )

  pub after_read-IsReading :
      (s : Reading) (len : ℕ) → IsReading src cap n s → IsReading src cap n (after_read s len)
  after_read-IsReading s len v = record {
    inv = record {
      output = record {
        valid = pop-IsValid k o.valid (omega arith);
        capacity = o.capacity;
        window = refl;
        small = omega (arith, written_le src cap n s v, v.capacity, o.valid.counted);
        bytes =
            drop_run src out.buffer out.total_read (length out.buffer) k _ _ o.bytes (omega arith)
              refl (length-drop k out.buffer);
        chunks =
            Chunks-mono src (window r) (window (record r { output = out' })) out.written r.m
              (omega arith) o.chunks;
        count = o.count;
      };
      gap = v.inv.gap;
    };
    capacity = v.capacity;
    within = v.within;
    given =
        ap (λ l. l ++ take k out.buffer) v.given
        ∙ ap (λ l. slice src 0 out.total_read ++ l)
            (take_run src out.buffer out.total_read (length out.buffer) k k o.bytes (omega arith)
                refl
              ∙ slice_cong src (omega arith) refl)
        ∙ slice-append src 0 out.total_read k;
  }
    where
      r : StreamReassembler
      r = s.reassembler

      out : ByteStream
      out = r.output

      o : IsOutput src r.capacity (window r) out r.unassembled r.m
      o = v.inv.output

      k : ℕ
      k = available out len

      out' : ByteStream
      out' = after_pop out k

  read-IsReading :
      (s : Reading) (len : ℕ)
      → IsReading src cap n s
      → (s' : Reading) × (step s (read len) ≡ ok s') × IsReading src cap n s'
  unfolding step
  read-IsReading s len v =
      (after_read s len, rw (read_lem len v.inv.output.valid), after_read-IsReading s len v)

  run-IsReading :
      (cs : List Call) (s : Reading)
      → IsReading src cap n s
      → AllWithin src n cs
      → (s' : Reading) × (run s cs ≡ ok s') × IsReading src cap n s'
  unfolding run
  run-IsReading [] s v h = (s, refl, v)
  run-IsReading (push bytes index eof ∷ cs) s v h =
      let (s', e, v') = push-IsReading s bytes index eof v h.0.0 h.0.1 in
      let (s'', e', v'') = run-IsReading cs s' v' h.1 in
      (s'', ap (λ x. x >>= λ y. run y cs) e ∙ e', v'')
  run-IsReading (read len ∷ cs) s v h =
      let (s', e, v') = read-IsReading s len v in
      let (s'', e', v'') = run-IsReading cs s' v' h in
      (s'', ap (λ x. x >>= λ y. run y cs) e ∙ e', v'')

abbrev pub start : ℕ → Reading
start cap = record { reassembler = new cap; given = [] }

pub start-IsReading : (src : ℕ → ℕ) (cap n : ℕ) → cap < 2 ^ 31 → IsReading src cap n (start cap)
unfolding new ByteStream.new
start-IsReading src cap n h = record {
  inv = record {
    output = record {
      valid = omega arith;
      capacity = omega arith;
      window = refl;
      small = omega arith;
      bytes = refl;
      chunks = tt;
      count = refl;
    };
    gap = tt;
  };
  capacity = refl;
  within = λ i p. absurd (ground arith);
  given = refl;
}

-- Take a stream and any calls that push parts of its first n bytes, in any order and overlapping,
-- and read, on a new reassembler; n and the capacity make less than 2 ^ 31. Nothing is thrown, and
-- the reader has got, in order and once each, the first bytes of the stream.
pub run_delivers :
    (src : ℕ → ℕ) (cap n : ℕ) (cs : List Call)
    → n + cap < 2 ^ 31
    → AllWithin src n cs
    → (s : Reading) × (run (start cap) cs ≡ ok s) × IsReading src cap n s
run_delivers src cap n cs small h =
    run-IsReading src cap n small cs (start cap) (start-IsReading src cap n (omega arith)) h
