-- ===== src/ByteStream/Fifo.antt =====
-- ByteStream of libsponge/byte_stream.cc beside a queue that remembers every byte that its writer put
-- in and that its reader got.
use cs144_me.Prelude.{
  ℕ, ◌+◌, ◌^◌, ◌≤◌, ◌<◌, ◌≡◌, refl, ap, sym, ◌∙◌, List, [], ◌∷◌, ◌++◌, length, take, drop,
  length-append, length-take, take-append-drop, append_assoc, arith,
}
use cs144_me.Prelude.Result.{Result, ok, ◌>>=◌}
use cs144_me.ByteStream.{ByteStream, new, write, read, end_input}
use cs144_me.ByteStream.Inv.{
  IsValid, accepted, after_write, write_lem, write-IsValid, available, after_pop, read_lem,
  pop-IsValid, new-IsValid,
}

-- A call of the writer or of the reader.
pub data Op : Type 0 where
  put : List ℕ → Op
  get : ℕ → Op
  close : Op

-- A stream with the bytes that it took and the bytes that it gave, in the order of the calls.
pub record Trace : Type 0 where
  pub stream : ByteStream
  pub taken : List ℕ
  pub given : List ℕ

unfoldable pub step : Trace → Op → Result Trace
step t (put bytes) =
    let (n, s) = write t.stream bytes in
    ok (record t { stream = s; taken = t.taken ++ take n bytes })
step t (get len) = do
  (res, s) ← read t.stream len
  ok (record t { stream = s; given = t.given ++ res })
step t close = ok (record t { stream = end_input t.stream })

unfoldable pub run : Trace → List Op → Result Trace
run t [] = ok t
run t (op ∷ ops) = step t op >>= λ t'. run t' ops

-- The most that the calls can put in.
abbrev pub offered : List Op → ℕ
offered [] = 0
offered (put bytes ∷ ops) = length bytes + offered ops
offered (get len ∷ ops) = offered ops
offered (close ∷ ops) = offered ops

abbrev pub start : ℕ → Trace
start cp = record { stream = new cp; taken = []; given = [] }

-- The state of the queue that the trace refines.
pub record Fifo (t : Trace) : Type 0 where
  pub valid : IsValid t.stream
  pub order : t.taken ≡ t.given ++ t.stream.buffer
  pub written : t.stream.written ≡ length t.taken
  pub read : t.stream.total_read ≡ length t.given

step-Fifo :
    {t : Trace} (op : Op)
    → Fifo t
    → t.stream.written + offered (op ∷ []) < 2 ^ 31
    → (t' : Trace) × (step t op ≡ ok t')
      × Fifo t'
      × (t'.stream.written ≤ t.stream.written + offered (op ∷ []))
unfolding step end_input
step-Fifo {t} (put bytes) v h = (
  record t { stream = after_write s bytes; taken = t.taken ++ took },
  ground (arith, write_lem bytes v.valid),
  record {
    valid = write-IsValid bytes v.valid (omega arith);
    order = ap (λ l. l ++ took) v.order ∙ append_assoc t.given s.buffer took;
    written =
        omega (arith, v.written, length-append t.taken took, length-take (accepted s bytes) bytes);
    read = v.read;
  },
  omega arith,
)
  where
    s : ByteStream
    s = t.stream

    took : List ℕ
    took = take (accepted s bytes) bytes
step-Fifo {t} (get len) v h = (
  record t { stream = after_pop s n; given = t.given ++ take n s.buffer },
  ground (arith, read_lem len v.valid),
  record {
    valid = pop-IsValid n v.valid (omega arith);
    order =
        v.order
        ∙ ap (λ l. t.given ++ l) (sym (take-append-drop n s.buffer))
        ∙ sym (append_assoc t.given (take n s.buffer) (drop n s.buffer));
    written = v.written;
    read = omega (arith, v.read, length-append t.given (take n s.buffer), length-take n s.buffer);
  },
  omega arith,
)
  where
    s : ByteStream
    s = t.stream

    n : ℕ
    n = available s len
step-Fifo {t} close v h = (
  record t { stream = end_input t.stream },
  refl,
  record {
    valid = record {
      small = v.valid.small;
      fits = v.valid.fits;
      counted = v.valid.counted;
      no_wrap = v.valid.no_wrap;
    };
    order = v.order;
    written = v.written;
    read = v.read;
  },
  omega arith,
)

offered-cons : (op : Op) (ops : List Op) → offered (op ∷ ops) ≡ offered (op ∷ []) + offered ops
offered-cons (put bytes) ops = omega arith
offered-cons (get len) ops = omega arith
offered-cons close ops = omega arith

run-Fifo_from :
    (ops : List Op) {t : Trace}
    → Fifo t
    → t.stream.written + offered ops < 2 ^ 31
    → (t' : Trace) × (run t ops ≡ ok t') × Fifo t'
unfolding run
run-Fifo_from [] {t} v h = (t, refl, v)
run-Fifo_from (op ∷ ops) {t} v h =
    let (t', e, v', w) = step-Fifo {t = t} op v (omega (arith, offered-cons op ops)) in
    let (t'', e', v'') = run-Fifo_from ops {t = t'} v' (omega (arith, offered-cons op ops)) in
    (t'', ap (λ r. r >>= λ x. run x ops) e ∙ e', v'')

-- Any calls on a new stream whose capacity is below 2 ^ 31, putting in fewer than 2 ^ 31 bytes in
-- all, throw nothing; the bytes taken are those given to the reader followed by those still
-- buffered, in order, the buffer is within the capacity, and the two counters are the lengths.
pub run-Fifo :
    (cp : ℕ) (ops : List Op)
    → cp < 2 ^ 31
    → offered ops < 2 ^ 31
    → (t : Trace) × (run (start cp) ops ≡ ok t) × Fifo t
unfolding new
run-Fifo cp ops h o =
    run-Fifo_from ops
      (record { valid = new-IsValid cp h; order = refl; written = refl; read = refl }) (omega arith)
