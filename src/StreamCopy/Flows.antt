-- ===== src/StreamCopy/Flows.antt =====
-- The two halves of a copy in apps/bidirectional_stream_copy.cc: bytes into a stream and out of it.
use cs144_me.Prelude.{
  ℕ, ◌+◌, ◌^◌, ◌≤◌, ◌<◌, ◌≡◌, min, refl, ap, sym, ◌∙◌, Bool, true, false, Option, none, some, List,
  [], ◌∷◌, ◌++◌, length, take, drop, ltb, if◌then◌else◌, length-append, length-take, take-take,
  zero, suc, append_assoc, append-nil, take-append-drop, arith,
}
use cs144_me.Prelude.Result.{
  Result, ok, throw, runtime_error, ◌>>=◌, IfOk, IfOk-bind, any_ok, if-both,
}
use cs144_me.ByteStream
use cs144_me.ByteStream.{ByteStream, peek_output, pop_output, end_input, remaining_capacity}
use cs144_me.ByteStream.Inv.{
  IsValid, after_pop, pop_output_lem, pop-IsValid, peek_lem, remaining_capacity_lem, write_fits,
}
use cs144_me.FileDescriptor
use cs144_me.FileDescriptor.{
  FileDescriptor, Written, read, read_answer, write, write_loop, write_round, rest_of, system_call,
}
use cs144_me.Buffer.BufferViewList
use cs144_me.Buffer.BufferViewList.{of_view}
use cs144_me.StreamCopy.{max_copy_length, pull, push, found}

-- The bytes gone out of a stream, those in it and those to come make up `total`.
pub record IsFlow (total gone : List ℕ) (b : ByteStream) (coming : List ℕ) : Type 0 where
  pub valid : IsValid b
  pub read : b.total_read ≡ length gone
  pub whole : gone ++ (b.buffer ++ coming) ≡ total

-- Bytes at the front of those to come go into the stream.
fill_lem :
    {total gone coming : List ℕ} {b : ByteStream} (bytes rest : List ℕ)
    → length total < 2 ^ 31
    → IsFlow total gone b coming
    → bytes ++ rest ≡ coming
    → length bytes + length b.buffer ≤ b.capacity
    → IsFlow total gone (ByteStream.write b bytes).1 rest
fill_lem {total} {gone} {coming} {b} bytes rest small f e h =
    rw (write_fits bytes f.valid h room) (record {
      valid = omega (arith, f.valid, room, length-append b.buffer bytes);
      read = f.read;
      whole =
          ap (λ l. gone ++ l) (append_assoc b.buffer bytes rest ∙ ap (λ l. b.buffer ++ l) e)
          ∙ f.whole;
    })
  where
    sizes : length gone + (length b.buffer + (length bytes + length rest)) ≡ length total
    sizes = omega (
      arith,
      ap length f.whole,
      ap length e,
      length-append gone (b.buffer ++ coming),
      length-append b.buffer coming,
      length-append bytes rest,
    )

    room : b.written + length bytes < 2 ^ 31
    room = omega (arith, sizes, f.read, f.valid.counted)

pop_lem :
    {total gone coming : List ℕ} {b : ByteStream} (n : ℕ)
    → IsFlow total gone b coming
    → n ≤ length b.buffer
    → IsFlow total (gone ++ take n b.buffer) (after_pop b n) coming
pop_lem {total} {gone} {coming} {b} n f h = record {
  valid = pop-IsValid n f.valid h;
  read = omega (arith, f.read, length-append gone (take n b.buffer), length-take n b.buffer);
  whole =
      append_assoc gone (take n b.buffer) _
      ∙ ap (λ l. gone ++ l)
          (sym (append_assoc (take n b.buffer) (drop n b.buffer) coming)
            ∙ ap (λ l. l ++ coming) (take-append-drop n b.buffer))
      ∙ f.whole;
}

pub end-IsFlow :
    {total gone coming : List ℕ} {b : ByteStream} (ended : Bool)
    → IsFlow total gone b coming
    → IsFlow total gone (if ended then end_input b else b) coming
unfolding end_input
end-IsFlow true f = record { valid = omega (arith, f.valid); read = f.read; whole = f.whole }
end-IsFlow false f = f

-- What a read finds, and what it leaves.
abbrev IsFound : List ℕ → ℕ → List ℕ → Type 0
IsFound coming limit bytes = (bytes ++ drop (length bytes) coming ≡ coming) × (length bytes ≤ limit)

take-IsFound :
    (n : ℕ) (coming : List ℕ) → take n coming ++ drop (length (take n coming)) coming ≡ coming
take-IsFound zero coming = refl
take-IsFound (suc n) [] = refl
take-IsFound (suc n) (x ∷ xs) = ap (λ l. x ∷ l) (take-IsFound n xs)

read_lem :
    (n : Option ℕ) (coming : List ℕ) (d : FileDescriptor) (limit : ℕ)
    → IfOk (λ x. IsFound coming limit x.0) (read (found n coming) d limit)
unfolding read read_answer
read_lem none coming d limit = tt
read_lem (some n) coming d limit =
    if-both (IfOk (λ x. IsFound coming limit x.0)) _ (throw runtime_error) (ok _) tt (
      take-IsFound (min n (min FileDescriptor.buffer_size limit)) coming,
      omega (arith, length-take (min n (min FileDescriptor.buffer_size limit)) coming),
    )

-- A pull keeps the flow.
pub pull-IsFlow :
    {total gone : List ℕ} (n : Option ℕ) (coming : List ℕ) (d : FileDescriptor) (b : ByteStream)
    → length total < 2 ^ 31
    → IsFlow total gone b coming
    → IfOk (λ x. IsFlow total gone x.2 x.0) (pull n coming d b)
unfolding pull
pull-IsFlow {total} {gone} n coming d b small f =
    IfOk-bind (λ x. IsFound coming (remaining_capacity b) x.0) (λ x. IsFlow total gone x.2 x.0)
      (read (found n coming) d (remaining_capacity b)) _
      (read_lem n coming d (remaining_capacity b))
      (λ x k. end-IsFlow x.1.eof (
        fill_lem x.0 (drop (length x.0) coming) small f k.0
          (omega (arith, k.1, remaining_capacity_lem f.valid, f.valid.fits))))

-- What one call of writev takes.
abbrev IsTaken : List ℕ → Written → Type 0
IsTaken bytes w = (n : ℕ) × (n ≤ length bytes) × (w.total ≡ n) × (w.taken ≡ take n bytes)

always : {A : Type 0} {P : Type 0} (m : Result A) → P → IfOk (λ a. P) m
always (throw e) p = tt
always (ok a) p = p

tested :
    {A : Type 0} {P : Type 0} (b : Bool) (m : Result A)
    → (b ≡ false → P)
    → IfOk (λ a. P) (if b then throw runtime_error else m)
tested true m h = tt
tested false m h = always m (h refl)

rest_lem : (bytes : List ℕ) (n : ℕ) → IfOk (λ rest. n ≤ length bytes) (rest_of (of_view bytes) n)
unfolding BufferViewList.size
rest_lem bytes n =
    if-both (IfOk (λ (rest : BufferViewList.BufferViewList). n ≤ length bytes)) _
      (throw runtime_error) _ tt
      (tested (ltb (length bytes + 0) n) (BufferViewList.remove_prefix (of_view bytes) n)
        (λ h. ground arith))

taken_lem :
    (kernel : ℕ → ℕ → Option ℕ) (d : FileDescriptor) (bytes : List ℕ)
    → length bytes < 2 ^ 31
    → IfOk (IsTaken bytes) (write kernel d (of_view bytes) false)
unfolding write write_loop write_round BufferViewList.as_iovecs
taken_lem kernel d bytes small =
    IfOk-bind (λ (x : Written × BufferViewList.BufferViewList). IsTaken bytes x.0) (IsTaken bytes)
      (write_round start (of_view bytes) answer) _
      (IfOk-bind (λ (n : ℕ). Unit {0})
        (λ (x : Written × BufferViewList.BufferViewList). IsTaken bytes x.0) (system_call answer) _
        (any_ok (system_call answer))
        (λ n u.
          IfOk-bind (λ (rest : BufferViewList.BufferViewList). n ≤ length bytes)
            (λ (x : Written × BufferViewList.BufferViewList). IsTaken bytes x.0)
            (rest_of (of_view bytes) n) _ (rest_lem bytes n)
            (λ rest h. (n, h, omega arith, ap (take n) (append-nil bytes)))))
      (λ x p. p)
  where
    start : Written
    start = record { total = 0; descriptor = d; taken = [] }

    answer : Option ℕ
    answer = kernel 0 (BufferViewList.size (of_view bytes))

-- A push moves bytes out of the stream.
pub push-IsFlow :
    {total gone coming : List ℕ} (kernel : ℕ → ℕ → Option ℕ) (d : FileDescriptor) (b : ByteStream)
    → IsFlow total gone b coming
    → IfOk (λ x. IsFlow total (gone ++ x.0) x.2 coming) (push kernel d b)
unfolding push
push-IsFlow {total} {gone} {coming} kernel d b f = rw (peek_lem b max_copy_length) (
    IfOk-bind (IsTaken bytes) moved (write kernel d (of_view bytes) false) _
      (taken_lem kernel d bytes (omega (arith, length-take m b.buffer)))
      (λ w t. popped w t.0 (omega (arith, t.1, length-take m b.buffer)) t.2 t.3))
  where
    m : ℕ
    m = min max_copy_length (length b.buffer)

    bytes : List ℕ
    bytes = take m b.buffer

    moved : List ℕ × FileDescriptor × ByteStream → Type 0
    moved x = IsFlow total (gone ++ x.0) x.2 coming

    popped :
        (w : Written) (n : ℕ)
        → n ≤ m
        → w.total ≡ n
        → w.taken ≡ take n bytes
        → IfOk moved (pop_output b w.total >>= λ b'. ok (w.taken, w.descriptor, b'))
    popped w n h e t =
        rw (e, t, pop_output_lem n f.valid (omega (arith, h)), take-take n m b.buffer h)
          (pop_lem n f (omega (arith, h)))
