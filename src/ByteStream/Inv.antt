-- ===== src/ByteStream/Inv.antt =====
-- The well-formed states of ByteStream of libsponge/byte_stream.cc, and each operation on them.
use cs144_me.Prelude.{
  ℕ, ◌+◌, ◌-◌, ◌^◌, ◌≤◌, ◌<◌, ◌≡◌, min, List, ◌++◌, length, take, drop, leb, length-append,
  length-take, length-drop, take_all, Bool-cases, arith, inl, inr,
}
use cs144_me.Prelude.Result.{ok, throw, out_of_range}
use cs144_me.Prelude.Word.{size_of_int}
use cs144_me.ByteStream.{
  buffer_size, peek_output, ByteStream, new, substr, write, read, read_length, peek_output,
  pop_output, remaining_capacity, bytes_written, bytes_read,
}

pub record IsValid (s : ByteStream) : Type 0 where
  pub small : s.capacity < 2 ^ 31
  pub fits : length s.buffer ≤ s.capacity
  pub counted : s.written ≡ s.total_read + length s.buffer
  pub no_wrap : s.written < 2 ^ 31

pub new-IsValid : (cp : ℕ) → cp < 2 ^ 31 → IsValid (new cp)
unfolding new
new-IsValid cp h = omega arith

pub remaining_capacity_lem :
    {s : ByteStream} → IsValid s → remaining_capacity s ≡ s.capacity - length s.buffer
unfolding remaining_capacity
remaining_capacity_lem v = ground arith

pub bytes_written_lem : {s : ByteStream} → IsValid s → bytes_written s ≡ s.written
unfolding bytes_written
bytes_written_lem v = ground arith

pub bytes_read_lem : {s : ByteStream} → IsValid s → bytes_read s ≡ s.total_read
unfolding bytes_read
bytes_read_lem v = ground arith

-- The bytes that a write of `bytes` takes.
abbrev pub accepted : ByteStream → List ℕ → ℕ
accepted s bytes = min (length bytes) (s.capacity - length s.buffer)

-- The state after a write that took n bytes.
abbrev pub after_write : ByteStream → List ℕ → ByteStream
after_write s bytes = record s {
  buffer = s.buffer ++ take (accepted s bytes) bytes;
  written = s.written + accepted s bytes;
}

pub write_lem :
    {s : ByteStream} (bytes : List ℕ)
    → IsValid s
    → s.written + accepted s bytes < 2 ^ 31
    → write s bytes ≡ (accepted s bytes, after_write s bytes)
unfolding write
write_lem {s} bytes v h = elim (Bool-cases (leb (length bytes) (remaining_capacity s))) [
  | inl e ↦ ground (arith, remaining_capacity_lem v, take_all (accepted s bytes) bytes)
  | inr e ↦ ground (arith, remaining_capacity_lem v)
]

pub write-IsValid :
    {s : ByteStream} (bytes : List ℕ)
    → IsValid s
    → s.written + accepted s bytes < 2 ^ 31
    → IsValid (after_write s bytes)
write-IsValid {s} bytes v h = omega (
  arith,
  length-append s.buffer (take (accepted s bytes) bytes),
  length-take (accepted s bytes) bytes,
)

-- The bytes that a read of `len` gives.
abbrev pub available : ByteStream → ℕ → ℕ
available s len = min len (length s.buffer)

abbrev pub after_pop : ByteStream → ℕ → ByteStream
after_pop s n = record s { buffer = drop n s.buffer; total_read = s.total_read + n }

pub pop_output_lem :
    {s : ByteStream} (len : ℕ)
    → IsValid s
    → len ≤ length s.buffer
    → pop_output s len ≡ ok (after_pop s len)
unfolding pop_output substr
pop_output_lem {s} len v h =
    ground (arith, take_all (length s.buffer) (drop len s.buffer), length-drop len s.buffer)

pub pop-IsValid :
    {s : ByteStream} (len : ℕ) → IsValid s → len ≤ length s.buffer → IsValid (after_pop s len)
pop-IsValid {s} len v h = omega (arith, length-drop len s.buffer)

pub pop_output_throws :
    (s : ByteStream) (len : ℕ) → length s.buffer < len → pop_output s len ≡ throw out_of_range
unfolding pop_output substr
pop_output_throws s len h = ground arith

read_length_lem :
    {s : ByteStream} (len : ℕ) → IsValid s → size_of_int (read_length s len) ≡ available s len
unfolding read_length
read_length_lem {s} len v = ground arith

pub read_lem :
    {s : ByteStream} (len : ℕ)
    → IsValid s
    → read s len ≡ ok (take (available s len) s.buffer, after_pop s (available s len))
unfolding read peek_output substr
read_lem {s} len v =
    ground (arith, read_length_lem {s = s} len v, pop_output_lem (available s len) v)

-- A write that fits is taken whole.
pub write_fits :
    {s : ByteStream} (bytes : List ℕ)
    → IsValid s
    → length bytes + length s.buffer ≤ s.capacity
    → s.written + length bytes < 2 ^ 31
    → write s bytes
      ≡ (length bytes, record s { buffer = s.buffer ++ bytes; written = s.written + length bytes })
write_fits {s} bytes v h k = ground (arith, write_lem bytes v, take_all (accepted s bytes) bytes)

-- A peek at no more than the stream has.
pub peek_lem :
    (s : ByteStream) (limit : ℕ)
    → peek_output s (min limit (buffer_size s)) ≡ ok (take (min limit (length s.buffer)) s.buffer)
unfolding peek_output substr buffer_size
peek_lem s limit = ground arith
