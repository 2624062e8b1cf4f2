-- ===== src/ByteStream.antt =====
-- libsponge/byte_stream.hh and byte_stream.cc: a bounded in-order stream of bytes. The counters and
-- the capacity are ints, so each read of one extends its sign to a size_t.
pub mod Inv
pub mod Fifo
use cs144_me.Prelude.{
  ℕ, ◌+◌, Bool, true, false, ◌&&◌, List, [], ◌++◌, length, take, drop, ltb, leb, ◌==◌,
  if◌then◌else◌,
}
use cs144_me.Prelude.Word.{add_size, sub_size, int_of_size, size_of_int}
use cs144_me.Prelude.Result.{Result, ok, throw, out_of_range, ◌>>=◌}

pub record ByteStream : Type 0 where
  pub capacity : ℕ
  pub end : Bool
  pub total_read : ℕ
  pub written : ℕ
  pub buffer : List ℕ
  pub error_flag : Bool

-- The constructor converts the size_t capacity to an int.
unfoldable pub new : ℕ → ByteStream
new cp = record {
  capacity = int_of_size cp;
  end = false;
  total_read = 0;
  written = 0;
  buffer = [];
  error_flag = false;
}

-- std::string::substr: throws past the end, and cuts the count to what is there.
unfoldable pub substr : List ℕ → ℕ → ℕ → Result (List ℕ)
substr s pos n = if ltb (length s) pos then throw out_of_range else ok (take n (drop pos s))

unfoldable pub buffer_size : ByteStream → ℕ
buffer_size s = length s.buffer

unfoldable pub buffer_empty : ByteStream → Bool
buffer_empty s = if length s.buffer == 0 then true else false

unfoldable pub input_ended : ByteStream → Bool
input_ended s = s.end

unfoldable pub eof : ByteStream → Bool
unfolding input_ended
eof s = input_ended s && (length s.buffer == 0)

unfoldable pub bytes_written : ByteStream → ℕ
bytes_written s = size_of_int s.written

unfoldable pub bytes_read : ByteStream → ℕ
bytes_read s = size_of_int s.total_read

unfoldable pub remaining_capacity : ByteStream → ℕ
remaining_capacity s = sub_size (size_of_int s.capacity) (length s.buffer)

unfoldable pub set_error : ByteStream → ByteStream
set_error s = record s { error_flag = true }

unfoldable pub error : ByteStream → Bool
error s = s.error_flag

unfoldable pub end_input : ByteStream → ByteStream
end_input s = record s { end = true }

-- `written + data.size()` is a size_t and is cut to an int; `written + count` adds two ints.
unfoldable pub write : ByteStream → List ℕ → ℕ × ByteStream
unfolding remaining_capacity
write s bytes =
    if leb (length bytes) (remaining_capacity s)
    then (
      length bytes,
      record s {
        buffer = s.buffer ++ bytes;
        written = int_of_size (add_size (size_of_int s.written) (length bytes));
      },
    )
    else let count : ℕ = int_of_size (remaining_capacity s) in
      (
        size_of_int count,
        record s {
          buffer = s.buffer ++ take (size_of_int count) bytes;
          written = int_of_size (s.written + count);
        },
      )

unfoldable pub peek_output : ByteStream → ℕ → Result (List ℕ)
unfolding substr
peek_output s len = substr s.buffer 0 len

unfoldable pub pop_output : ByteStream → ℕ → Result ByteStream
unfolding substr
pop_output s len = do
  rest ← substr s.buffer len (length s.buffer)
  ok (record s {
    buffer = rest;
    total_read = int_of_size (add_size (size_of_int s.total_read) len);
  })

-- The length that `read` asks for, an int.
unfoldable pub read_length : ByteStream → ℕ → ℕ
read_length s len =
    if ltb (length s.buffer) len then int_of_size (length s.buffer) else int_of_size len

unfoldable pub read : ByteStream → ℕ → Result (List ℕ × ByteStream)
unfolding read_length peek_output pop_output
read s len = do
  let l = size_of_int (read_length s len)
  res ← peek_output s l
  s' ← pop_output s l
  ok (res, s')
