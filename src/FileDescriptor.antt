-- ===== src/FileDescriptor.antt =====
-- FileDescriptor of libsponge/util/file_descriptor.hh and file_descriptor.cc: the flags and counts of
-- its FDWrapper. What the kernel answers is an argument; `none` is -1.
pub mod Laws
use cs144_me.Prelude.{
  ℕ, zero, suc, ◌+◌, ◌*◌, ◌^◌, min, Bool, true, false, not, ◌&&◌, Option, none, some, List, [], ◌∷◌,
  ◌++◌, length, take, ltb, ◌==◌, if◌then◌else◌,
}
use cs144_me.Prelude.Word.{add_size, add_u32, int_of_size, size_of_int, is_negative}
use cs144_me.Prelude.Result.{Result, ok, throw, runtime_error, ◌>>=◌}
use cs144_me.Buffer.BufferViewList
use cs144_me.Buffer.BufferViewList.{BufferViewList, as_iovecs}

pub record FileDescriptor : Type 0 where
  pub eof : Bool
  pub closed : Bool
  pub read_count : ℕ
  pub write_count : ℕ

abbrev pub open_descriptor : FileDescriptor
open_descriptor = record { eof = false; closed = false; read_count = 0; write_count = 0 }

unfoldable pub register_read : FileDescriptor → FileDescriptor
register_read d = record d { read_count = add_u32 d.read_count 1 }

unfoldable pub register_write : FileDescriptor → FileDescriptor
register_write d = record d { write_count = add_u32 d.write_count 1 }

-- FDWrapper::close, once the kernel has closed it.
unfoldable pub close : FileDescriptor → FileDescriptor
close d = record d { eof = true; closed = true }

-- SystemCall: an int below 0 throws.
unfoldable pub system_call : Option ℕ → Result ℕ
system_call none = throw runtime_error
system_call (some n) =
    if is_negative (int_of_size n) then throw runtime_error else ok (size_of_int (int_of_size n))

-- BUFFER_SIZE of `read`
abbrev pub buffer_size : ℕ
buffer_size = 1024 * 1024

-- Nothing read, though something was asked for, is the end of the file.
abbrev pub mark_eof : List ℕ → FileDescriptor → ℕ → FileDescriptor
mark_eof got d limit = if ltb 0 limit && (length got == 0) then record d { eof = true } else d

-- What `read` makes of the kernel's answer, the bytes that it put into the string.
unfoldable pub read_answer : Option (List ℕ) → FileDescriptor → ℕ → Result (List ℕ × FileDescriptor)
read_answer none d limit = throw runtime_error
read_answer (some got) d limit =
    if ltb (min buffer_size limit) (length got)
    then throw runtime_error
    else ok (got, register_read (mark_eof got d limit))

-- The kernel answers to the size that it is asked for.
unfoldable pub read : (ℕ → Option (List ℕ)) → FileDescriptor → ℕ → Result (List ℕ × FileDescriptor)
read kernel d limit = read_answer (kernel (min buffer_size limit)) d limit

-- What `write` has done: its count, and the bytes that the kernel took.
pub record Written : Type 0 where
  pub total : ℕ
  pub descriptor : FileDescriptor
  pub taken : List ℕ

-- The bytes that the vector for writev shows.
abbrev pub shown : List (List ℕ × ℕ) → List ℕ
shown [] = []
shown (v ∷ l) = v.0 ++ shown l

abbrev pub taken_by : Written → BufferViewList → ℕ → Written
taken_by w views n = record {
  total = add_size w.total n;
  descriptor = register_write w.descriptor;
  taken = w.taken ++ take n (shown (as_iovecs views));
}

-- The checks on the count that the kernel returns, and what is left to write.
abbrev pub rest_of : BufferViewList → ℕ → Result BufferViewList
rest_of views n =
    if n == 0 && not (BufferViewList.size views == 0)
    then throw runtime_error
    else if ltb (BufferViewList.size views) n
    then throw runtime_error
    else BufferViewList.remove_prefix views n

-- The body of the loop, for one answer of the kernel.
unfoldable pub write_round : Written → BufferViewList → Option ℕ → Result (Written × BufferViewList)
write_round w views answer = do
  n ← system_call answer
  rest ← rest_of views n
  ok (taken_by w views n, rest)

-- `kernel i m` is the answer to the call number i of writev, for m bytes.
unfoldable pub write_loop :
    (ℕ → ℕ → Option ℕ) → Bool → ℕ → ℕ → Written → BufferViewList → Result Written
write_loop kernel write_all zero i w views = ok w
write_loop kernel write_all (suc fuel) i w views = do
  (w', rest) ← write_round w views (kernel i (BufferViewList.size views))
  let more = write_loop kernel write_all fuel (suc i) w' rest
  if write_all && not (BufferViewList.size rest == 0) then more else ok w'

-- Each round but the last takes at least one byte.
unfoldable pub write : (ℕ → ℕ → Option ℕ) → FileDescriptor → BufferViewList → Bool → Result Written
write kernel d views write_all =
    write_loop kernel write_all (suc (BufferViewList.size views)) 0
      (record { total = 0; descriptor = d; taken = [] }) views
