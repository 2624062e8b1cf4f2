-- ===== src/StreamCopy.antt =====
-- apps/bidirectional_stream_copy.cc: standard input to a socket and the socket to standard output,
-- by four rules of EventLoop over two byte streams. The state has also what the program does not see:
-- the bytes still to come from standard input and from the peer, and those that the socket and
-- standard output have taken.
pub mod Flows
pub mod Copies
use cs144_me.Prelude.{
  ℕ, min, Bool, true, false, not, ◌&&◌, ◌||◌, Option, none, some, List, [], ◌∷◌, ◌++◌, length, take,
  drop, ltb, if◌then◌else◌,
}
use cs144_me.Prelude.Result.{Result, ok, ◌>>=◌}
use cs144_me.ByteStream
use cs144_me.ByteStream.{
  ByteStream, eof, buffer_empty, peek_output, pop_output, end_input, remaining_capacity,
}
use cs144_me.FileDescriptor
use cs144_me.FileDescriptor.{FileDescriptor, open_descriptor, register_write}
use cs144_me.Buffer.BufferViewList.{of_view}
use cs144_me.EventLoop.{Rule, Direction, Outcome, Poll, is_exit, wait_next_event}

-- max_copy_length and buffer_size
abbrev pub max_copy_length : ℕ
max_copy_length = 65536

abbrev pub buffer_size : ℕ
buffer_size = 1048576

-- What the system answers in one round: how many bytes a read finds, or an error, and the answers to
-- writev.
pub record Answers : Type 0 where
  pub typed : Option ℕ
  pub arrived : Option ℕ
  pub to_socket : ℕ → ℕ → Option ℕ
  pub to_output : ℕ → ℕ → Option ℕ

pub record Copy : Type 0 where
  pub input : FileDescriptor
  pub output : FileDescriptor
  pub socket : FileDescriptor
  pub outbound : ByteStream
  pub inbound : ByteStream
  pub outbound_shutdown : Bool
  pub inbound_shutdown : Bool
  pub stdin : List ℕ
  pub peer : List ℕ
  pub sent : List ℕ
  pub printed : List ℕ
  pub answers : Answers

-- The state before the loop, with all the bytes that will come.
unfoldable pub start : List ℕ → List ℕ → Answers → Copy
start stdin peer answers = record {
  input = open_descriptor;
  output = open_descriptor;
  socket = open_descriptor;
  outbound = ByteStream.new buffer_size;
  inbound = ByteStream.new buffer_size;
  outbound_shutdown = false;
  inbound_shutdown = false;
  stdin = stdin;
  peer = peer;
  sent = [];
  printed = [];
  answers = answers;
}

-- What a read of `size` bytes gets of those that come.
abbrev pub found : Option ℕ → List ℕ → ℕ → Option (List ℕ)
found none coming size = none
found (some n) coming size = some (take (min n size) coming)

-- `stream.write(descriptor.read(stream.remaining_capacity()))`, and the end of the stream.
unfoldable pub pull :
    Option ℕ → List ℕ → FileDescriptor → ByteStream → Result (List ℕ × FileDescriptor × ByteStream)
pull n coming d b = do
  (bytes, d') ← FileDescriptor.read (found n coming) d (remaining_capacity b)
  let b' = (ByteStream.write b bytes).1
  ok (drop (length bytes) coming, d', if d'.eof then end_input b' else b')

-- The bytes at the front of a stream are written, and those that were taken are popped.
unfoldable pub push :
    (ℕ → ℕ → Option ℕ) → FileDescriptor → ByteStream → Result (List ℕ × FileDescriptor × ByteStream)
push kernel d b = do
  bytes ← peek_output b (min max_copy_length (ByteStream.buffer_size b))
  w ← FileDescriptor.write kernel d (of_view bytes) false
  b' ← pop_output b w.total
  ok (w.taken, w.descriptor, b')

-- Rule 1: standard input into the outbound stream.
unfoldable pub on_input : Copy → Result Copy
on_input s = do
  (stdin, d, b) ← pull s.answers.typed s.stdin s.input s.outbound
  ok (record s { stdin = stdin; input = d; outbound = b })

unfoldable pub wants_input : Copy → Bool
wants_input s =
    not (ByteStream.error s.outbound)
    && (ltb 0 (remaining_capacity s.outbound) && not (ByteStream.error s.inbound))

-- What cancels rules 1 and 2, and what cancels rules 3 and 4.
unfoldable pub end_outbound : Copy → Result Copy
end_outbound s = ok (record s { outbound = end_input s.outbound })

unfoldable pub end_inbound : Copy → Result Copy
end_inbound s = ok (record s { inbound = end_input s.inbound })

-- Rule 2: the outbound stream into the socket, which is shut down at the end. The shutdown counts as
-- a write.
unfoldable pub on_socket_out : Copy → Result Copy
on_socket_out s = do
  (bytes, d, b) ← push s.answers.to_socket s.socket s.outbound
  ok (record s {
    sent = s.sent ++ bytes;
    socket = if eof b then register_write d else d;
    outbound = b;
    outbound_shutdown = if eof b then true else s.outbound_shutdown;
  })

unfoldable pub wants_socket_out : Copy → Bool
wants_socket_out s = not (buffer_empty s.outbound) || (eof s.outbound && not s.outbound_shutdown)

-- Rule 3: the socket into the inbound stream.
unfoldable pub on_socket_in : Copy → Result Copy
on_socket_in s = do
  (peer, d, b) ← pull s.answers.arrived s.peer s.socket s.inbound
  ok (record s { peer = peer; socket = d; inbound = b })

unfoldable pub wants_socket_in : Copy → Bool
wants_socket_in s =
    not (ByteStream.error s.inbound)
    && (ltb 0 (remaining_capacity s.inbound) && not (ByteStream.error s.outbound))

-- Rule 4: the inbound stream into standard output, which is closed at the end.
unfoldable pub on_output : Copy → Result Copy
on_output s = do
  (bytes, d, b) ← push s.answers.to_output s.output s.inbound
  ok (record s {
    printed = s.printed ++ bytes;
    output = if eof b then FileDescriptor.close d else d;
    inbound = b;
    inbound_shutdown = if eof b then true else s.inbound_shutdown;
  })

unfoldable pub wants_output : Copy → Bool
wants_output s = not (buffer_empty s.inbound) || (eof s.inbound && not s.inbound_shutdown)

abbrev pub input_rule : Rule Copy
input_rule = record {
  fd = λ s. s.input;
  direction = Direction.in_dir;
  callback = on_input;
  interest = wants_input;
  cancel = end_outbound;
}

abbrev pub socket_out_rule : Rule Copy
socket_out_rule = record {
  fd = λ s. s.socket;
  direction = Direction.out_dir;
  callback = on_socket_out;
  interest = wants_socket_out;
  cancel = end_outbound;
}

abbrev pub socket_in_rule : Rule Copy
socket_in_rule = record {
  fd = λ s. s.socket;
  direction = Direction.in_dir;
  callback = on_socket_in;
  interest = wants_socket_in;
  cancel = end_inbound;
}

abbrev pub output_rule : Rule Copy
output_rule = record {
  fd = λ s. s.output;
  direction = Direction.out_dir;
  callback = on_output;
  interest = wants_output;
  cancel = end_inbound;
}

unfoldable pub rules : List (Rule Copy)
rules = input_rule ∷ socket_out_rule ∷ socket_in_rule ∷ output_rule ∷ []

-- The loop, for as many rounds as the system answers: has it returned, and the state.
unfoldable pub copy_loop : List (Poll × Answers) → List (Rule Copy) → Copy → Result (Bool × Copy)
copy_loop [] left s = ok (false, s)
copy_loop ((poll, answers) ∷ rounds) left s = do
  (outcome, left', s') ← wait_next_event (record s { answers = answers }) left poll
  let rest = copy_loop rounds left' s'
  if is_exit outcome then ok (true, s') else rest

unfoldable pub bidirectional_stream_copy :
    List ℕ → List ℕ → Answers → List (Poll × Answers) → Result (Bool × Copy)
bidirectional_stream_copy stdin peer answers rounds =
    copy_loop rounds rules (start stdin peer answers)
