-- ===== src/Channel.antt =====
-- One direction of a connection: the TCPSender of libsponge/tcp_sender.cc at one end and the
-- TCPReceiver of libsponge/tcp_receiver.cc at the other, with a network between them that may lose,
-- repeat, delay and reorder what they send.
pub mod Carry
pub mod Filling
pub mod Probing
pub mod Sending
pub mod Receiving
pub mod Acks
pub mod Delivery
pub mod Flow
pub mod Kept
use cs144_me.Prelude.{
  ℕ, ◌+◌, Bool, true, false, Option, none, some, List, [], ◌∷◌, ◌++◌, get_elem?, length,
  if◌then◌else◌,
}
use cs144_me.Prelude.Result.{Result, ok, ◌>>=◌}
use cs144_me.ByteStream
use cs144_me.ByteStream.{input_ended, end_input}
use cs144_me.Wrapping.{WrappingInt32}
use cs144_me.Reassembler.Slice.{slice}
use cs144_me.Sender
use cs144_me.Sender.{TcpSender, fill_window, ack_received, tick}
use cs144_me.Receiver
use cs144_me.Receiver.{TcpReceiver, segment_received, ackno, window_size, stream_out}
use cs144_me.Connection.{stamp}
use cs144_me.Header.Tcp.{TcpHeader, TcpSegment, empty_segment}

-- The two ends, what the reader got, and all that was ever sent each way. Nothing leaves the two
-- lists: an event may deliver any of it, in any order, any number of times or never.
pub record Net : Type 0 where
  pub sender : TcpSender
  pub receiver : TcpReceiver
  pub given : List ℕ
  pub wire : List TcpSegment
  pub acks : List TcpSegment

pub data Event : Type 0 where
  -- The application at the sender offers the next bytes, or ends the stream.
  put : ℕ → Event
  close : Event
  -- The sender fills the window; milliseconds pass.
  send : Event
  pass : ℕ → Event
  -- The receiver acknowledges; an acknowledgment, or a segment, reaches the other end.
  reply : Event
  ack : ℕ → Event
  deliver : ℕ → Event
  -- The application at the receiver reads.
  read : ℕ → Event

-- The queue of the sender goes to the network.
abbrev pub flush : Net → TcpSender → Net
flush net s = record net {
  sender = record s { segments_out = [] };
  wire = net.wire ++ s.segments_out;
}

-- The next `count` bytes of the stream go to the sender, which takes those that fit.
abbrev pub offer : (ℕ → ℕ) → TcpSender → ℕ → TcpSender
offer src s count =
    if input_ended s.stream
    then s
    else record s { stream = (ByteStream.write s.stream (slice src s.stream.written count)).1 }

abbrev pub ended : TcpSender → TcpSender
ended s = record s { stream = end_input s.stream }

abbrev pub acked : TcpSender → Option TcpSegment → TcpSender
acked s none = s
acked s (some seg) = ack_received s seg.header.ackno seg.header.win

abbrev pub arrive : TcpReceiver → Option TcpSegment → Result TcpReceiver
arrive r none = ok r
arrive r (some seg) = segment_received r seg

abbrev pub answer : List TcpSegment → TcpReceiver → Option WrappingInt32 → List TcpSegment
answer acks r none = acks
answer acks r (some n) = acks ++ (stamp (some n) (window_size r) empty_segment ∷ [])

-- The bytes of the stream are `src 0`, `src 1` and so on.
unfoldable pub step : (ℕ → ℕ) → Net → Event → Result Net
step src net (put count) = ok (record net { sender = offer src net.sender count })
step src net close = ok (record net { sender = ended net.sender })
step src net send = do s ← fill_window net.sender; ok (flush net s)
step src net (pass ms) = ok (flush net (tick net.sender ms))
step src net reply = ok (record net { acks = answer net.acks net.receiver (ackno net.receiver) })
step src net (ack i) = ok (record net { sender = acked net.sender (get_elem? net.acks i) })
step src net (deliver i) = do
  r ← arrive net.receiver (get_elem? net.wire i)
  ok (record net { receiver = r })
step src net (read len) = do
  (bytes, out) ← ByteStream.read (stream_out net.receiver) len
  ok (record net {
    receiver = record (net.receiver) {
      reassembler = record (net.receiver.reassembler) { output = out };
    };
    given = net.given ++ bytes;
  })

unfoldable pub run : (ℕ → ℕ) → Net → List Event → Result Net
run src net [] = ok net
run src net (e ∷ es) = step src net e >>= λ net'. run src net' es

-- New ends, with the initial sequence number of the sender.
abbrev pub start : WrappingInt32 → ℕ → ℕ → ℕ → Net
start isn timeout send_capacity recv_capacity = record {
  sender = Sender.new send_capacity timeout isn;
  receiver = Receiver.new recv_capacity;
  given = [];
  wire = [];
  acks = [];
}

-- The bytes that one event offers, and all that the events offer.
abbrev pub adds : Event → ℕ
adds (put count) = count
adds _ = 0

abbrev pub offered : List Event → ℕ
offered [] = 0
offered (e ∷ es) = adds e + offered es
