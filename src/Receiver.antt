-- ===== src/Receiver.antt =====
-- libsponge/tcp_receiver.hh and tcp_receiver.cc: the receiving half of a TCP endpoint.
pub mod Place
use cs144_me.Prelude.{
  ℕ, ◌+◌, ◌-◌, Bool, true, false, not, ◌&&◌, Option, none, some, List, ◌==◌, if◌then◌else◌,
}
use cs144_me.Prelude.Word.{add_size}
use cs144_me.Prelude.Result.{Result, ok, ◌>>=◌}
use cs144_me.ByteStream
use cs144_me.ByteStream.{ByteStream, bytes_written, input_ended, remaining_capacity}
use cs144_me.Wrapping.{WrappingInt32, wrap, unwrap}
use cs144_me.Reassembler
use cs144_me.Reassembler.{StreamReassembler, push_substring}
use cs144_me.Header.Tcp.{TcpHeader, TcpSegment}

pub record TcpReceiver : Type 0 where
  pub reassembler : StreamReassembler
  pub capacity : ℕ
  pub isn : WrappingInt32
  pub syned : Bool

unfoldable pub new : ℕ → TcpReceiver
new capacity = record {
  reassembler = Reassembler.new capacity;
  capacity = capacity;
  isn = 0;
  syned = false;
}

abbrev pub stream_out : TcpReceiver → ByteStream
stream_out r = r.reassembler.output

-- The end of segment_received: the payload goes to the reassembler at the given stream index.
unfoldable pub push_payload : TcpReceiver → TcpSegment → ℕ → Result TcpReceiver
push_payload r seg idx = do
  a ← push_substring r.reassembler seg.payload idx seg.header.fin
  ok (record r { reassembler = a })

-- A segment whose SYN the receiver has seen. One at absolute number 0 is dropped.
unfoldable pub receive_at : TcpReceiver → TcpSegment → ℕ → Result TcpReceiver
receive_at r seg abs = if abs == 0 then ok r else push_payload r seg (abs - 1)

unfoldable pub segment_received : TcpReceiver → TcpSegment → Result TcpReceiver
segment_received r seg =
    if not r.syned && not seg.header.syn
    then ok r
    else if seg.header.syn
    then push_payload (record r { isn = seg.header.seqno; syned = true }) seg 0
    else receive_at r seg (unwrap seg.header.seqno r.isn (bytes_written (stream_out r)))

unfoldable pub ackno : TcpReceiver → Option WrappingInt32
ackno r =
    if not r.syned
    then none
    else let ack : ℕ = add_size (bytes_written (stream_out r)) 1 in
      some (wrap (if input_ended (stream_out r) then add_size ack 1 else ack) r.isn)

unfoldable pub window_size : TcpReceiver → ℕ
window_size r = remaining_capacity (stream_out r)

unfoldable pub unassembled_bytes : TcpReceiver → ℕ
unassembled_bytes r = Reassembler.unassembled_bytes r.reassembler
