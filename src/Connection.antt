-- ===== src/Connection.antt =====
-- libsponge/tcp_connection.hh and tcp_connection.cc: a TCP endpoint, made of a sender and a receiver.
pub mod Flush
pub mod Stages
pub mod Open
pub mod Handshake
pub mod Opening
pub mod Linger
pub mod GiveUp
pub mod Closing
pub mod Shutdown
pub mod Fins
use cs144_me.Prelude.{
  ℕ, ◌+◌, ◌*◌, ◌%◌, ◌^◌, Bool, true, false, not, ◌&&◌, ◌||◌, Option, none, some, List, [], ◌++◌,
  map, ltb, leb, ◌==◌, if◌then◌else◌,
}
use cs144_me.Prelude.Word.{add_size}
use cs144_me.Prelude.Result.{Result, ok, ◌>>=◌}
use cs144_me.ByteStream
use cs144_me.ByteStream.{
  ByteStream, bytes_written, eof, input_ended, set_error, end_input, remaining_capacity,
}
use cs144_me.Wrapping
use cs144_me.Wrapping.{WrappingInt32}
use cs144_me.Header.Tcp.{TcpHeader, TcpSegment, length_in_sequence_space}
use cs144_me.Receiver
use cs144_me.Receiver.{TcpReceiver, stream_out, window_size}
use cs144_me.Sender
use cs144_me.Sender.{
  TcpSender, fill_window, ack_received, send_empty_segment, send_empty_segment_rst,
  consecutive_retransmissions, is_empty,
}
use cs144_me.TcpState
use cs144_me.TcpState.{TcpState, has_value}

-- TCPConfig of tcp_helpers/tcp_config.hh; `isn` is the fixed one, or what the random device gave.
pub record TcpConfig : Type 0 where
  pub rt_timeout : ℕ
  pub recv_capacity : ℕ
  pub send_capacity : ℕ
  pub isn : WrappingInt32

-- TCPConfig::MAX_RETX_ATTEMPTS
abbrev pub max_retx_attempts : ℕ
max_retx_attempts = 8

pub record TcpConnection : Type 0 where
  pub cfg : TcpConfig
  pub receiver : TcpReceiver
  pub sender : TcpSender
  pub segments_out : List TcpSegment
  pub linger : Bool
  pub time_since_last_segment_received : ℕ
  pub active : Bool
  pub since_time_wait : ℕ

unfoldable pub new : TcpConfig → TcpConnection
new cfg = record {
  cfg = cfg;
  receiver = Receiver.new cfg.recv_capacity;
  sender = Sender.new cfg.send_capacity cfg.rt_timeout cfg.isn;
  segments_out = [];
  linger = true;
  time_since_last_segment_received = 0;
  active = true;
  since_time_wait = 0;
}

unfoldable pub remaining_outbound_capacity : TcpConnection → ℕ
remaining_outbound_capacity c = remaining_capacity c.sender.stream

unfoldable pub bytes_in_flight : TcpConnection → ℕ
bytes_in_flight c = Sender.bytes_in_flight c.sender

unfoldable pub unassembled_bytes : TcpConnection → ℕ
unassembled_bytes c = Receiver.unassembled_bytes c.receiver

unfoldable pub state : TcpConnection → TcpState
state c = TcpState.of_parts c.sender c.receiver c.active c.linger

-- A segment with the acknowledgment and the window, if the receiver has a number to acknowledge.
-- The window is cut to the uint16_t of the header.
unfoldable pub stamp : Option WrappingInt32 → ℕ → TcpSegment → TcpSegment
stamp none window seg = seg
stamp (some ackno) window seg = record seg {
  header = record (seg.header) { ack = true; ackno = ackno; win = window % 2 ^ 16 };
}

-- seg_2_seg: moves the sender's queue to the connection's.
unfoldable pub seg_2_seg : TcpConnection → TcpConnection
seg_2_seg c = record c {
  sender = record (c.sender) { segments_out = [] };
  segments_out =
      c.segments_out
      ++ map (stamp (Receiver.ackno c.receiver) (window_size c.receiver)) c.sender.segments_out;
}

-- Both streams in error.
abbrev pub fail_streams : TcpConnection → TcpConnection
fail_streams c = record c {
  sender = record (c.sender) { stream = set_error c.sender.stream };
  receiver = record (c.receiver) {
    reassembler = record (c.receiver.reassembler) { output = set_error (stream_out c.receiver) };
  };
}

-- Has the sender not yet sent its FIN?
abbrev pub fin_pending : TcpSender → Bool
fin_pending s = not (eof s.stream) || ltb s.next_seqno (add_size (bytes_written s.stream) 2)

abbrev pub fill : TcpConnection → Result TcpConnection
fill c = do s ← fill_window c.sender; ok (record c { sender = s })

-- `if (_sender.segments_out().empty()) _sender.send_empty_segment();`
unfoldable pub answer : TcpConnection → TcpConnection
answer c =
    if is_empty c.sender.segments_out then record c { sender = send_empty_segment c.sender } else c

-- Is the segment a keep-alive, one before the acknowledged number?
unfoldable pub is_keep_alive : Option WrappingInt32 → TcpSegment → Bool
is_keep_alive none seg = false
is_keep_alive (some ackno) seg =
    length_in_sequence_space seg == 0 && Wrapping.equal seg.header.seqno (Wrapping.minus ackno 1)

unfoldable pub take_ack : TcpConnection → TcpHeader → Result TcpConnection
take_ack c h =
    if h.ack then fill (record c { sender = ack_received c.sender h.ackno h.win }) else ok c

unfoldable pub answer_syn : TcpConnection → Result TcpConnection
answer_syn c =
    if c.sender.next_seqno == 0 && has_value (Receiver.ackno c.receiver) then fill c else ok c

-- The rest of segment_received: a segment that is neither dropped nor a reset.
unfoldable pub accept_segment : TcpConnection → TcpSegment → Result TcpConnection
accept_segment c seg = do
  let c1 = if seg.header.fin && fin_pending c.sender then record c { linger = false } else c
  r ← Receiver.segment_received c1.receiver seg
  c2 ← take_ack (record c1 { receiver = r }) seg.header
  c3 ← answer_syn c2
  let c4 = if ltb 0 (length_in_sequence_space seg) then answer c3 else c3
  let c5 = if is_keep_alive (Receiver.ackno c4.receiver) seg then answer c4 else c4
  ok (seg_2_seg c5)

unfoldable pub segment_received : TcpConnection → TcpSegment → Result TcpConnection
segment_received c seg =
    let c0 : TcpConnection = record c { time_since_last_segment_received = 0 } in
    let accepted = accept_segment c0 seg in
    if c.sender.next_seqno == 0 && seg.header.ack
    then ok c0
    else if seg.header.rst
    then ok (record (fail_streams c0) { active = false; linger = false })
    else accepted

unfoldable pub write : TcpConnection → List ℕ → Result (ℕ × TcpConnection)
write c bytes = do
  let written = ByteStream.write c.sender.stream bytes
  c' ← fill (record c { sender = record (c.sender) { stream = written.1 } })
  ok (written.0, seg_2_seg c')

-- The branch of tick that gives up after too many retransmissions.
unfoldable pub give_up : TcpConnection → TcpConnection
give_up c =
    record (fail_streams (
      seg_2_seg (record c {
        active = false;
        sender = send_empty_segment_rst (record (c.sender) { segments_out = [] });
        segments_out = [];
      }))) { linger = false }

-- The four conditions of a clean shutdown, with no need to linger.
unfoldable pub is_done : TcpConnection → Bool
is_done c =
    not c.linger
    && (input_ended (stream_out c.receiver)
        && (eof c.sender.stream
            && (c.sender.next_seqno == add_size (bytes_written c.sender.stream) 2
                && Sender.bytes_in_flight c.sender == 0)))

unfoldable pub tick : TcpConnection → ℕ → TcpConnection
tick c ms =
    let c1 : TcpConnection = record c {
      sender = Sender.tick c.sender ms;
      time_since_last_segment_received = add_size c.time_since_last_segment_received ms;
    } in
    if TcpState.equal (state c1) (TcpState.of_state TcpState.State.time_wait)
    then (let waited : ℕ = add_size c1.since_time_wait ms in
        if leb (10 * c1.cfg.rt_timeout) waited
        then record c1 { since_time_wait = waited; linger = false; active = false }
        else record c1 { since_time_wait = waited })
    else if c1.active && ltb max_retx_attempts (consecutive_retransmissions c1.sender)
    then give_up c1
    else (let c2 : TcpConnection = seg_2_seg c1 in
        if is_done c2 then record c2 { active = false } else c2)

unfoldable pub end_input_stream : TcpConnection → Result TcpConnection
end_input_stream c = do
  c' ← fill (record c { sender = record (c.sender) { stream = end_input c.sender.stream } })
  ok (seg_2_seg c')

unfoldable pub connect : TcpConnection → Result TcpConnection
connect c = do c' ← fill c; ok (seg_2_seg c')

-- The destructor: a reset to the peer, if the connection is still open.
unfoldable pub destroy : TcpConnection → TcpConnection
destroy c =
    if c.active
    then fail_streams (
        seg_2_seg
          (record c { active = false; linger = false; sender = send_empty_segment_rst c.sender }))
    else c
