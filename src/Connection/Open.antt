-- ===== src/Connection/Open.antt =====
-- The first calls on a TCPConnection of libsponge/tcp_connection.cc: connect, and a SYN that comes in.
use cs144_me.Prelude.{
  ℕ, ◌+◌, ◌%◌, ◌^◌, ◌<◌, ◌≡◌, refl, true, false, Option, none, some, [], ◌∷◌, arith,
}
use cs144_me.Prelude.Result.{ok}
use cs144_me.ByteStream
use cs144_me.ByteStream.{eof, buffer_empty, input_ended}
use cs144_me.Header.Tcp.{TcpSegment, empty_header, length_in_sequence_space}
use cs144_me.Wrapping.{wrap, big}
use cs144_me.Receiver
use cs144_me.Receiver.{TcpReceiver}
use cs144_me.Reassembler
use cs144_me.Reassembler.{push_substring, add_temp_cash}
use cs144_me.Sender
use cs144_me.Sender.{
  TcpSender, fill_window, fill_loop, send_next, send_payload, payload_room, nothing_to_send,
  ready_to_fin,
}
use cs144_me.TcpState
use cs144_me.TcpState.{State, of_state}
use cs144_me.Connection.{
  TcpConfig, TcpConnection, new, connect, segment_received, accept_segment, take_ack, answer_syn,
  answer, is_keep_alive, state, seg_2_seg, stamp,
}

abbrev pub syn_segment : ℕ → TcpSegment
syn_segment isn = record { header = record empty_header { seqno = isn; syn = true }; payload = [] }

-- The sender once its SYN is out.
abbrev pub syn_out : TcpSender → TcpSegment → TcpSender
syn_out s seg = record s {
  next_seqno = 1;
  in_flights = 1;
  outstandings = seg ∷ [];
  segments_out = seg ∷ [];
}

pub fill_new :
    (cp timeout isn : ℕ)
    → cp < 2 ^ 31
    → isn < big
    → fill_window (Sender.new cp timeout isn)
      ≡ ok (syn_out (Sender.new cp timeout isn) (syn_segment isn))
unfolding Sender.new fill_window fill_loop send_next send_payload payload_room nothing_to_send
    ready_to_fin length_in_sequence_space Sender.next_seqno wrap eof buffer_empty input_ended
    ByteStream.new ByteStream.read ByteStream.read_length ByteStream.peek_output
    ByteStream.pop_output ByteStream.substr
fill_new cp timeout isn h k = ground arith

-- A new connection whose send capacity is below 2 ^ 31, with a 32-bit initial number: connect
-- throws nothing, sends one SYN with that number and nothing else, and leaves the connection in
-- the state SYN_SENT.
pub connect-new :
    (cfg : TcpConfig)
    → cfg.send_capacity < 2 ^ 31
    → cfg.isn < big
    → (c : TcpConnection) × (connect (new cfg) ≡ ok c)
      × (c.segments_out ≡ syn_segment cfg.isn ∷ [])
      × (c.sender.segments_out ≡ [])
      × (state c ≡ of_state State.syn_sent)
unfolding connect new state seg_2_seg stamp Receiver.ackno Receiver.new Reassembler.new
    TcpState.of_parts TcpState.sender_summary TcpState.receiver_summary of_state Sender.new
    ByteStream.error ByteStream.new Sender.bytes_in_flight
connect-new cfg h k = (
  seg_2_seg (record (new cfg) {
    sender = syn_out (Sender.new cfg.send_capacity cfg.rt_timeout cfg.isn) (syn_segment cfg.isn);
  }),
  rw (fill_new cfg.send_capacity cfg.rt_timeout cfg.isn h k) refl,
  refl,
  refl,
  refl,
)

-- An empty substring at the start changes nothing.
pub push_nothing :
    (cap : ℕ)
    → cap < 2 ^ 31
    → push_substring (Reassembler.new cap) [] 0 false ≡ ok (Reassembler.new cap)
unfolding push_substring add_temp_cash Reassembler.new ByteStream.bytes_written ByteStream.new
push_nothing cap h = refl

-- The answer to a SYN.
abbrev pub syn_ack_segment : ℕ → ℕ → ℕ → TcpSegment
syn_ack_segment isn ackno capacity = record {
  header = record empty_header {
    seqno = isn;
    syn = true;
    ack = true;
    ackno = ackno;
    win = capacity % 2 ^ 16;
  };
  payload = [];
}

-- The receiver once it has seen a SYN.
abbrev pub syn_seen : ℕ → ℕ → TcpReceiver
syn_seen cap peer = record (Receiver.new cap) { isn = peer; syned = true }

pub receive_syn :
    (cap peer : ℕ)
    → cap < 2 ^ 31
    → Receiver.segment_received (Receiver.new cap) (syn_segment peer) ≡ ok (syn_seen cap peer)
unfolding Receiver.segment_received Receiver.new Receiver.push_payload
receive_syn cap peer h = rw (push_nothing cap h) refl

pub syn_seen-ackno : (cap peer : ℕ) → Receiver.ackno (syn_seen cap peer) ≡ some ((peer + 1) % big)
unfolding Receiver.ackno Receiver.new Reassembler.new ByteStream.new ByteStream.bytes_written
    input_ended wrap
syn_seen-ackno cap peer = ground arith

pub syn_seen-window : (cap peer : ℕ) → cap < 2 ^ 31 → Receiver.window_size (syn_seen cap peer) ≡ cap
unfolding Receiver.window_size Receiver.new Reassembler.new ByteStream.new
    ByteStream.remaining_capacity
syn_seen-window cap peer h = ground arith

pub syn_not-keep_alive :
    (ackno : Option ℕ) (peer : ℕ) → is_keep_alive ackno (syn_segment peer) ≡ false
unfolding is_keep_alive length_in_sequence_space
syn_not-keep_alive none peer = refl
syn_not-keep_alive (some a) peer = refl

-- A new connection with capacities below 2 ^ 31 that receives a SYN throws nothing, answers with
-- one segment, a SYN of its own that acknowledges the number after the peer's and gives its window
-- modulo 2 ^ 16, and is in the state SYN_RCVD.
segment_received-syn :
    (cfg : TcpConfig) (peer : ℕ)
    → cfg.send_capacity < 2 ^ 31
    → cfg.recv_capacity < 2 ^ 31
    → cfg.isn < big
    → peer < big
    → (c : TcpConnection) × (segment_received (new cfg) (syn_segment peer) ≡ ok c)
      × (c.segments_out ≡ syn_ack_segment cfg.isn ((peer + 1) % big) cfg.recv_capacity ∷ [])
      × (c.sender.segments_out ≡ [])
      × (state c ≡ of_state State.syn_rcvd)
unfolding segment_received accept_segment take_ack answer_syn answer is_keep_alive
    length_in_sequence_space new state seg_2_seg stamp TcpState.of_parts TcpState.sender_summary
    TcpState.receiver_summary of_state Sender.bytes_in_flight Sender.new ByteStream.error
    ByteStream.new Reassembler.new Receiver.new input_ended
segment_received-syn cfg peer s r i p = (
  seg_2_seg (record (new cfg) {
    sender = syn_out (Sender.new cfg.send_capacity cfg.rt_timeout cfg.isn) (syn_segment cfg.isn);
    receiver = syn_seen cfg.recv_capacity peer;
  }),
  rw
      (
        receive_syn cfg.recv_capacity peer r,
        syn_seen-ackno cfg.recv_capacity peer,
        fill_new cfg.send_capacity cfg.rt_timeout cfg.isn s i,
        syn_not-keep_alive (Receiver.ackno (syn_seen cfg.recv_capacity peer)) peer,
        syn_seen-ackno cfg.recv_capacity peer,
      )
      refl,
  rw (syn_seen-ackno cfg.recv_capacity peer, syn_seen-window cfg.recv_capacity peer r) refl,
  refl,
  rw (syn_seen-ackno cfg.recv_capacity peer) refl,
)
