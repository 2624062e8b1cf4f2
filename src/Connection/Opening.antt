-- ===== src/Connection/Opening.antt =====
-- The two ends of a handshake, and what a sender and a receiver make of a SYN and its
-- acknowledgment.
use cs144_me.Prelude.{ℕ, ◌+◌, ◌%◌, ◌^◌, ◌<◌, ◌≡◌, refl, ap, ◌∙◌, true, false, List, [], ◌==◌, arith}
use cs144_me.Prelude.Result.{ok}
use cs144_me.ByteStream
use cs144_me.Header.Tcp.{TcpSegment, empty_header, length_in_sequence_space}
use cs144_me.Wrapping
use cs144_me.Wrapping.{wrap, unwrap, big}
use cs144_me.Wrapping.Closest.{unwrap-wrap}
use cs144_me.Receiver
use cs144_me.Receiver.{TcpReceiver}
use cs144_me.Reassembler
use cs144_me.Sender
use cs144_me.Sender.{
  TcpSender, fill_window, ack_received, accept_ack, drop_acked, fill_loop, nothing_to_send,
  ready_to_fin, send_empty_segment,
}
use cs144_me.TcpState
use cs144_me.TcpState.{State, of_state}
use cs144_me.Connection.{TcpConfig, TcpConnection, new, state}
use cs144_me.Connection.Open.{
  syn_segment, syn_out, push_nothing, syn_seen, syn_seen-ackno, syn_ack_segment,
}

-- The sender whose SYN is acknowledged, with the window of the peer.
abbrev pub opened : TcpConfig → ℕ → TcpSender
opened cfg window = record (Sender.new cfg.send_capacity cfg.rt_timeout cfg.isn) {
  next_seqno = 1;
  window = window;
  window_right = window;
}

-- The first two numbers, near the start of the stream.
pub unwrap_next : (isn : ℕ) → isn < big → unwrap ((isn + 1) % big) isn 0 ≡ 1
unfolding wrap
unwrap_next isn h =
    ap (λ n. unwrap n isn 0) (omega arith)
    ∙ unwrap-wrap 1 isn 0 h (omega arith) (omega arith) (omega arith)

unwrap_isn : (isn : ℕ) → isn < big → unwrap isn isn 0 ≡ 0
unfolding wrap
unwrap_isn isn h =
    ap (λ n. unwrap n isn 0) (omega arith)
    ∙ unwrap-wrap 0 isn 0 h (omega arith) (omega arith) (omega arith)

pub not_before : (isn : ℕ) → ((isn + 1) % big == Wrapping.minus ((isn + 1) % big) 1) ≡ false
unfolding Wrapping.minus
not_before isn = ground arith

pub wrap_one : (isn : ℕ) → isn < big → wrap 1 isn ≡ (isn + 1) % big
unfolding wrap
wrap_one isn h = omega arith

pub ack_syn :
    (cfg : TcpConfig) (window : ℕ)
    → cfg.isn < big
    → window < 2 ^ 16
    → (out : List TcpSegment)
    → ack_received
        (record (syn_out
          (Sender.new cfg.send_capacity cfg.rt_timeout cfg.isn)
          (syn_segment cfg.isn)) { segments_out = out })
        ((cfg.isn + 1) % big)
        window
      ≡ record (opened cfg window) { segments_out = out }
unfolding ack_received accept_ack drop_acked Sender.new ByteStream.new ByteStream.bytes_read
    length_in_sequence_space
ack_syn cfg window k h out = rw (unwrap_next cfg.isn k, unwrap_isn cfg.isn k) (ground arith)

pub fill_opened :
    (cfg : TcpConfig) (window : ℕ)
    → window < 2 ^ 16
    → fill_window (opened cfg window) ≡ ok (opened cfg window)
unfolding fill_window fill_loop nothing_to_send ready_to_fin Sender.new ByteStream.new
    ByteStream.eof ByteStream.buffer_empty ByteStream.input_ended
fill_opened cfg window h = ground arith

-- The two ends with their SYN out, once the adapter has taken what they sent.
abbrev pub syn_sent : TcpConfig → TcpConnection
syn_sent cfg = record (new cfg) {
  sender =
      record (syn_out (Sender.new cfg.send_capacity cfg.rt_timeout cfg.isn) (syn_segment cfg.isn)) {
        segments_out = [];
      };
}

abbrev pub syn_rcvd : TcpConfig → ℕ → TcpConnection
syn_rcvd cfg peer = record (syn_sent cfg) { receiver = syn_seen cfg.recv_capacity peer }

-- An end that is open, with what it has to send.
abbrev pub established : TcpConfig → ℕ → ℕ → List TcpSegment → TcpConnection
established cfg peer window out = record (new cfg) {
  sender = opened cfg window;
  receiver = syn_seen cfg.recv_capacity peer;
  segments_out = out;
}

-- The last of the three segments.
abbrev pub ack_segment : ℕ → ℕ → ℕ → TcpSegment
ack_segment isn peer capacity = record {
  header = record empty_header {
    seqno = (isn + 1) % big;
    ack = true;
    ackno = (peer + 1) % big;
    win = capacity % 2 ^ 16;
  };
  payload = [];
}

pub receive_syn_ack :
    (cap peer ackno window : ℕ)
    → cap < 2 ^ 31
    → Receiver.segment_received (Receiver.new cap) (syn_ack_segment peer ackno window)
      ≡ ok (syn_seen cap peer)
unfolding Receiver.segment_received Receiver.new Receiver.push_payload
receive_syn_ack cap peer ackno window h = rw (push_nothing cap h) refl

pub receive_ack :
    (cap peer other window : ℕ)
    → cap < 2 ^ 31
    → peer < big
    → Receiver.segment_received (syn_seen cap peer) (ack_segment peer other window)
      ≡ ok (syn_seen cap peer)
unfolding Receiver.segment_received Receiver.receive_at Receiver.new Receiver.push_payload
    Reassembler.new ByteStream.new ByteStream.bytes_written
receive_ack cap peer other window h k = rw (unwrap_next peer k) (rw (push_nothing cap h) refl)

pub state-established :
    (cfg : TcpConfig) (peer window : ℕ) (out : List TcpSegment)
    → state (established cfg peer window out) ≡ of_state State.established
unfolding state TcpState.of_parts TcpState.sender_summary TcpState.receiver_summary of_state new
    Sender.new ByteStream.new ByteStream.error ByteStream.eof ByteStream.input_ended
    Sender.bytes_in_flight Receiver.new Reassembler.new
state-established cfg peer window out = rw (syn_seen-ackno cfg.recv_capacity peer) refl
