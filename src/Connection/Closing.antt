-- ===== src/Connection/Closing.antt =====
-- The FIN of libsponge/tcp_sender.cc and of tcp_receiver.cc, for streams that carry no bytes.
use cs144_me.Prelude.{
  ℕ, zero, suc, ◌+◌, ◌-◌, ◌%◌, ◌^◌, ◌<◌, ◌≡◌, refl, ap, ◌∙◌, Bool, true, false, some, List, [], ◌∷◌,
  arith,
}
use cs144_me.Prelude.Result.{ok}
use cs144_me.ByteStream
use cs144_me.Header.Tcp.{TcpSegment, empty_header, length_in_sequence_space}
use cs144_me.Wrapping.{wrap, unwrap, big}
use cs144_me.Wrapping.Closest.{unwrap-wrap}
use cs144_me.Receiver
use cs144_me.Receiver.{TcpReceiver}
use cs144_me.Reassembler
use cs144_me.Sender
use cs144_me.Sender.{
  TcpSender, fill_window, ack_received, accept_ack, drop_acked, fill_loop, nothing_to_send,
  ready_to_fin, send_next, send_payload, payload_room,
}
use cs144_me.Connection.{TcpConfig}
use cs144_me.Connection.Open.{push_nothing, syn_seen}
use cs144_me.Connection.Opening.{opened, unwrap_next}

-- A segment with an acknowledgment and no payload.
abbrev pub plain : ℕ → ℕ → ℕ → Bool → TcpSegment
plain seqno ackno capacity fin = record {
  header = record empty_header {
    seqno = seqno;
    ack = true;
    ackno = ackno;
    fin = fin;
    win = capacity % 2 ^ 16;
  };
  payload = [];
}

-- The sender whose stream is ended, whose FIN is out, and whose FIN is acknowledged.
abbrev pub ended : TcpConfig → ℕ → TcpSender
ended cfg w = record (opened cfg w) {
  stream = record (ByteStream.new cfg.send_capacity) { end = true };
}

abbrev pub fin_segment : ℕ → TcpSegment
fin_segment isn = record {
  header = record empty_header { seqno = (isn + 1) % big; fin = true };
  payload = [];
}

abbrev pub fin_out : TcpConfig → ℕ → List TcpSegment → TcpSender
fin_out cfg w out = record (ended cfg w) {
  next_seqno = 2;
  fin_sent = true;
  in_flights = 1;
  outstandings = fin_segment cfg.isn ∷ [];
  segments_out = out;
}

abbrev pub finished : TcpConfig → ℕ → TcpSender
finished cfg w = record (ended cfg w) { next_seqno = 2; fin_sent = true; window_right = w + 1 }

-- The receiver that has the FIN.
abbrev pub fin_seen : ℕ → ℕ → TcpReceiver
fin_seen cap peer = record (syn_seen cap peer) {
  reassembler = record (Reassembler.new cap) {
    output = record (ByteStream.new cap) { end = true };
    end_idx = 0;
  };
}

pub unwrap_second : (isn : ℕ) → isn < big → unwrap ((isn + 2) % big) isn 0 ≡ 2
unfolding wrap
unwrap_second isn h =
    ap (λ n. unwrap n isn 0) (omega arith)
    ∙ unwrap-wrap 2 isn 0 h (omega arith) (omega arith) (omega arith)

-- The round that sends the FIN, and the one that finds nothing to send.
send_fin :
    (cfg : TcpConfig) (w : ℕ)
    → 0 < w
    → w < 2 ^ 16
    → cfg.send_capacity < 2 ^ 31
    → cfg.isn < big
    → send_next (ended cfg w) ≡ ok (fin_out cfg w (fin_segment cfg.isn ∷ []))
unfolding Sender.new send_next send_payload payload_room length_in_sequence_space Sender.next_seqno
    wrap ByteStream.eof ByteStream.buffer_empty ByteStream.input_ended ByteStream.new
    ByteStream.read ByteStream.read_length ByteStream.peek_output ByteStream.pop_output
    ByteStream.substr
send_fin cfg w h k c i = ground arith

stop_after_fin :
    (cfg : TcpConfig) (w fuel : ℕ) (out : List TcpSegment)
    → fill_loop (suc fuel) (fin_out cfg w out) ≡ ok (fin_out cfg w out)
unfolding fill_loop nothing_to_send ready_to_fin Sender.new ByteStream.new ByteStream.eof
    ByteStream.buffer_empty ByteStream.input_ended ByteStream.bytes_written
stop_after_fin cfg w fuel out = ground arith

fill_ended_from :
    (cfg : TcpConfig) (w fuel : ℕ)
    → 0 < w
    → w < 2 ^ 16
    → cfg.send_capacity < 2 ^ 31
    → cfg.isn < big
    → fill_loop (suc (suc fuel)) (ended cfg w) ≡ ok (fin_out cfg w (fin_segment cfg.isn ∷ []))
unfolding fill_loop nothing_to_send ready_to_fin Sender.new ByteStream.new ByteStream.eof
    ByteStream.buffer_empty ByteStream.input_ended ByteStream.bytes_written
fill_ended_from cfg w fuel h k c i =
    rw (send_fin cfg w h k c i, stop_after_fin cfg w fuel (fin_segment cfg.isn ∷ [])) (ground arith)

pub fill_ended :
    (cfg : TcpConfig) (w : ℕ)
    → 0 < w
    → w < 2 ^ 16
    → cfg.send_capacity < 2 ^ 31
    → cfg.isn < big
    → fill_window (ended cfg w) ≡ ok (fin_out cfg w (fin_segment cfg.isn ∷ []))
unfolding fill_window Sender.new
fill_ended cfg zero h k c i = absurd (omega arith)
fill_ended cfg (suc w) h k c i =
    let fuel : suc w + 1 - 1 ≡ suc w = omega arith in
    rw (fuel, fill_ended_from cfg (suc w) w h k c i) (ground arith)

pub receive_fin :
    (cap peer ackno window : ℕ)
    → cap < 2 ^ 31
    → peer < big
    → Receiver.segment_received (syn_seen cap peer) (plain ((peer + 1) % big) ackno window true)
      ≡ ok (fin_seen cap peer)
unfolding Receiver.segment_received Receiver.receive_at Receiver.new Receiver.push_payload
    Reassembler.new ByteStream.new ByteStream.bytes_written Reassembler.push_substring
    Reassembler.add_temp_cash ByteStream.end_input
receive_fin cap peer ackno window h k = rw (unwrap_next peer k) refl

pub receive_plain :
    (cap peer ackno window : ℕ)
    → cap < 2 ^ 31
    → peer < big
    → Receiver.segment_received (syn_seen cap peer) (plain ((peer + 1) % big) ackno window false)
      ≡ ok (syn_seen cap peer)
unfolding Receiver.segment_received Receiver.receive_at Receiver.new Receiver.push_payload
    Reassembler.new ByteStream.new ByteStream.bytes_written
receive_plain cap peer ackno window h k = rw (unwrap_next peer k) (rw (push_nothing cap h) refl)

pub receive_last :
    (cap peer ackno window : ℕ)
    → cap < 2 ^ 31
    → peer < big
    → Receiver.segment_received (fin_seen cap peer) (plain ((peer + 2) % big) ackno window false)
      ≡ ok (fin_seen cap peer)
unfolding Receiver.segment_received Receiver.receive_at Receiver.new Receiver.push_payload
    Reassembler.new ByteStream.new ByteStream.bytes_written Reassembler.push_substring
    Reassembler.add_temp_cash ByteStream.end_input
receive_last cap peer ackno window h k = rw (unwrap_second peer k) refl

pub fin_seen-ackno : (cap peer : ℕ) → Receiver.ackno (fin_seen cap peer) ≡ some ((peer + 2) % big)
unfolding Receiver.ackno Receiver.new Reassembler.new ByteStream.new ByteStream.bytes_written
    ByteStream.input_ended wrap
fin_seen-ackno cap peer = ground arith

pub fin_seen-window : (cap peer : ℕ) → cap < 2 ^ 31 → Receiver.window_size (fin_seen cap peer) ≡ cap
unfolding Receiver.window_size Receiver.new Reassembler.new ByteStream.new
    ByteStream.remaining_capacity
fin_seen-window cap peer h = ground arith

module _ (cfg : TcpConfig) (w : ℕ) (number : cfg.isn < big) (small : w < 2 ^ 16) where
  pub ack_fin : ack_received (fin_out cfg w []) ((cfg.isn + 2) % big) w ≡ finished cfg w
  unfolding ack_received accept_ack drop_acked Sender.new ByteStream.new ByteStream.bytes_read
      length_in_sequence_space
  ack_fin = rw (unwrap_second cfg.isn number, unwrap_next cfg.isn number) (ground arith)

  pub ack_opened : ack_received (opened cfg w) ((cfg.isn + 1) % big) w ≡ opened cfg w
  unfolding ack_received accept_ack drop_acked Sender.new ByteStream.new ByteStream.bytes_read
  ack_opened = rw (unwrap_next cfg.isn number) (ground arith)

  pub ack_finished : ack_received (finished cfg w) ((cfg.isn + 2) % big) w ≡ finished cfg w
  unfolding ack_received accept_ack drop_acked Sender.new ByteStream.new ByteStream.bytes_read
  ack_finished = rw (unwrap_second cfg.isn number) (ground arith)

  pub fill_finished : fill_window (finished cfg w) ≡ ok (finished cfg w)
  unfolding fill_window fill_loop nothing_to_send ready_to_fin Sender.new ByteStream.new
      ByteStream.eof ByteStream.buffer_empty ByteStream.input_ended ByteStream.bytes_written
  fill_finished = ground arith
