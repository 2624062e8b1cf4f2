-- ===== src/Connection/Fins.antt =====
-- What a TCPConnection of libsponge/tcp_connection.cc does with each of the segments of a shutdown.
use cs144_me.Prelude.{
  ℕ, ◌+◌, ◌%◌, ◌^◌, ◌<◌, ◌≡◌, refl, Bool, true, false, List, [], ◌∷◌, ◌==◌, arith,
}
use cs144_me.Prelude.Result.{ok}
use cs144_me.ByteStream
use cs144_me.Header.Tcp.{TcpSegment, length_in_sequence_space}
use cs144_me.Wrapping
use cs144_me.Wrapping.{big, wrap}
use cs144_me.Receiver.{TcpReceiver}
use cs144_me.Sender
use cs144_me.Sender.{TcpSender}
use cs144_me.Connection.{
  TcpConfig, TcpConnection, new, end_input_stream, segment_received, seg_2_seg, stamp,
  accept_segment, take_ack, answer_syn, answer, is_keep_alive,
}
use cs144_me.Connection.Open.{syn_seen, syn_seen-ackno, syn_seen-window}
use cs144_me.Connection.Opening.{opened, fill_opened, not_before, wrap_one}
use cs144_me.Connection.Closing.{
  plain, fin_out, finished, fin_seen, fill_ended, receive_fin, receive_plain, receive_last,
  fin_seen-ackno, fin_seen-window, ack_fin, ack_opened, ack_finished, fill_finished,
}

-- An end in the course of the shutdown.
abbrev pub at : TcpConfig → TcpSender → TcpReceiver → Bool → List TcpSegment → TcpConnection
at cfg sender receiver linger out = record (new cfg) {
  sender = sender;
  receiver = receiver;
  linger = linger;
  segments_out = out;
}

not_before_fin : (isn : ℕ) → ((isn + 2) % big == Wrapping.minus ((isn + 2) % big) 1) ≡ false
unfolding Wrapping.minus
not_before_fin isn = ground arith

wrap_two : (isn : ℕ) → isn < big → wrap 2 isn ≡ (isn + 2) % big
unfolding wrap
wrap_two isn h = omega arith

module _ (a b : TcpConfig) (cap_a : a.recv_capacity < 2 ^ 31) (cap_b : b.recv_capacity < 2 ^ 31)
    (isn_a : a.isn < big) (isn_b : b.isn < big) (room : 0 < b.recv_capacity % 2 ^ 16) where
  -- The window that the sender of `a` has.
  abbrev w : ℕ
  w = b.recv_capacity % 2 ^ 16

  pub end_active :
      a.send_capacity < 2 ^ 31
      → end_input_stream (at a (opened a w) (syn_seen a.recv_capacity b.isn) true [])
        ≡ ok (
            at a
              (fin_out a w [])
              (syn_seen a.recv_capacity b.isn)
              true
              (plain ((a.isn + 1) % big) ((b.isn + 1) % big) a.recv_capacity true ∷ []))
  unfolding end_input_stream new seg_2_seg stamp Sender.new ByteStream.new ByteStream.end_input
  end_active s =
      rw
        (
          fill_ended a w room (omega arith) s isn_a,
          syn_seen-ackno a.recv_capacity b.isn,
          syn_seen-window a.recv_capacity b.isn cap_a,
        )
        refl

  pub end_passive :
      a.send_capacity < 2 ^ 31
      → end_input_stream (at a (opened a w) (fin_seen a.recv_capacity b.isn) false [])
        ≡ ok (
            at a
              (fin_out a w [])
              (fin_seen a.recv_capacity b.isn)
              false
              (plain ((a.isn + 1) % big) ((b.isn + 2) % big) a.recv_capacity true ∷ []))
  unfolding end_input_stream new seg_2_seg stamp Sender.new ByteStream.new ByteStream.end_input
  end_passive s =
      rw
        (
          fill_ended a w room (omega arith) s isn_a,
          fin_seen-ackno a.recv_capacity b.isn,
          fin_seen-window a.recv_capacity b.isn cap_a,
        )
        refl

  -- The FIN of the peer, which is first.
  pub take_fin :
      segment_received
        (at a (opened a w) (syn_seen a.recv_capacity b.isn) true [])
        (plain ((b.isn + 1) % big) ((a.isn + 1) % big) b.recv_capacity true)
      ≡ ok (
          at a
            (opened a w)
            (fin_seen a.recv_capacity b.isn)
            false
            (plain ((a.isn + 1) % big) ((b.isn + 2) % big) a.recv_capacity false ∷ []))
  unfolding segment_received accept_segment take_ack answer_syn answer is_keep_alive
      length_in_sequence_space new seg_2_seg stamp Sender.new ByteStream.new ByteStream.eof
      ByteStream.input_ended ByteStream.buffer_empty ByteStream.bytes_written
      Sender.send_empty_segment Sender.next_seqno
  take_fin =
      rw
        (
          receive_fin a.recv_capacity b.isn ((a.isn + 1) % big) b.recv_capacity cap_a isn_b,
          ack_opened a w isn_a (omega arith),
          fill_opened a w (omega arith),
          fin_seen-ackno a.recv_capacity b.isn,
        )
        (rw
          (
            fin_seen-ackno a.recv_capacity b.isn,
            fin_seen-window a.recv_capacity b.isn cap_a,
            wrap_one a.isn isn_a,
          )
          refl)

  -- The acknowledgment of the FIN.
  pub take_fin_ack :
      segment_received
        (at a (fin_out a w []) (syn_seen a.recv_capacity b.isn) true [])
        (plain ((b.isn + 1) % big) ((a.isn + 2) % big) b.recv_capacity false)
      ≡ ok (at a (finished a w) (syn_seen a.recv_capacity b.isn) true [])
  unfolding segment_received accept_segment take_ack answer_syn answer is_keep_alive
      length_in_sequence_space new seg_2_seg stamp Wrapping.equal Sender.new ByteStream.new
  take_fin_ack =
      rw
        (
          receive_plain a.recv_capacity b.isn ((a.isn + 2) % big) b.recv_capacity cap_a isn_b,
          ack_fin a w isn_a (omega arith),
          fill_finished a w isn_a (omega arith),
          syn_seen-ackno a.recv_capacity b.isn,
          not_before b.isn,
        )
        refl

  -- The FIN of the peer, after the own one.
  pub take_last_fin :
      segment_received
        (at a (finished a w) (syn_seen a.recv_capacity b.isn) true [])
        (plain ((b.isn + 1) % big) ((a.isn + 2) % big) b.recv_capacity true)
      ≡ ok (
          at a
            (finished a w)
            (fin_seen a.recv_capacity b.isn)
            true
            (plain ((a.isn + 2) % big) ((b.isn + 2) % big) a.recv_capacity false ∷ []))
  unfolding segment_received accept_segment take_ack answer_syn answer is_keep_alive
      length_in_sequence_space new seg_2_seg stamp Sender.new ByteStream.new ByteStream.eof
      ByteStream.input_ended ByteStream.buffer_empty ByteStream.bytes_written
      Sender.send_empty_segment Sender.next_seqno
  take_last_fin =
      rw
        (
          receive_fin a.recv_capacity b.isn ((a.isn + 2) % big) b.recv_capacity cap_a isn_b,
          ack_finished a w isn_a (omega arith),
          fill_finished a w isn_a (omega arith),
          fin_seen-ackno a.recv_capacity b.isn,
        )
        (rw
          (
            fin_seen-ackno a.recv_capacity b.isn,
            fin_seen-window a.recv_capacity b.isn cap_a,
            wrap_two a.isn isn_a,
          )
          refl)

  -- The last acknowledgment.
  pub take_last_ack :
      segment_received
        (at a (fin_out a w []) (fin_seen a.recv_capacity b.isn) false [])
        (plain ((b.isn + 2) % big) ((a.isn + 2) % big) b.recv_capacity false)
      ≡ ok (at a (finished a w) (fin_seen a.recv_capacity b.isn) false [])
  unfolding segment_received accept_segment take_ack answer_syn answer is_keep_alive
      length_in_sequence_space new seg_2_seg stamp Wrapping.equal Sender.new ByteStream.new
  take_last_ack =
      rw
        (
          receive_last a.recv_capacity b.isn ((a.isn + 2) % big) b.recv_capacity cap_a isn_b,
          ack_fin a w isn_a (omega arith),
          fill_finished a w isn_a (omega arith),
          fin_seen-ackno a.recv_capacity b.isn,
          not_before_fin b.isn,
        )
        refl
