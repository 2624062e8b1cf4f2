-- ===== src/Connection/Handshake.antt =====
-- The three segments that open a connection between two TCPConnections of
-- libsponge/tcp_connection.cc.
use cs144_me.Prelude.{◌+◌, ◌%◌, ◌^◌, ◌<◌, ◌≡◌, refl, List, [], ◌∷◌, arith}
use cs144_me.Prelude.Result.{Result, ok, ◌>>=◌}
use cs144_me.Header.Tcp.{TcpSegment, length_in_sequence_space}
use cs144_me.Wrapping
use cs144_me.Wrapping.{wrap, unwrap, big}
use cs144_me.Receiver
use cs144_me.Receiver.{TcpReceiver}
use cs144_me.Reassembler
use cs144_me.Sender
use cs144_me.Sender.{
  TcpSender, fill_window, ack_received, accept_ack, drop_acked, fill_loop, nothing_to_send,
  ready_to_fin, send_empty_segment,
}
use cs144_me.TcpState.{State, of_state}
use cs144_me.Connection.{
  TcpConfig, TcpConnection, new, connect, segment_received, state, seg_2_seg, stamp, accept_segment,
  take_ack, answer_syn, answer, is_keep_alive,
}
use cs144_me.Connection.Open.{
  syn_segment, fill_new, syn_seen, syn_seen-ackno, syn_seen-window, syn_ack_segment, receive_syn,
  syn_not-keep_alive,
}
use cs144_me.Connection.Opening.{
  ack_segment, ack_syn, established, fill_opened, not_before, receive_ack, receive_syn_ack,
  state-established, syn_rcvd, syn_sent, wrap_one,
}

module _ (a b : TcpConfig) (cap_a : a.recv_capacity < 2 ^ 31) (cap_b : b.recv_capacity < 2 ^ 31)
    (isn_a : a.isn < big) (isn_b : b.isn < big) where
  take_syn_ack :
      segment_received (syn_sent a) (syn_ack_segment b.isn ((a.isn + 1) % big) b.recv_capacity)
      ≡ ok (
          established a b.isn
            (b.recv_capacity % 2 ^ 16)
            (ack_segment a.isn b.isn a.recv_capacity ∷ []))
  unfolding segment_received accept_segment take_ack answer_syn answer is_keep_alive
      length_in_sequence_space new seg_2_seg stamp Sender.new send_empty_segment Sender.next_seqno
  take_syn_ack =
      rw
        (
          receive_syn_ack a.recv_capacity b.isn ((a.isn + 1) % big) b.recv_capacity cap_a,
          ack_syn a (b.recv_capacity % 2 ^ 16) isn_a (omega arith) [],
          fill_opened a (b.recv_capacity % 2 ^ 16) (omega arith),
          syn_seen-ackno a.recv_capacity b.isn,
        )
        (rw
          (
            syn_seen-ackno a.recv_capacity b.isn,
            syn_seen-window a.recv_capacity b.isn cap_a,
            wrap_one a.isn isn_a,
          )
          refl)

  take_ack_segment :
      segment_received (syn_rcvd b a.isn) (ack_segment a.isn b.isn a.recv_capacity)
      ≡ ok (established b a.isn (a.recv_capacity % 2 ^ 16) [])
  unfolding segment_received accept_segment take_ack answer_syn answer is_keep_alive
      length_in_sequence_space new seg_2_seg stamp Sender.new Wrapping.equal
  take_ack_segment =
      rw
        (
          receive_ack b.recv_capacity a.isn b.isn a.recv_capacity cap_b isn_a,
          ack_syn b (a.recv_capacity % 2 ^ 16) isn_b (omega arith) [],
          fill_opened b (a.recv_capacity % 2 ^ 16) (omega arith),
          syn_seen-ackno b.recv_capacity a.isn,
          not_before a.isn,
        )
        refl

  connect_lem :
      a.send_capacity < 2 ^ 31
      → connect (new a) ≡ ok (record (syn_sent a) { segments_out = syn_segment a.isn ∷ [] })
  unfolding connect new seg_2_seg stamp Receiver.ackno Receiver.new Reassembler.new
  connect_lem h = rw (fill_new a.send_capacity a.rt_timeout a.isn h isn_a) refl

  take_syn :
      b.send_capacity < 2 ^ 31
      → segment_received (new b) (syn_segment a.isn)
        ≡ ok (record (syn_rcvd b a.isn) {
          segments_out = syn_ack_segment b.isn ((a.isn + 1) % big) b.recv_capacity ∷ [];
        })
  unfolding segment_received accept_segment take_ack answer_syn answer is_keep_alive
      length_in_sequence_space new seg_2_seg stamp Sender.new
  take_syn h =
      rw
        (
          receive_syn b.recv_capacity a.isn cap_b,
          syn_seen-ackno b.recv_capacity a.isn,
          fill_new b.send_capacity b.rt_timeout b.isn h isn_b,
          syn_not-keep_alive (Receiver.ackno (syn_seen b.recv_capacity a.isn)) a.isn,
          syn_seen-ackno b.recv_capacity a.isn,
        )
        (rw (syn_seen-window b.recv_capacity a.isn cap_b) refl)

-- The segments that one end has to send arrive at the other, in order.
abbrev pub deliver_all : List TcpSegment → TcpConnection → Result TcpConnection
deliver_all [] c = ok c
deliver_all (seg ∷ segs) c = segment_received c seg >>= λ c'. deliver_all segs c'

abbrev pub carry : TcpConnection → TcpConnection → Result (TcpConnection × TcpConnection)
carry c d = do d' ← deliver_all c.segments_out d; ok (record c { segments_out = [] }, d')

-- One end connects to the other, and three times what one end has to send is carried.
abbrev pub handshake : TcpConfig → TcpConfig → Result (TcpConnection × TcpConnection)
handshake a b = do
  a1 ← connect (new a)
  (a2, b2) ← carry a1 (new b)
  (b3, a3) ← carry b2 a2
  carry a3 b3

pub handshake_lem :
    (a b : TcpConfig)
    → a.send_capacity < 2 ^ 31
    → b.send_capacity < 2 ^ 31
    → a.recv_capacity < 2 ^ 31
    → b.recv_capacity < 2 ^ 31
    → a.isn < big
    → b.isn < big
    → handshake a b
      ≡ ok (
        established a b.isn (b.recv_capacity % 2 ^ 16) [],
        established b a.isn (a.recv_capacity % 2 ^ 16) [],
      )
unfolding new Sender.new
handshake_lem a b sa sb ra rb ia ib =
    rw
      (
        connect_lem a b ra rb ia ib sa,
        take_syn a b ra rb ia ib sb,
        take_syn_ack a b ra rb ia ib,
        take_ack_segment a b ra rb ia ib,
      )
      refl

-- Two configurations with capacities below 2 ^ 31 and 32-bit initial numbers. One end connects, and
-- the network carries what it sends to a new connection of the other, what that answers back, and the
-- answer to that. Nothing is thrown; both ends are in the state ESTABLISHED with nothing to send; each
-- receiver has the initial number of the other end, and each sender the other's receive capacity,
-- modulo 2 ^ 16, as its window.
pub handshake-established :
    (a b : TcpConfig)
    → a.send_capacity < 2 ^ 31
    → b.send_capacity < 2 ^ 31
    → a.recv_capacity < 2 ^ 31
    → b.recv_capacity < 2 ^ 31
    → a.isn < big
    → b.isn < big
    → (c : TcpConnection) × (d : TcpConnection) × (handshake a b ≡ ok (c, d))
      × (state c ≡ of_state State.established)
      × (state d ≡ of_state State.established)
      × (c.segments_out ≡ [])
      × (d.segments_out ≡ [])
      × (c.receiver.isn ≡ b.isn)
      × (d.receiver.isn ≡ a.isn)
      × (c.sender.window ≡ b.recv_capacity % 2 ^ 16)
      × (d.sender.window ≡ a.recv_capacity % 2 ^ 16)
unfolding new Sender.new
handshake-established a b sa sb ra rb ia ib = (
  established a b.isn (b.recv_capacity % 2 ^ 16) [],
  established b a.isn (a.recv_capacity % 2 ^ 16) [],
  handshake_lem a b sa sb ra rb ia ib,
  state-established a b.isn (b.recv_capacity % 2 ^ 16) [],
  state-established b a.isn (a.recv_capacity % 2 ^ 16) [],
  refl,
  refl,
  refl,
  refl,
  refl,
  refl,
)
