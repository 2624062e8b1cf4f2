-- ===== src/Connection/Shutdown.antt =====
-- The clean shutdown between two TCPConnections of libsponge/tcp_connection.cc, after the handshake
-- and with no bytes in between.
use cs144_me.Prelude.{
  ℕ, ◌+◌, ◌*◌, ◌%◌, ◌^◌, ◌<◌, ◌≡◌, refl, ap, ◌∙◌, Bool, true, false, List, [], arith,
}
use cs144_me.Prelude.Result.{Result, ok, ◌>>=◌}
use cs144_me.ByteStream
use cs144_me.Wrapping.{big}
use cs144_me.Receiver
use cs144_me.Receiver.{TcpReceiver}
use cs144_me.Reassembler
use cs144_me.Sender
use cs144_me.Sender.{TcpSender}
use cs144_me.Sender.Timer.{sum}
use cs144_me.TcpState
use cs144_me.TcpState.{State, of_state}
use cs144_me.Connection.{
  TcpConfig, TcpConnection, new, end_input_stream, state, tick, seg_2_seg, stamp, is_done,
}
use cs144_me.Connection.Handshake.{carry, handshake, handshake_lem}
use cs144_me.Connection.Opening.{established}
use cs144_me.Connection.Linger.{ticks, ticks-linger, lingering}
use cs144_me.Connection.Closing.{finished, fin_seen, fin_seen-ackno}
use cs144_me.Connection.Fins.{
  at, end_active, end_passive, take_fin, take_fin_ack, take_last_ack, take_last_fin,
}

-- One end ends its stream and the other one then ends its own. What each has to send is carried in
-- between, until the last acknowledgment.
abbrev pub shutdown : TcpConnection → TcpConnection → Result (TcpConnection × TcpConnection)
shutdown a b = do
  a1 ← end_input_stream a
  (a2, b2) ← carry a1 b
  (b3, a3) ← carry b2 a2
  b4 ← end_input_stream b3
  (b5, a5) ← carry b4 a3
  carry a5 b5

state-waiting :
    (cfg : TcpConfig) (peer w : ℕ)
    → state (at cfg (finished cfg w) (fin_seen cfg.recv_capacity peer) true [])
      ≡ of_state State.time_wait
unfolding state TcpState.of_parts TcpState.sender_summary TcpState.receiver_summary of_state new
    Sender.new ByteStream.new ByteStream.error ByteStream.eof ByteStream.input_ended
    ByteStream.buffer_empty ByteStream.bytes_written Sender.bytes_in_flight Receiver.new
    Reassembler.new
state-waiting cfg peer w = rw (fin_seen-ackno cfg.recv_capacity peer) refl

state-tick :
    (cfg : TcpConfig) (peer w ms : ℕ)
    → state (tick (at cfg (finished cfg w) (fin_seen cfg.recv_capacity peer) false []) ms)
      ≡ of_state State.closed
unfolding tick is_done seg_2_seg TcpState.equal Sender.tick Sender.tick_queue
    Sender.consecutive_retransmissions stamp state TcpState.of_parts TcpState.sender_summary
    TcpState.receiver_summary of_state new Sender.new ByteStream.new ByteStream.error ByteStream.eof
    ByteStream.input_ended ByteStream.buffer_empty ByteStream.bytes_written Sender.bytes_in_flight
    Receiver.new Reassembler.new
state-tick cfg peer w ms = rw (fin_seen-ackno cfg.recv_capacity peer) refl

-- An end in TIME_WAIT and one that waits for nothing, with windows of the other end.
abbrev closing : TcpConfig → ℕ → ℕ → Bool → TcpConnection
closing cfg peer w linger = at cfg (finished cfg w) (fin_seen cfg.recv_capacity peer) linger []

module _ (a b : TcpConfig) (send_a : a.send_capacity < 2 ^ 31) (send_b : b.send_capacity < 2 ^ 31)
    (cap_a : a.recv_capacity < 2 ^ 31) (cap_b : b.recv_capacity < 2 ^ 31) (isn_a : a.isn < big)
    (isn_b : b.isn < big) (room_a : 0 < a.recv_capacity % 2 ^ 16)
    (room_b : 0 < b.recv_capacity % 2 ^ 16) where
  shutdown_lem :
      shutdown
        (established a b.isn (b.recv_capacity % 2 ^ 16) [])
        (established b a.isn (a.recv_capacity % 2 ^ 16) [])
      ≡ ok (
        closing a b.isn (b.recv_capacity % 2 ^ 16) true,
        closing b a.isn (a.recv_capacity % 2 ^ 16) false,
      )
  unfolding new
  shutdown_lem =
      rw
        (
          end_active a b cap_a cap_b isn_a isn_b room_b send_a,
          take_fin b a cap_b cap_a isn_b isn_a room_a,
          take_fin_ack a b cap_a cap_b isn_a isn_b room_b,
          end_passive b a cap_b cap_a isn_b isn_a room_a send_b,
          take_last_fin a b cap_a cap_b isn_a isn_b room_b,
          take_last_ack b a cap_b cap_a isn_b isn_a room_a,
        )
        refl

  -- Two configurations with capacities below 2 ^ 31, windows that are not 0 modulo 2 ^ 16 and 32-bit
  -- initial numbers, the first with a timeout that is not 0. After the handshake one end ends its
  -- stream, which has carried nothing; the other one does so when the FIN has come, and the network
  -- carries what each sends. Nothing is thrown, and neither has anything left to send. The end that
  -- closed first is in TIME_WAIT, and after more calls of tick, whose times add up to less than 2 ^ 64,
  -- in CLOSED if they add up to ten timeouts, else still in TIME_WAIT; the other end is in CLOSED
  -- after its next call of tick.
  pub shutdown-closed :
      (times : List ℕ) (ms : ℕ)
      → 0 < a.rt_timeout
      → sum times < 2 ^ 64
      → (c : TcpConnection) × (d : TcpConnection) × ((handshake a b >>= λ ends.
            shutdown ends.0 ends.1)
          ≡ ok (c, d))
        × (state c ≡ of_state State.time_wait)
        × (c.segments_out ≡ [])
        × (d.segments_out ≡ [])
        × (state (ticks c times) ≡ of_state (lingering (10 * a.rt_timeout) (sum times)))
        × (state (tick d ms) ≡ of_state State.closed)
  unfolding new Sender.new
  shutdown-closed times ms timeout bounded =
      let waiting = state-waiting a b.isn (b.recv_capacity % 2 ^ 16) in
      let start : 0 + sum times ≡ sum times = omega arith in
      (
        closing a b.isn (b.recv_capacity % 2 ^ 16) true,
        closing b a.isn (a.recv_capacity % 2 ^ 16) false,
        rw (handshake_lem a b send_a send_b cap_a cap_b isn_a isn_b) shutdown_lem,
        waiting,
        refl,
        refl,
        (ticks-linger (closing a b.isn (b.recv_capacity % 2 ^ 16) true) times waiting (refl, refl)
              (omega arith) (omega arith) (omega arith)).0
            ∙ ap (λ n. of_state (lingering (10 * a.rt_timeout) n)) start,
        state-tick b a.isn (a.recv_capacity % 2 ^ 16) ms,
      )
