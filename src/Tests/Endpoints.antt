-- ===== src/Tests/Endpoints.antt =====
-- The sender, the receiver and the connection of libsponge at concrete inputs.
use cs144_me.Prelude.{
  ℕ, List, replicate, ◌++◌, ◌*◌, ◌+◌, ◌%◌, ◌^◌, ◌≤◌, ◌<◌, ◌≡◌, refl, true, false, [], ◌∷◌, arith,
}
use cs144_me.Prelude.Result.{ok, IfOk, ◌>>=◌}
use cs144_me.ByteStream
use cs144_me.ByteStream.{ByteStream}
use cs144_me.Wrapping.{wrap}
use cs144_me.Header.Tcp.{TcpSegment, empty_header, length_in_sequence_space}
use cs144_me.Reassembler
use cs144_me.Reassembler.Spec.{start-IsReading}
use cs144_me.Receiver
use cs144_me.Receiver.{TcpReceiver}
use cs144_me.Receiver.Place.{Received, segment_received_lem}
use cs144_me.Sender
use cs144_me.Sender.{TcpSender, fill_window, ack_received}
use cs144_me.Sender.Inv.{Inv}
use cs144_me.Sender.Fill.{Filled, fill_window_lem}
use cs144_me.Sender.Ack.{Acked, ack_received_lem}
use cs144_me.TcpState
use cs144_me.TcpState.{State, of_state}
use cs144_me.Connection
use cs144_me.Connection.{TcpConfig, TcpConnection, connect}
use cs144_me.Connection.Flush
use cs144_me.Connection.Shutdown.{shutdown, shutdown-closed}
use cs144_me.Connection.GiveUp.{ticks-reset, stamped, rst_segment}
use cs144_me.Connection.Linger
use cs144_me.Connection.Linger.{ticks-linger, lingering, IsQuiet}
use cs144_me.Connection.Handshake.{handshake, handshake-established}
use cs144_me.Connection.Flush.{Call, step-Flushed}
use cs144_me.Connection.Stages.{Flushed}

-- A sender whose SYN is acknowledged, with three bytes to send and a window of two.
abbrev stream : ByteStream
stream = record {
  capacity = 8;
  end = true;
  total_read = 0;
  written = 3;
  buffer = 1 ∷ 2 ∷ 3 ∷ [];
  error_flag = false;
}

abbrev sender : TcpSender
sender = record {
  isn = 7;
  segments_out = [];
  initial_retransmission_timeout = 1000;
  stream = stream;
  next_seqno = 1;
  outstandings = [];
  in_flights = 0;
  time_passed = 0;
  rto = 1000;
  recount = 0;
  window = 2;
  window_right = 2;
  last_ack = 0;
  fin_sent = false;
  probing = false;
}

sender-Inv : Inv sender 1
sender-Inv = record {
  stream = omega arith;
  chain = refl;
  flight = refl;
  unread = λ e. refl;
  ahead = λ l. omega arith;
  finished = λ e. absurd (ground arith);
}

fill_window_lem_example : (s : TcpSender) × (fill_window sender ≡ ok s) × Filled sender 1 s
fill_window_lem_example = fill_window_lem sender 1 sender-Inv (omega arith) refl

-- The sender with one segment of one byte in flight.
abbrev segment : TcpSegment
segment = record { header = record empty_header { seqno = 8 }; payload = 1 ∷ [] }

abbrev flying : TcpSender
flying = record sender {
  stream = record stream { buffer = 2 ∷ 3 ∷ []; total_read = 1 };
  next_seqno = 2;
  outstandings = segment ∷ [];
  in_flights = 1;
}

flying-Inv : Inv flying 1
unfolding wrap length_in_sequence_space
flying-Inv = record {
  stream = omega arith;
  chain = (refl, omega arith, omega arith, refl);
  flight = refl;
  unread = λ e. absurd (omega arith);
  ahead = λ l. omega arith;
  finished = λ e. absurd (ground arith);
}

ack_received_lem_example :
    (2 < 2 → ack_received flying (wrap 2 7) 5 ≡ flying)
    × (2 ≤ 2 → Acked flying 1 2 5 (ack_received flying (wrap 2 7) 5))
ack_received_lem_example =
    ack_received_lem flying 1 2 5 flying-Inv
      (record { isn = omega arith; close = omega arith; sent = omega arith; flight = omega arith })
      (omega arith) (omega arith)

-- A receiver that has seen the SYN, and the second and third bytes of a stream.
abbrev receiver : TcpReceiver
receiver = record (Receiver.new 8) { isn = 7; syned = true }

abbrev part : TcpSegment
part = record { header = record empty_header { seqno = 9 }; payload = 1 ∷ 2 ∷ [] }

segment_received_lem_example :
    (r : TcpReceiver) × (Receiver.segment_received receiver part ≡ ok r)
    × Received (λ i. i) receiver 1 2 false r
unfolding wrap Receiver.new Reassembler.new ByteStream.new
segment_received_lem_example =
    segment_received_lem (λ i. i) receiver part 1 refl refl refl (omega arith) (omega arith)
      (start-IsReading (λ i. i) 8 0 (omega arith)).inv refl (omega arith)

abbrev cfg : TcpConfig
cfg = record { rt_timeout = 1000; recv_capacity = 64000; send_capacity = 64000; isn = 7 }

step-Flushed_example :
    IfOk
      (Flushed (Flush.due (Connection.new cfg) (Call.put (1 ∷ 2 ∷ []))) (Connection.new cfg))
      (Flush.step (Connection.new cfg) (Call.put (1 ∷ 2 ∷ [])))
unfolding Connection.new Sender.new
step-Flushed_example = step-Flushed (Connection.new cfg) (Call.put (1 ∷ 2 ∷ [])) refl

abbrev peer : TcpConfig
peer = record { rt_timeout = 500; recv_capacity = 3000; send_capacity = 2000; isn = 4294967295 }

handshake-established_example :
    (c : TcpConnection) × (d : TcpConnection) × (handshake cfg peer ≡ ok (c, d))
    × (Connection.state c ≡ of_state State.established)
    × (Connection.state d ≡ of_state State.established)
    × (c.segments_out ≡ [])
    × (d.segments_out ≡ [])
    × (c.receiver.isn ≡ 4294967295)
    × (d.receiver.isn ≡ 7)
    × (c.sender.window ≡ 3000 % 2 ^ 16)
    × (d.sender.window ≡ 64000 % 2 ^ 16)
handshake-established_example =
    handshake-established cfg peer (omega arith) (omega arith) (omega arith) (omega arith)
      (omega arith) (omega arith)

-- A connection whose sender has a byte in flight.
abbrev unanswered : TcpConnection
unanswered = record (Connection.new cfg) { sender = flying }

abbrev timeouts : List ℕ
timeouts = 1000 ∷ 2000 ∷ 4000 ∷ 8000 ∷ 16000 ∷ 32000 ∷ 64000 ∷ 128000 ∷ []

ticks-reset_example :
    ((Linger.ticks unanswered timeouts).segments_out
      ≡ [] ++ replicate 8 (stamped unanswered segment))
    × ((Linger.ticks unanswered timeouts).active ≡ true)
    × (Connection.state (Connection.tick (Linger.ticks unanswered timeouts) 256000)
        ≡ of_state State.reset)
    × ((Connection.tick (Linger.ticks unanswered timeouts) 256000).segments_out
        ≡ stamped unanswered (rst_segment flying) ∷ [])
unfolding Connection.new
ticks-reset_example =
    ticks-reset unanswered segment [] timeouts 256000 refl (omega arith) (omega arith) refl refl
      refl (omega arith) (omega arith) refl
      (
        omega arith,
        omega arith,
        (
          omega arith,
          omega arith,
          (
            omega arith,
            omega arith,
            (
              omega arith,
              omega arith,
              (
                omega arith,
                omega arith,
                (
                  omega arith,
                  omega arith,
                  (omega arith, omega arith, (omega arith, omega arith, tt)),
                ),
              ),
            ),
          ),
        ),
      )
      (omega arith) (omega arith)

-- A connection whose streams have both ended, with the peer's FIN last.
abbrev waiting : TcpConnection
waiting = record (Connection.new cfg) {
  sender = record sender {
    stream = record stream { buffer = []; total_read = 3 };
    next_seqno = 5;
    fin_sent = true;
  };
  receiver = record receiver {
    reassembler = record (receiver.reassembler) {
      output = record (receiver.reassembler.output) { end = true };
    };
  };
  since_time_wait = 100;
}

ticks-linger_example :
    (Connection.state (Linger.ticks waiting (9000 ∷ 800 ∷ 100 ∷ []))
      ≡ of_state (lingering (10 * 1000) (100 + (9000 + (800 + (100 + 0))))))
    × IsQuiet (Linger.ticks waiting (9000 ∷ 800 ∷ 100 ∷ []))
    × ((Linger.ticks waiting (9000 ∷ 800 ∷ 100 ∷ [])).segments_out ≡ [])
unfolding Connection.new Connection.state TcpState.of_parts TcpState.sender_summary
    TcpState.receiver_summary of_state ByteStream.error ByteStream.eof ByteStream.input_ended
    Sender.bytes_in_flight Receiver.ackno Receiver.new Reassembler.new ByteStream.new
    ByteStream.bytes_written ByteStream.buffer_empty
ticks-linger_example =
    ticks-linger waiting (9000 ∷ 800 ∷ 100 ∷ []) refl (refl, refl) (omega arith) (omega arith)
      (omega arith)

shutdown-closed_example :
    (c : TcpConnection) × (d : TcpConnection) × ((handshake cfg peer >>= λ ends.
    shutdown ends.0 ends.1)
      ≡ ok (c, d))
    × (Connection.state c ≡ of_state State.time_wait)
    × (c.segments_out ≡ [])
    × (d.segments_out ≡ [])
    × (Connection.state (Linger.ticks c (9000 ∷ 1000 ∷ []))
        ≡ of_state (lingering (10 * 1000) (9000 + (1000 + 0))))
    × (Connection.state (Connection.tick d 20) ≡ of_state State.closed)
shutdown-closed_example =
    shutdown-closed cfg peer (omega arith) (omega arith) (omega arith) (omega arith) (omega arith)
      (omega arith) (omega arith) (omega arith) (9000 ∷ 1000 ∷ []) 20 (omega arith) (omega arith)
