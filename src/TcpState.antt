-- ===== src/TcpState.antt =====
-- libsponge/tcp_helpers/tcp_state.hh and tcp_state.cc: the official states of a connection, and the
-- summary of a sender and a receiver. Each summary string is a constructor; the strings of one
-- namespace differ from one another.
pub mod Names
use cs144_me.Prelude.{ℕ, Bool, true, false, not, ◌&&◌, Option, none, some, ltb, ◌==◌, if◌then◌else◌}
use cs144_me.Prelude.Word.{add_size}
use cs144_me.ByteStream
use cs144_me.ByteStream.{bytes_written, eof, input_ended}
use cs144_me.Receiver
use cs144_me.Receiver.{TcpReceiver, stream_out}
use cs144_me.Sender
use cs144_me.Sender.{TcpSender, bytes_in_flight}

pub data ReceiverSummary : Type 0 where
  error listen syn_recv fin_recv : ReceiverSummary

pub data SenderSummary : Type 0 where
  error closed syn_sent syn_acked fin_sent fin_acked : SenderSummary

-- TCPState::State
pub data State : Type 0 where
  listen syn_rcvd syn_sent established close_wait last_ack fin_wait_1 fin_wait_2 closing time_wait
        closed reset :
      State

pub record TcpState : Type 0 where
  pub sender : SenderSummary
  pub receiver : ReceiverSummary
  pub active : Bool
  pub linger : Bool

unfoldable pub same_receiver : ReceiverSummary → ReceiverSummary → Bool
same_receiver ReceiverSummary.error ReceiverSummary.error = true
same_receiver ReceiverSummary.listen ReceiverSummary.listen = true
same_receiver ReceiverSummary.syn_recv ReceiverSummary.syn_recv = true
same_receiver ReceiverSummary.fin_recv ReceiverSummary.fin_recv = true
same_receiver _ _ = false

unfoldable pub same_sender : SenderSummary → SenderSummary → Bool
same_sender SenderSummary.error SenderSummary.error = true
same_sender SenderSummary.closed SenderSummary.closed = true
same_sender SenderSummary.syn_sent SenderSummary.syn_sent = true
same_sender SenderSummary.syn_acked SenderSummary.syn_acked = true
same_sender SenderSummary.fin_sent SenderSummary.fin_sent = true
same_sender SenderSummary.fin_acked SenderSummary.fin_acked = true
same_sender _ _ = false

abbrev pub same_bool : Bool → Bool → Bool
same_bool true b = b
same_bool false b = not b

-- operator== and operator!=
unfoldable pub equal : TcpState → TcpState → Bool
unfolding same_receiver same_sender
equal a b =
    same_bool a.active b.active
    && (same_bool a.linger b.linger
        && (same_sender a.sender b.sender && same_receiver a.receiver b.receiver))

unfoldable pub not_equal : TcpState → TcpState → Bool
unfolding equal
not_equal a b = not (equal a b)

abbrev live : SenderSummary → ReceiverSummary → Bool → TcpState
live s r linger = record { sender = s; receiver = r; active = true; linger = linger }

abbrev dead : SenderSummary → ReceiverSummary → TcpState
dead s r = record { sender = s; receiver = r; active = false; linger = false }

-- The constructor from an official state.
unfoldable pub of_state : State → TcpState
of_state State.listen = live SenderSummary.closed ReceiverSummary.listen true
of_state State.syn_rcvd = live SenderSummary.syn_sent ReceiverSummary.syn_recv true
of_state State.syn_sent = live SenderSummary.syn_sent ReceiverSummary.listen true
of_state State.established = live SenderSummary.syn_acked ReceiverSummary.syn_recv true
of_state State.close_wait = live SenderSummary.syn_acked ReceiverSummary.fin_recv false
of_state State.last_ack = live SenderSummary.fin_sent ReceiverSummary.fin_recv false
of_state State.closing = live SenderSummary.fin_sent ReceiverSummary.fin_recv true
of_state State.fin_wait_1 = live SenderSummary.fin_sent ReceiverSummary.syn_recv true
of_state State.fin_wait_2 = live SenderSummary.fin_acked ReceiverSummary.syn_recv true
of_state State.time_wait = live SenderSummary.fin_acked ReceiverSummary.fin_recv true
of_state State.reset = dead SenderSummary.error ReceiverSummary.error
of_state State.closed = dead SenderSummary.fin_acked ReceiverSummary.fin_recv

abbrev pub has_value {ℓ} : {A : Type ℓ} → Option A → Bool
has_value none = false
has_value (some a) = true

unfoldable pub receiver_summary : TcpReceiver → ReceiverSummary
receiver_summary r =
    if ByteStream.error (stream_out r)
    then ReceiverSummary.error
    else if not (has_value (Receiver.ackno r))
    then ReceiverSummary.listen
    else if input_ended (stream_out r)
    then ReceiverSummary.fin_recv
    else ReceiverSummary.syn_recv

unfoldable pub sender_summary : TcpSender → SenderSummary
sender_summary s =
    if ByteStream.error s.stream
    then SenderSummary.error
    else if s.next_seqno == 0
    then SenderSummary.closed
    else if s.next_seqno == bytes_in_flight s
    then SenderSummary.syn_sent
    else if not (eof s.stream)
    then SenderSummary.syn_acked
    else if ltb s.next_seqno (add_size (bytes_written s.stream) 2)
    then SenderSummary.syn_acked
    else if not (bytes_in_flight s == 0)
    then SenderSummary.fin_sent
    else SenderSummary.fin_acked

-- The constructor from the parts of a connection.
unfoldable pub of_parts : TcpSender → TcpReceiver → Bool → Bool → TcpState
of_parts s r active linger = record {
  sender = sender_summary s;
  receiver = receiver_summary r;
  active = active;
  linger = if active then linger else false;
}
