-- ===== src/Channel/Flow.antt =====
-- Flow control between a TCPSender (libsponge/tcp_sender.cc, fill_window and ack_received) and a
-- TCPReceiver (libsponge/tcp_receiver.cc, window_size) over any network.
use cs144_me.Prelude.{ℕ, ◌+◌, ◌^◌, ◌≤◌, ◌<◌, ◌≡◌, Bool, true, false, List, length, arith}
use cs144_me.Prelude.Result.{ok}
use cs144_me.Sender.Inv.{space}
use cs144_me.Channel.{Net, Event, run, start, offered}
use cs144_me.Channel.Delivery.{Agrees, run_start, given_count}

-- A probe of a closed window is one number.
probe_le : (b : Bool) → space b ≤ 1
probe_le true = omega arith
probe_le false = omega arith

-- How far the sender may be ahead of the reader.
pub record IsPaced (capacity : ℕ) (net : Net) : Type 0 where
  pub numbers : net.sender.next_seqno ≤ length net.given + capacity + 3
  pub bytes : net.sender.stream.total_read ≤ length net.given + capacity + 2

Agrees-IsPaced :
    {src : ℕ → ℕ} {isn cap w : ℕ} {e : Bool} {net : Net}
    → Agrees src isn cap w e net
    → IsPaced cap net
Agrees-IsPaced {cap = cap} {net = net} v = record {
  numbers = ahead;
  bytes = ground (arith, ahead, v.sends.inv.unread, v.sends.inv.ahead);
}
  where
    ahead : net.sender.next_seqno ≤ length net.given + cap + 3
    ahead = omega (arith, v.sends.flow, v.sends.edge_is, given_count v, probe_le net.sender.probing)

-- Take a stream, a new sender with an initial sequence number below 2 ^ 32, and a new receiver, of
-- any capacities below 2 ^ 31, and any events: writes, the end of the stream, fills of the window,
-- timeouts, acknowledgments, reads, and a network that delivers any segment or acknowledgment ever
-- sent, in any order, many times or never. All bytes offered and the receiver's capacity make less
-- than 2 ^ 31 - 2. Nothing is thrown; the next sequence number of the sender is at most the number of
-- bytes that the reader has got, the receiver's capacity and 3 (the SYN, the FIN and a probe of a
-- closed window); and the sender has taken from its stream at most the number of bytes that the
-- reader has got, the capacity and 2.
pub run-IsPaced :
    (src : ℕ → ℕ) (isn timeout send_capacity recv_capacity : ℕ) (es : List Event)
    → isn < 2 ^ 32
    → send_capacity < 2 ^ 31
    → offered es + recv_capacity + 2 < 2 ^ 31
    → (net : Net) × (run src (start isn timeout send_capacity recv_capacity) es ≡ ok net)
      × IsPaced recv_capacity net
run-IsPaced src isn timeout sc rc es low h k =
    let (net, q, w, c, v) = run_start src isn timeout sc rc es low h k in (net, q, Agrees-IsPaced v)
