-- ===== src/Channel/Kept.antt =====
-- What a TCPSender (libsponge/tcp_sender.cc, ack_received) keeps until the TCPReceiver
-- (libsponge/tcp_receiver.cc) has it, over any network.
use cs144_me.Prelude.{ℕ, ◌+◌, ◌^◌, ◌≤◌, ◌<◌, ◌≡◌, Bool, List}
use cs144_me.Prelude.Result.{ok}
use cs144_me.Sender.Inv.{Chain}
use cs144_me.Receiver.Place.{got}
use cs144_me.Channel.{Net, Event, run, start, offered}
use cs144_me.Channel.Delivery.{Agrees, run_start}

-- The outstanding segments carry all numbers from `base` on, and the receiver has those before.
pub record IsKept (net : Net) : Type 0 where
  pub base : ℕ
  pub outstanding : Chain net.sender.isn base net.sender.outstandings net.sender.next_seqno
  pub received : base ≤ got net.receiver
  pub in_flight : base + net.sender.in_flights ≡ net.sender.next_seqno

Agrees-IsKept :
    {src : ℕ → ℕ} {isn cap w : ℕ} {e : Bool} {net : Net} → Agrees src isn cap w e net → IsKept net
Agrees-IsKept v = record {
  base = v.sends.base;
  outstanding = v.sends.inv.chain;
  received = v.sends.held_is;
  in_flight = v.sends.inv.flight;
}

-- Take a stream, a new sender with an initial sequence number below 2 ^ 32, and a new receiver, of
-- any capacities below 2 ^ 31, and any events: writes, the end of the stream, fills of the window,
-- timeouts, acknowledgments, reads, and a network that delivers any segment or acknowledgment ever
-- sent, in any order, many times or never. All bytes offered and the receiver's capacity make less
-- than 2 ^ 31 - 2. Nothing is thrown, and for some number `base` the receiver has the stream, with its
-- SYN and FIN, up to `base`, while the outstanding segments of the sender carry, without a gap, all
-- the numbers from `base` to the next one, which are the bytes that it counts as in flight: what the
-- receiver does not have is never forgotten.
pub run-IsKept :
    (src : ℕ → ℕ) (isn timeout send_capacity recv_capacity : ℕ) (es : List Event)
    → isn < 2 ^ 32
    → send_capacity < 2 ^ 31
    → offered es + recv_capacity + 2 < 2 ^ 31
    → (net : Net) × (run src (start isn timeout send_capacity recv_capacity) es ≡ ok net)
      × IsKept net
run-IsKept src isn timeout sc rc es low h k =
    let (net, q, w, c, v) = run_start src isn timeout sc rc es low h k in (net, q, Agrees-IsKept v)
