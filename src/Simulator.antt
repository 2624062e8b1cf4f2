-- ===== src/Simulator.antt =====
-- apps/network_simulator.cc: hosts, cables that move frames between interfaces, and the check that
-- each host got the datagrams meant for it. The random numbers are arguments, and what is printed is
-- left out.
pub mod Exchange
pub mod Check
pub mod Topology
pub mod Scenario
use Prim.Native.String.{String}
use text.Mathlib.Text
use cs144_me.Prelude.{
  ℕ, ◌+◌, ◌*◌, ◌%◌, ◌^◌, Bool, true, false, not, Option, none, some, List, [], ◌∷◌, ◌++◌, length,
  set, get_elem?, if◌then◌else◌,
}
use cs144_me.Prelude.Result.{Result, ok, throw, runtime_error, out_of_range, ◌>>=◌}
use cs144_me.Header.Ethernet.{EthernetAddress, EthernetFrame}
use cs144_me.Header.Ipv4
use cs144_me.Header.Ipv4.{Ipv4Datagram, serialize_datagram}
use cs144_me.Interface
use cs144_me.Interface.{same_address as same_bytes}
use cs144_me.Router
use cs144_me.Router.{AsyncNetworkInterface, Router, recv_frame}

pub record Host : Type 0 where
  pub name : String
  pub my_address : ℕ
  pub interface : AsyncNetworkInterface
  pub next_hop : ℕ
  pub expecting_to_receive : List Ipv4Datagram

unfoldable pub new_host : EthernetAddress → String → ℕ → ℕ → Host
new_host ethernet_address name my_address next_hop = record {
  name = name;
  my_address = my_address;
  interface = record { interface = Interface.new ethernet_address my_address; datagrams_out = [] };
  next_hop = next_hop;
  expecting_to_receive = [];
}

-- `x.serialize().concatenate() == y.serialize().concatenate()`
abbrev pub same_datagram : Ipv4Datagram → Ipv4Datagram → Result Bool
same_datagram x y = do a ← serialize_datagram x; b ← serialize_datagram y; ok (same_bytes a b)

unfoldable pub expecting : List Ipv4Datagram → Ipv4Datagram → Result Bool
expecting [] expected = ok false
expecting (x ∷ xs) expected = do
  same ← same_datagram x expected
  if same then ok true else expecting xs expected

-- The first that is the same is erased.
unfoldable pub remove_expectation : List Ipv4Datagram → Ipv4Datagram → Result (List Ipv4Datagram)
remove_expectation [] expected = ok []
remove_expectation (x ∷ xs) expected = do
  same ← same_datagram x expected
  if same then ok xs else (do rest ← remove_expectation xs expected; ok (x ∷ rest))

-- The datagram that a host sends, with the random text as its payload.
unfoldable pub datagram_to : Host → List ℕ → ℕ → ℕ → Ipv4Datagram
datagram_to h payload destination ttl = record {
  header = record Ipv4.empty_header {
    src = h.my_address;
    dst = destination;
    len = (Ipv4.empty_header.hlen * 4 + length payload) % 2 ^ 16;
    ttl = ttl;
  };
  payload = payload;
}

unfoldable pub send_to : Host → List ℕ → ℕ → ℕ → Result (Ipv4Datagram × Host)
send_to h payload destination ttl = do
  let dgram = datagram_to h payload destination ttl
  n ← Interface.send_datagram h.interface.interface dgram h.next_hop
  ok (dgram, record h { interface = record (h.interface) { interface = n } })

unfoldable pub expect : Host → Ipv4Datagram → Host
expect h expected = record h { expecting_to_receive = h.expecting_to_receive ++ (expected ∷ []) }

-- The loop of check over the datagrams received: the expectations that are left.
unfoldable pub receive_all : List Ipv4Datagram → List Ipv4Datagram → Result (List Ipv4Datagram)
receive_all [] expected = ok expected
receive_all (d ∷ ds) expected = do
  found ← expecting expected d
  if not found
      then throw runtime_error
      else (do left ← remove_expectation expected d; receive_all ds left)

abbrev pub if_none_left : Host → List Ipv4Datagram → Result Host
if_none_left h [] = ok h
if_none_left h (d ∷ ds) = throw runtime_error

unfoldable pub check : Host → Result Host
check h = do
  left ← receive_all h.interface.datagrams_out h.expecting_to_receive
  if_none_left
      (record h {
        interface = record (h.interface) { datagrams_out = [] };
        expecting_to_receive = left;
      })
      left

abbrev pub frames_out : AsyncNetworkInterface → List EthernetFrame
frames_out a = a.interface.frames_out

-- Pops as many elements of the second queue as the first has.
unfoldable pub clear : List EthernetFrame → List EthernetFrame → List EthernetFrame
clear [] queue2 = queue2
clear (f ∷ fs) [] = []
clear (f ∷ fs) (g ∷ gs) = clear fs gs

abbrev pub cleared : List EthernetFrame → AsyncNetworkInterface → AsyncNetworkInterface
cleared sent a = record a {
  interface = record (a.interface) { frames_out = clear sent (frames_out a) };
}

-- Network::deliver
unfoldable pub deliver : List EthernetFrame → AsyncNetworkInterface → Result AsyncNetworkInterface
deliver [] dst = ok dst
deliver (f ∷ fs) dst = recv_frame dst f >>= λ dst'. deliver fs dst'

-- A cable between two interfaces: each gets what the other had sent before.
unfoldable pub exchange_frames :
    AsyncNetworkInterface
    → AsyncNetworkInterface
    → Result (AsyncNetworkInterface × AsyncNetworkInterface)
exchange_frames x y = do
  y' ← deliver (frames_out x) y
  x' ← deliver (frames_out y) x
  ok (cleared (frames_out x) x', cleared (frames_out y) y')

-- A segment with three interfaces.
unfoldable pub exchange_frames_3 :
    AsyncNetworkInterface
    → AsyncNetworkInterface
    → AsyncNetworkInterface
    → Result (AsyncNetworkInterface × AsyncNetworkInterface × AsyncNetworkInterface)
exchange_frames_3 x y z = do
  y1 ← deliver (frames_out x) y
  z1 ← deliver (frames_out x) z
  x1 ← deliver (frames_out y) x
  z2 ← deliver (frames_out y) z1
  x2 ← deliver (frames_out z) x1
  y2 ← deliver (frames_out z) y1
  ok (cleared (frames_out x) x2, cleared (frames_out y) y2, cleared (frames_out z) z2)
