-- ===== src/Tests/Simulator.antt =====
-- The hosts and cables of apps/network_simulator.cc at concrete inputs.
use mathlib.Core.List.{Perm}
use cs144_me.Prelude.{ℕ, ◌≡◌, ◌↔◌, refl, List, [], ◌∷◌, arith}
use cs144_me.Prelude.Result.{ok}
use cs144_me.Prelude.Assoc.{lookup}
use cs144_me.Header.Ipv4
use cs144_me.Header.Ipv4.{Ipv4Datagram}
use cs144_me.Header.Ipv4.Trip.{checksum_of, parse_datagram-serialize}
use cs144_me.Interface
use cs144_me.Interface.{NetworkInterface, send_datagram}
use cs144_me.Router.{AsyncNetworkInterface}
use cs144_me.Simulator.{Host, check}
use cs144_me.Simulator.Check.{wires, check_iff}
use cs144_me.Simulator.Exchange.{IsDelivered, exchange_3_times, exchange-IsDelivered}

abbrev applesauce : AsyncNetworkInterface
applesauce = record {
  interface = Interface.new (2 ∷ 0 ∷ 0 ∷ 0 ∷ 0 ∷ 2 ∷ []) 167772162;
  datagrams_out = [];
}

abbrev eth0 : AsyncNetworkInterface
eth0 = record {
  interface = Interface.new (2 ∷ 0 ∷ 0 ∷ 0 ∷ 0 ∷ 1 ∷ []) 167772161;
  datagrams_out = [];
}

abbrev datagram : Ipv4Datagram
datagram = record {
  header = record Ipv4.empty_header { len = 21; src = 167772162; dst = 167772161 };
  payload = 9 ∷ [];
}

exchange-IsDelivered_example :
    (n : NetworkInterface) × (x : AsyncNetworkInterface) × (y : AsyncNetworkInterface)
    × (send_datagram applesauce.interface datagram 167772161 ≡ ok n)
    × (exchange_3_times (record applesauce { interface = n }) eth0 ≡ ok (x, y))
    × IsDelivered
        (record datagram {
          header = record (datagram.header) { cksum = checksum_of datagram.header };
        })
        applesauce
        eth0
        x
        y
unfolding Interface.new lookup
exchange-IsDelivered_example =
    exchange-IsDelivered applesauce eth0 datagram
      (record { ethernet = omega arith; ip = omega arith; idle = refl })
      (record { ethernet = omega arith; ip = omega arith; idle = refl }) (omega arith) refl refl
      refl refl

-- A host that has received the datagram that it expects.
abbrev cherrypie : Host
cherrypie = record {
  name = "cherrypie";
  my_address = 167772161;
  interface = record eth0 { datagrams_out = datagram ∷ [] };
  next_hop = 167772162;
  expecting_to_receive = datagram ∷ [];
}

abbrev written : (s : List ℕ) × (Ipv4.serialize_datagram datagram ≡ ok s)
written = let r = parse_datagram-serialize Ipv4.empty_datagram datagram (omega arith) in (r.0, r.1)

check_iff_example :
    ((h : Host) × (check cherrypie ≡ ok h)
      × (h.interface.datagrams_out ≡ [])
      × (h.expecting_to_receive ≡ []))
    ↔ Perm (wires (datagram ∷ [])) (wires (datagram ∷ []))
check_iff_example = check_iff cherrypie (written, tt) (written, tt)
