-- ===== src/Adapter/Frames.antt =====
-- A segment from one adapter of libsponge/tcp_helpers/tuntap_adapter.cc to another, over an Ethernet.
use cs144_me.Prelude.{ℕ, ◌^◌, ◌<◌, ◌≡◌, refl, Bool, true, false, ◌||◌, some, List, [], ◌∷◌, arith}
use cs144_me.Prelude.Result.{ok}
use cs144_me.Prelude.Assoc.{lookup}
use cs144_me.Header.Tcp.{TcpSegment}
use cs144_me.Header.Ipv4.{Ipv4Datagram, empty_datagram, parse_datagram, serialize_datagram}
use cs144_me.Header.Ipv4.Trip.{parse_datagram-serialize}
use cs144_me.Header.Ethernet.{EthernetAddress, EthernetFrame, type_ipv4, serialize_frame}
use cs144_me.Header.Ethernet.Trip
use cs144_me.Header.Ethernet.Trip.{parse_frame-serialize_frame}
use cs144_me.Interface.{
  NetworkInterface, same_address, if_parsed, push_frame, frame_to, send_datagram, send_by_cache,
  send_to, recv_frame,
}
use cs144_me.Adapter.{set_ports}
use cs144_me.Adapter.Ethernet
use cs144_me.Adapter.Ethernet.{EthernetAdapter, empty_frame, read_frame, send_pending}
use cs144_me.Adapter.Trip.{
  IsAddress, IsSendable, Takes, arrives, mirror, carrier, carrier-IsWord, wrap_lem, unwrap_lem,
}

pub same_address_refl : (m : EthernetAddress) → same_address m m ≡ true
unfolding same_address
same_address_refl [] = refl
same_address_refl (b ∷ bs) = ground (arith, same_address_refl bs)

-- A datagram to an address in the cache goes out in one frame.
send_known :
    (n : NetworkInterface) (d : Ipv4Datagram) (ip : ℕ) (m : EthernetAddress) (bytes : List ℕ)
    → lookup ip n.cache ≡ some m
    → serialize_datagram d ≡ ok bytes
    → send_datagram n d ip ≡ ok (push_frame n (frame_to n m type_ipv4 bytes))
unfolding send_datagram send_by_cache send_to
send_known n d ip m bytes k e = rw (k, e) refl

pub or_true : (b : Bool) → (b || true) ≡ true
or_true true = refl
or_true false = refl

-- An IPv4 frame for the interface gives its datagram.
pub recv_own :
    (n : NetworkInterface) (f : EthernetFrame)
    → f.header.dst ≡ n.ethernet_address
    → f.header.type ≡ type_ipv4
    → recv_frame n f ≡ ok (if_parsed (parse_datagram empty_datagram f.payload), n)
unfolding recv_frame
recv_own n f e t = rw (e, t, same_address_refl n.ethernet_address, or_true _) refl

-- Take two adapters on one Ethernet with no frame pending, such that the first knows the address of the
-- second for its next hop, and the rest as for TUN devices: addresses and ports that fit, a segment
-- that fits, and a second that is the mirror of the first or listens for the SYN. What the first
-- writes is one frame, and the second reads it as the segment with the ports set and the checksum
-- filled in, and answers with no frame; then the second is the mirror of the first.
pub read-write_frame :
    (reread : ℕ → ℕ) (a b : EthernetAdapter) (seg : TcpSegment)
    → ((x : ℕ) → x < 2 ^ 32 → reread x ≡ x)
    → IsAddress a.base.cfg.source
    → IsAddress a.base.cfg.destination
    → IsSendable seg
    → Takes a.base b.base seg
    → a.interface.frames_out ≡ []
    → b.interface.frames_out ≡ []
    → lookup a.next_hop.ip a.interface.cache ≡ some b.interface.ethernet_address
    → Trip.IsAddress a.interface.ethernet_address
    → Trip.IsAddress b.interface.ethernet_address
    → (bytes : List ℕ) × (Ethernet.write a seg ≡ ok (set_ports a.base seg, bytes ∷ [], a))
      × (Ethernet.read reread b bytes
          ≡ ok (some (arrives a.base seg), [], record b { base = mirror a.base b.base }))
unfolding Ethernet.read Ethernet.write send_pending read_frame
read-write_frame reread a b seg read_back s d v takes pa pb known ma mb =
    let (bytes, e, p, q) =
      parse_datagram-serialize empty_datagram (carrier a.base seg s d v)
        (carrier-IsWord a.base seg s d v) in
    let f : EthernetFrame = frame_to a.interface b.interface.ethernet_address type_ipv4 bytes in
    (
      serialize_frame f,
      rw
          (
            wrap_lem a.base seg s d v,
            send_known a.interface (carrier a.base seg s d v) a.next_hop.ip
                b.interface.ethernet_address bytes known e,
          )
          (rw pa refl),
      rw
          (
            parse_frame-serialize_frame empty_frame f mb ma (omega arith),
            recv_own b.interface f refl refl,
            p,
            unwrap_lem a.base seg s d v reread read_back b.base takes,
          )
          (rw pb refl),
    )
