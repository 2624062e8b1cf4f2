-- ===== src/Adapter/Trip.antt =====
-- A segment from one adapter of libsponge/tcp_helpers/tcp_over_ip.cc to another, over TUN devices.
use cs144_me.Prelude.{
  ℕ, ◌+◌, ◌*◌, ◌^◌, ◌≤◌, ◌<◌, ◌≡◌, ◌⊎◌, inl, inr, refl, ap, sym, true, false, some, List, ◌++◌,
  length, length-append, arith,
}
use cs144_me.Prelude.Result.{ok}
use cs144_me.Parser.{put_u16}
use cs144_me.Parser.Laws.{AllBytes}
use cs144_me.Header.Tcp.{front, TcpSegment, empty_segment, parse_segment}
use cs144_me.Header.Tcp.Segment.{
  front_bytes, length-tail, serialize_segment_lem, parse_segment-wire, wire, tail_bytes,
  checksum_of,
}
use cs144_me.Header.Tcp.Trip.{IsWord}
use cs144_me.Header.Ipv4
use cs144_me.Header.Ipv4.{empty_datagram, Ipv4Header, Ipv4Datagram, pseudo_cksum, payload_length}
use cs144_me.Header.Ipv4.Trip.{parse_datagram-serialize}
use cs144_me.Header.Ipv4.Trip
use cs144_me.Interface.{if_parsed}
use cs144_me.Adapter.{Address, FdAdapterBase, set_ports}
use cs144_me.Adapter.OverIp.{passes, adopt, accept, header_for, unwrap_tcp_in_ip, wrap_tcp_in_ip}
use cs144_me.Adapter.Tun

-- An address with a 32-bit number and a 16-bit port.
pub record IsAddress (a : Address) : Type 0 where
  pub ip : a.ip < 2 ^ 32
  pub port : a.port < 2 ^ 16

-- A segment that an adapter can send: its fields fit, and it fits a datagram.
pub record IsSendable (seg : TcpSegment) : Type 0 where
  pub bytes : AllBytes seg.payload
  pub word : IsWord seg.header
  pub options : 5 ≤ seg.header.doff
  pub size : length seg.payload ≤ 60000

-- The segment as it arrives: with the ports, and the checksum filled in.
abbrev pub arrives : FdAdapterBase → TcpSegment → TcpSegment
arrives a seg =
    let sent = set_ports a seg in
    record sent {
      header = record (sent.header) { cksum = checksum_of sent (pseudo_cksum (header_for a sent)) };
    }

-- The other end takes what `a` sends: it is the mirror of `a`, or it listens on the port that `a`
-- sends to and the segment is a SYN.
abbrev pub Takes : FdAdapterBase → FdAdapterBase → TcpSegment → Type 0
Takes a b seg =
    ((b.listen ≡ false) × (b.cfg.source ≡ a.cfg.destination) × (b.cfg.destination ≡ a.cfg.source))
    ⊎ ((b.listen ≡ true)
        × (b.cfg.source.port ≡ a.cfg.destination.port)
        × (seg.header.syn ≡ true)
        × (seg.header.rst ≡ false))

-- The other end after it: the mirror of `a`, and not listening.
abbrev pub mirror : FdAdapterBase → FdAdapterBase → FdAdapterBase
mirror a b = record {
  cfg = record (b.cfg) { source = a.cfg.destination; destination = a.cfg.source };
  listen = false;
}

module _ (a : FdAdapterBase) (seg : TcpSegment) (source : IsAddress a.cfg.source)
    (destination : IsAddress a.cfg.destination) (v : IsSendable seg) where
  abbrev pub sent : TcpSegment
  sent = set_ports a seg

  abbrev pub header : Ipv4Header
  header = header_for a sent

  word : IsWord sent.header
  word = record {
    sport = source.port;
    dport = destination.port;
    seqno = v.word.seqno;
    ackno = v.word.ackno;
    doff_max = v.word.doff_max;
    win = v.word.win;
    cksum = v.word.cksum;
    uptr = v.word.uptr;
  }

  cksum_small : pseudo_cksum header + 2 ^ 16 * (length seg.payload + 64) < 2 ^ 32
  unfolding pseudo_cksum payload_length
  cksum_small = omega (arith, source, destination, v.size, v.word.doff_max)

  length_lem : (c : ℕ) → length (wire sent c) ≡ 4 * seg.header.doff + length seg.payload
  unfolding put_u16
  length_lem c = omega (
    arith,
    length-append (front sent.header) (put_u16 c ++ tail_bytes sent),
    length-append (put_u16 c) (tail_bytes sent),
    (front_bytes sent.header).1,
    length-tail sent (pseudo_cksum header) v.bytes word v.options cksum_small,
    v.options,
  )

  abbrev pub cksum : ℕ
  cksum = checksum_of sent (pseudo_cksum header)

  -- The datagram that carries the segment.
  abbrev pub carrier : Ipv4Datagram
  carrier = record { header = header; payload = wire sent cksum }

  pub wrap_lem : wrap_tcp_in_ip a seg ≡ ok (sent, carrier)
  unfolding wrap_tcp_in_ip
  wrap_lem = rw (serialize_segment_lem sent (pseudo_cksum header) v.options) refl

  parsed :
      if_parsed (parse_segment empty_segment (wire sent cksum) (pseudo_cksum header))
      ≡ some (arrives a seg)
  parsed =
      rw
        (parse_segment-wire sent (pseudo_cksum header) v.bytes word v.options cksum_small
          empty_segment)
        refl

  module _ (reread : ℕ → ℕ) (read_back : (x : ℕ) → x < 2 ^ 32 → reread x ≡ x) (b : FdAdapterBase)
      (takes : Takes a b seg) where
    mirrored :
        b.listen ≡ false
        → b.cfg.source ≡ a.cfg.destination
        → b.cfg.destination ≡ a.cfg.source
        → mirror a b ≡ b
    mirrored l s d = rw (sym s, sym d, sym l) refl

    passes_lem : passes b header ≡ true
    passes_lem = elim takes [
      | inl t ↦ ground (arith, ap (λ x. x.ip) t.1, ap (λ x. x.ip) t.2, t.0)
      | inr t ↦ ground (arith, t.0)
    ]

    adopt_lem :
        b.cfg.source.port ≡ a.cfg.destination.port
        → adopt reread b header (arrives a seg) ≡ mirror a b
    adopt_lem p =
        rw (read_back a.cfg.destination.ip destination.ip, read_back a.cfg.source.ip source.ip, p)
          refl

    accept_lem : accept reread b header (some (arrives a seg)) ≡ (some (arrives a seg), mirror a b)
    unfolding accept
    accept_lem = elim takes [
      | inl t ↦
          ground (arith, ap (λ x. x.port) t.1, ap (λ x. x.port) t.2, t.0, mirrored t.0 t.1 t.2)
      | inr t ↦ ground (arith, t, adopt_lem t.1)
    ]

    pub unwrap_lem :
        (c : ℕ)
        → unwrap_tcp_in_ip reread b (record carrier { header = record header { cksum = c } })
          ≡ (some (arrives a seg), mirror a b)
    unfolding unwrap_tcp_in_ip accept pseudo_cksum payload_length
    unwrap_lem c = rw (passes_lem, parsed) accept_lem

  pub carrier-IsWord : Ipv4.Trip.IsWord header (length (wire sent cksum))
  carrier-IsWord = record {
    ver = refl;
    hlen_min = omega arith;
    hlen_max = omega arith;
    tos = omega arith;
    len = omega (arith, length_lem cksum, v.size, v.word.doff_max);
    len_max = omega arith;
    id = omega arith;
    offset = omega arith;
    ttl = omega arith;
    proto = omega arith;
    src = source.ip;
    dst = destination.ip;
  }

-- Take an adapter whose addresses and ports fit, and a segment of bytes whose fields fit, with at
-- least five header words and at most 60000 bytes of payload. Take another adapter: its mirror, or
-- one that listens on the port the segment goes to, and then the segment is a SYN without RST. An
-- Address reads each 32-bit number back from its text. What the first writes to a TUN device, the
-- second reads as the segment with the ports set and the checksum filled in; then the second is the
-- mirror of the first and does not listen.
pub read-write :
    (reread : ℕ → ℕ) (a b : FdAdapterBase) (seg : TcpSegment)
    → ((x : ℕ) → x < 2 ^ 32 → reread x ≡ x)
    → IsAddress a.cfg.source
    → IsAddress a.cfg.destination
    → IsSendable seg
    → Takes a b seg
    → (bytes : List ℕ) × (Tun.write a seg ≡ ok (set_ports a seg, bytes))
      × (Tun.read reread b bytes ≡ (some (arrives a seg), mirror a b))
unfolding Tun.read Tun.write
read-write reread a b seg read_back s d v takes =
    let (bytes, e, p, q) =
      parse_datagram-serialize empty_datagram (carrier a seg s d v) (carrier-IsWord a seg s d v) in
    (
      bytes,
      rw (wrap_lem a seg s d v, e) refl,
      rw p (unwrap_lem a seg s d v reread read_back b takes _),
    )
