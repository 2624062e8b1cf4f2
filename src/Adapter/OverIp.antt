-- ===== src/Adapter/OverIp.antt =====
-- TCPOverIPv4Adapter of libsponge/tcp_helpers/tcp_over_ip.hh and tcp_over_ip.cc. `reread` stands for
-- inet_ntoa and getaddrinfo: the number that an Address reads from the text of a number.
use cs144_me.Prelude.{
  ℕ, ◌+◌, ◌*◌, ◌%◌, ◌^◌, Bool, true, false, not, ◌&&◌, Option, none, some, length, ◌==◌,
  if◌then◌else◌,
}
use cs144_me.Prelude.Result.{Result, ok, ◌>>=◌}
use cs144_me.Header.Tcp.{TcpSegment, empty_segment, parse_segment, serialize_segment}
use cs144_me.Header.Ipv4
use cs144_me.Header.Ipv4.{Ipv4Header, Ipv4Datagram, proto_tcp, pseudo_cksum}
use cs144_me.Interface.{if_parsed}
use cs144_me.Adapter.{FdAdapterBase, set_ports}

-- The tests on the header of the datagram.
abbrev pub passes : FdAdapterBase → Ipv4Header → Bool
passes a h =
    if not a.listen && not (h.dst == a.cfg.source.ip)
    then false
    else if not a.listen && not (h.src == a.cfg.destination.ip)
    then false
    else if not (h.proto == proto_tcp)
    then false
    else true

-- The adapter answers the sender of the datagram, from the address that the datagram was for.
abbrev pub adopt : (ℕ → ℕ) → FdAdapterBase → Ipv4Header → TcpSegment → FdAdapterBase
adopt reread a h seg = record {
  cfg = record (a.cfg) {
    source = record { ip = reread h.dst; port = a.cfg.source.port };
    destination = record { ip = reread h.src; port = seg.header.sport };
  };
  listen = false;
}

-- The last test.
abbrev pub from_peer : FdAdapterBase → TcpSegment → Option TcpSegment × FdAdapterBase
from_peer a seg =
    if not (seg.header.sport == a.cfg.destination.port) then (none, a) else (some seg, a)

-- The tests on the segment, once it is parsed.
unfoldable pub accept :
    (ℕ → ℕ) → FdAdapterBase → Ipv4Header → Option TcpSegment → Option TcpSegment × FdAdapterBase
accept reread a h none = (none, a)
accept reread a h (some seg) =
    if not (seg.header.dport == a.cfg.source.port)
    then (none, a)
    else if a.listen
    then if seg.header.syn && not seg.header.rst
      then from_peer (adopt reread a h seg) seg
      else (none, a)
    else from_peer a seg

unfoldable pub unwrap_tcp_in_ip :
    (ℕ → ℕ) → FdAdapterBase → Ipv4Datagram → Option TcpSegment × FdAdapterBase
unwrap_tcp_in_ip reread a d =
    if passes a d.header
    then accept reread a d.header
        (if_parsed (parse_segment empty_segment d.payload (pseudo_cksum d.header)))
    else (none, a)

-- The header of the datagram; its length is cut to a uint16_t.
abbrev pub header_for : FdAdapterBase → TcpSegment → Ipv4Header
header_for a seg = record Ipv4.empty_header {
  src = a.cfg.source.ip;
  dst = a.cfg.destination.ip;
  len = (Ipv4.empty_header.hlen * 4 + seg.header.doff * 4 + length seg.payload) % 2 ^ 16;
}

-- The segment is the caller's: its ports are set.
unfoldable pub wrap_tcp_in_ip : FdAdapterBase → TcpSegment → Result (TcpSegment × Ipv4Datagram)
wrap_tcp_in_ip a seg = do
  let sent = set_ports a seg
  let h = header_for a sent
  payload ← serialize_segment sent (pseudo_cksum h)
  ok (sent, record { header = h; payload = payload })
