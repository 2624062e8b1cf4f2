-- ===== src/Adapter/Udp.antt =====
-- TCPOverUDPSocketAdapter of libsponge/tcp_helpers/fd_adapter.hh and fd_adapter.cc. What the socket
-- gives and takes is a datagram with the other side's address.
use cs144_me.Prelude.{ℕ, false, not, ◌&&◌, Option, none, some, List, [], ◌∷◌, if◌then◌else◌}
use cs144_me.Prelude.Result.{Result, ok, ◌>>=◌}
use cs144_me.Header.Tcp.{TcpSegment, empty_segment, parse_segment, serialize_segment}
use cs144_me.Interface.{if_parsed}
use cs144_me.Adapter
use cs144_me.Adapter.{
  Address, FdAdapterConfig, FdAdapterBase, FdAdapter, same_address, set_listening, set_ports,
}

pub record UdpDatagram : Type 0 where
  pub address : Address
  pub payload : List ℕ

-- The segment, once it is parsed.
unfoldable pub accept :
    FdAdapterBase → Address → Option TcpSegment → Option TcpSegment × FdAdapterBase
accept a peer none = (none, a)
accept a peer (some seg) =
    if a.listen
    then if seg.header.syn && not seg.header.rst
      then (some seg, record { cfg = record (a.cfg) { destination = peer }; listen = false })
      else (none, a)
    else (some seg, a)

unfoldable pub read : FdAdapterBase → UdpDatagram → Option TcpSegment × FdAdapterBase
read a d =
    if not a.listen && not (same_address d.address a.cfg.destination)
    then (none, a)
    else accept a d.address (if_parsed (parse_segment empty_segment d.payload 0))

unfoldable pub write : FdAdapterBase → TcpSegment → Result (TcpSegment × UdpDatagram)
write a seg = do
  let sent = set_ports a seg
  payload ← serialize_segment sent 0
  ok (sent, record { address = a.cfg.destination; payload = payload })

abbrev read_packet :
    FdAdapterBase → UdpDatagram → Result (Option TcpSegment × List UdpDatagram × FdAdapterBase)
read_packet a d = let (seg, a') = read a d in ok (seg, [], a')

abbrev write_packet :
    FdAdapterBase → TcpSegment → Result (TcpSegment × List UdpDatagram × FdAdapterBase)
write_packet a seg = do (sent, d) ← write a seg; ok (sent, d ∷ [], a)

abbrev pub udp_adapter : FdAdapter FdAdapterBase UdpDatagram
udp_adapter = record {
  config = λ a. a.cfg;
  set_config = λ a cfg. record a { cfg = cfg };
  read = read_packet;
  write = write_packet;
  set_listening = set_listening;
  tick = λ a ms. ([], Adapter.tick a ms);
}
