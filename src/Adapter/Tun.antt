-- ===== src/Adapter/Tun.antt =====
-- TCPOverIPv4OverTunFdAdapter of libsponge/tcp_helpers/tuntap_adapter.hh. The TUN device gives and
-- takes the bytes of IPv4 datagrams.
use cs144_me.Prelude.{ℕ, Option, none, some, List, [], ◌∷◌}
use cs144_me.Prelude.Result.{Result, ok, ◌>>=◌}
use cs144_me.Header.Tcp.{TcpSegment}
use cs144_me.Header.Ipv4.{Ipv4Datagram, empty_datagram, parse_datagram, serialize_datagram}
use cs144_me.Interface.{if_parsed}
use cs144_me.Adapter
use cs144_me.Adapter.{FdAdapterBase, FdAdapter, set_listening}
use cs144_me.Adapter.OverIp.{unwrap_tcp_in_ip, wrap_tcp_in_ip}

abbrev pub unwrap_some :
    (ℕ → ℕ) → FdAdapterBase → Option Ipv4Datagram → Option TcpSegment × FdAdapterBase
unwrap_some reread a none = (none, a)
unwrap_some reread a (some d) = unwrap_tcp_in_ip reread a d

unfoldable pub read : (ℕ → ℕ) → FdAdapterBase → List ℕ → Option TcpSegment × FdAdapterBase
read reread a bytes = unwrap_some reread a (if_parsed (parse_datagram empty_datagram bytes))

unfoldable pub write : FdAdapterBase → TcpSegment → Result (TcpSegment × List ℕ)
write a seg = do (sent, d) ← wrap_tcp_in_ip a seg; bytes ← serialize_datagram d; ok (sent, bytes)

abbrev read_packet :
    (ℕ → ℕ) → FdAdapterBase → List ℕ → Result (Option TcpSegment × List (List ℕ) × FdAdapterBase)
read_packet reread a bytes = let (seg, a') = read reread a bytes in ok (seg, [], a')

abbrev write_packet :
    FdAdapterBase → TcpSegment → Result (TcpSegment × List (List ℕ) × FdAdapterBase)
write_packet a seg = do (sent, bytes) ← write a seg; ok (sent, bytes ∷ [], a)

abbrev pub tun_adapter : (ℕ → ℕ) → FdAdapter FdAdapterBase (List ℕ)
tun_adapter reread = record {
  config = λ a. a.cfg;
  set_config = λ a cfg. record a { cfg = cfg };
  read = read_packet reread;
  write = write_packet;
  set_listening = set_listening;
  tick = λ a ms. ([], Adapter.tick a ms);
}
